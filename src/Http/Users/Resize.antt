-- ===== src/Http/Users/Resize.antt =====
-- `resizeTo128` of user_handler.go. The colours of Go's library are a parameter: `nrgba` is what
-- `dst.Set` makes of one, `blank` what a new image holds. A decoded image has no negative bounds.
use chat_back.Prelude.{
  ℕ, zero, suc, ◌+◌, ◌-◌, ◌*◌, ◌/◌, ◌<◌, ◌≤◌, ◌≡◌, ◌≢◌, ◌⊎◌, ◌∙◌, ◌==◌, ◌&&◌, if◌then◌else◌, arith,
  refl, Bool-cases, inl, inr, ==_iff, ==_refl,
}

pub record Image (Color : Type 0) : Type 0 where
  pub min_x : ℕ
  pub min_y : ℕ
  pub width : ℕ
  pub height : ℕ
  pub at : ℕ → ℕ → Color

abbrev pub size : ℕ
size = 128

share_below : (x w : ℕ) → x < size → 0 < w → x * w / size < w
share_below x w h pos = grind arith

module _ {Color : Type 0} (nrgba : Color → Color) (blank : Color) where
  abbrev set_pixel : ℕ → ℕ → Color → (ℕ → ℕ → Color) → ℕ → ℕ → Color
  set_pixel x y c pixels x' y' = if x' == x && y' == y then nrgba c else pixels x' y'

  abbrev pub source : Image Color → ℕ → ℕ → Color
  source src x y = src.at (src.min_x + x * src.width / size) (src.min_y + y * src.height / size)

  -- The inner loop, for the `n` pixels of a row that are to come.
  unfoldable pub fill_row : Image Color → ℕ → ℕ → (ℕ → ℕ → Color) → ℕ → ℕ → Color
  fill_row src y zero pixels = pixels
  fill_row src y (suc n) pixels =
      fill_row src y n (set_pixel (size - suc n) y (source src (size - suc n) y) pixels)

  -- The outer loop, for the `n` rows to come.
  unfoldable pub fill_rows : Image Color → ℕ → (ℕ → ℕ → Color) → ℕ → ℕ → Color
  unfolding fill_row
  fill_rows src zero pixels = pixels
  fill_rows src (suc n) pixels = fill_rows src n (fill_row src (size - suc n) size pixels)

  unfoldable pub resize_to_128 : Image Color → Image Color
  unfolding fill_rows
  resize_to_128 src = record {
    min_x = 0;
    min_y = 0;
    width = size;
    height = size;
    at = fill_rows src size (λ _ _. blank);
  }

  fill_row_keeps :
      (src : Image Color) (y n : ℕ) (pixels : ℕ → ℕ → Color) (x' y' : ℕ)
      → (y' ≢ y) ⊎ (x' + n < size)
      → fill_row src y n pixels x' y' ≡ pixels x' y'
  unfolding fill_row
  fill_row_keeps src y zero pixels x' y' h = refl
  fill_row_keeps src y (suc n) pixels x' y' h =
      fill_row_keeps src y n _ x' y' (ground arith) ∙ ground arith

  fill_row_sets :
      (src : Image Color) (y n : ℕ) (pixels : ℕ → ℕ → Color) (x' : ℕ)
      → n ≤ size
      → x' < size
      → size ≤ x' + n
      → fill_row src y n pixels x' y ≡ nrgba (source src x' y)
  unfolding fill_row
  fill_row_sets src y zero pixels x' h lt ge = absurd (omega arith)
  fill_row_sets src y (suc n) pixels x' h lt ge = elim (Bool-cases (x' == size - suc n)) [
    | inl here ↦
        fill_row_keeps src y n _ x' y (inr (grind arith))
        ∙ rw ((==_iff x' (size - suc n)).0 here, ==_refl (size - suc n), ==_refl y) refl
    | inr later ↦ fill_row_sets src y n _ x' (omega arith) lt (grind arith)
  ]

  fill_rows_keeps :
      (src : Image Color) (n : ℕ) (pixels : ℕ → ℕ → Color) (x' y' : ℕ)
      → y' + n < size
      → fill_rows src n pixels x' y' ≡ pixels x' y'
  unfolding fill_rows
  fill_rows_keeps src zero pixels x' y' h = refl
  fill_rows_keeps src (suc n) pixels x' y' h =
      fill_rows_keeps src n _ x' y' (omega arith)
      ∙ fill_row_keeps src (size - suc n) size pixels x' y' (inl (λ e. omega (arith, e)))

  fill_rows_sets :
      (src : Image Color) (n : ℕ) (pixels : ℕ → ℕ → Color) (x' y' : ℕ)
      → n ≤ size
      → x' < size
      → y' < size
      → size ≤ y' + n
      → fill_rows src n pixels x' y' ≡ nrgba (source src x' y')
  unfolding fill_rows
  fill_rows_sets src zero pixels x' y' h lt lt' ge = absurd (omega arith)
  fill_rows_sets src (suc n) pixels x' y' h lt lt' ge = elim (Bool-cases (y' == size - suc n)) [
    | inl here ↦
        fill_rows_keeps src n _ x' y' (grind arith)
        ∙ rw ((==_iff y' (size - suc n)).0 here)
            (fill_row_sets src (size - suc n) size pixels x' (omega arith) lt (omega arith))
    | inr later ↦ fill_rows_sets src n _ x' y' (omega arith) lt lt' (grind arith)
  ]

  -- Every pixel of the small image is the colour of a pixel of the image that is resized, which
  -- lies within its bounds: that at the same share of the width and of the height.
  pub resize_to_128_lem :
      (src : Image Color) (x y : ℕ)
      → x < size
      → y < size
      → ((resize_to_128 src).at x y ≡ nrgba (source src x y))
        × ((0 < src.width) → src.min_x + x * src.width / size < src.min_x + src.width)
        × ((0 < src.height) → src.min_y + y * src.height / size < src.min_y + src.height)
  unfolding resize_to_128
  resize_to_128_lem src x y h h' = (
    fill_rows_sets src size (λ _ _. blank) x y (omega arith) h h' (omega arith),
    λ p. grind (arith, share_below x src.width h p),
    λ p. grind (arith, share_below y src.height h' p),
  )
