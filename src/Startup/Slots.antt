-- ===== src/Startup/Slots.antt =====
-- `clusterSlotsByHostname` of cmd/server/main.go. What a seed answers to CLUSTER NODES is an
-- argument, `none` for an error; `strconv.Atoi` with its error dropped is a parameter.
use chat_back.Prelude.{
  ℕ, zero, suc, collect, Bool, not, List, [], ◌∷◌, ◌++◌, Option, none, some, ◌||◌, if◌then◌else◌,
  is_some, ltb, length, All, ◌≡◌, ◌⊎◌, inl, inr, Option-cases, arith,
}
use chat_back.Text.{Text, is_empty, is_space, trim_space}
use chat_back.Text.Split.{codes, split, cut, strip_prefix}

-- `strings.Contains`
abbrev has_infix : Text → Text → Bool
has_infix p [] = is_some (strip_prefix p [])
has_infix p (c ∷ s) = let rest = has_infix p s in is_some (strip_prefix p (c ∷ s)) || rest

-- A word so far, in front of the words to come.
abbrev word : Text → List Text → List Text
word [] ws = ws
word (c ∷ w) ws = (c ∷ w) ∷ ws

-- The first word of a text, which may be empty, and those after it.
abbrev first_word : Text → Text × List Text
first_word [] = ([], [])
first_word (c ∷ s) =
    let (w, ws) = first_word s in if is_space c then ([], word w ws) else (c ∷ w, ws)

-- `strings.Fields`
unfoldable pub fields : Text → List Text
unfolding is_space
fields s = let (w, ws) = first_word s in word w ws

abbrev drop : ℕ → List Text → List Text
drop zero ws = ws
drop (suc n) [] = []
drop (suc n) (w ∷ ws) = drop n ws

pub record ClusterSlot (Int : Type 0) : Type 0 where
  pub start : Int
  pub end : Int
  pub addr : Text

module _ {Int : Type 0} (atoi : Text → Int) where
  -- `none` for a slot that is being moved.
  unfoldable pub parse_range : Text → Text → Option (ClusterSlot Int)
  unfolding strip_prefix cut
  parse_range addr sr = if is_some (strip_prefix (b'[' ∷ []) sr) then none else elim (cut b'-' sr) [
    | none ↦ some (record { start = atoi sr; end = atoi sr; addr = addr })
    | some (first, last) ↦ some (record { start = atoi first; end = atoi last; addr = addr })
  ]

  -- The slots of a node's line; `none` for a line that is passed over.
  unfoldable pub parse_line : Text → Text → Option (List (ClusterSlot Int))
  unfolding trim_space fields parse_range
  parse_line addr line =
      let trimmed = trim_space line in
      let parts = fields trimmed in
      if is_empty trimmed || not (has_infix (codes "myself") trimmed)
      then none
      else if ltb (length parts) 9
      then none
      else some (collect (parse_range addr) (drop 8 parts))

  -- Up to the first line that is not passed over.
  unfoldable pub parse_lines : Text → List Text → List (ClusterSlot Int)
  unfolding parse_line
  parse_lines addr [] = []
  parse_lines addr (line ∷ lines) =
      let rest = parse_lines addr lines in
      elim (parse_line addr line) [ none ↦ rest | some slots ↦ slots ]

  unfoldable pub all_slots : List (Text × Option Text) → List (ClusterSlot Int)
  unfolding parse_lines split
  all_slots [] = []
  all_slots ((addr, none) ∷ seeds) = all_slots seeds
  all_slots ((addr, some nodes) ∷ seeds) = parse_lines addr (split b'\n' nodes) ++ all_slots seeds

  -- `none` is the error that no slot was found.
  unfoldable pub cluster_slots : List (Text × Option Text) → Option (List (ClusterSlot Int))
  unfolding all_slots
  cluster_slots seeds = elim (all_slots seeds) [ [] ↦ none | s ∷ slots ↦ some (s ∷ slots) ]

module _ {A B : Type 0} (f : A → Option B) (P : B → Type 0) where
  All-collect : (xs : List A) → ((x : A) (y : B) → f x ≡ some y → P y) → All P (collect f xs)
  All-collect [] h = tt
  All-collect (x ∷ xs) h = elim (Option-cases (f x)) [
    | inl dropped ↦ ground (arith, All-collect xs h)
    | inr (y, e) ↦ ground (arith, h x y e, All-collect xs h)
  ]

module _ {A : Type 0} (P : A → Type 0) where
  All-append : (xs ys : List A) → All P xs → All P ys → All P (xs ++ ys)
  All-append [] ys h h' = h'
  All-append (x ∷ xs) ys (px, ps) h' = (px, All-append xs ys ps h')

  All-widen : (Q : A → Type 0) (xs : List A) → ((x : A) → P x → Q x) → All P xs → All Q xs
  All-widen Q [] w h = tt
  All-widen Q (x ∷ xs) w (px, ps) = (w x px, All-widen Q xs w ps)

module _ {Int : Type 0} (atoi : Text → Int) where
  parse_range-addr :
      (addr sr : Text) (s : ClusterSlot Int) → parse_range atoi addr sr ≡ some s → s.addr ≡ addr
  unfolding parse_range
  parse_range-addr addr sr s e = ground arith

  parse_line-addr :
      (addr line : Text) (slots : List (ClusterSlot Int))
      → parse_line atoi addr line ≡ some slots
      → All (λ (s : ClusterSlot Int). s.addr ≡ addr) slots
  unfolding parse_line
  parse_line-addr addr line slots e =
      let found =
        All-collect (parse_range atoi addr) (λ (s : ClusterSlot Int). s.addr ≡ addr)
          (drop 8 (fields (trim_space line))) (parse_range-addr addr) in
      let same : slots ≡ collect (parse_range atoi addr) (drop 8 (fields (trim_space line))) =
        ground arith in
      rw same found

  parse_lines-addr :
      (addr : Text) (lines : List Text)
      → All (λ (s : ClusterSlot Int). s.addr ≡ addr) (parse_lines atoi addr lines)
  unfolding parse_lines
  parse_lines-addr addr [] = tt
  parse_lines-addr addr (line ∷ lines) = elim (Option-cases (parse_line atoi addr line)) [
    | inl passed ↦ rw (parse_lines, passed) (parse_lines-addr addr lines)
    | inr (slots, e) ↦ rw (parse_lines, e) (parse_line-addr addr line slots e)
  ]

  -- A seed that answered.
  abbrev pub IsSeed : Text → List (Text × Option Text) → Type 0
  IsSeed addr [] = ⊥
  IsSeed addr ((a, _) ∷ seeds) = (addr ≡ a) ⊎ IsSeed addr seeds

  -- Whatever the nodes answer, a slot is asked for at the name of a seed, never at the address that
  -- the cluster gives.
  pub all_slots_addr :
      (seeds : List (Text × Option Text))
      → All (λ (s : ClusterSlot Int). IsSeed s.addr seeds) (all_slots atoi seeds)
  unfolding all_slots
  all_slots_addr [] = tt
  all_slots_addr ((addr, none) ∷ seeds) =
      All-widen (λ (s : ClusterSlot Int). IsSeed s.addr seeds)
        (λ s. IsSeed s.addr ((addr, none) ∷ seeds)) (all_slots atoi seeds) (λ s i. inr i)
        (all_slots_addr seeds)
  all_slots_addr ((addr, some nodes) ∷ seeds) =
      All-append (λ (s : ClusterSlot Int). IsSeed s.addr ((addr, some nodes) ∷ seeds))
        (parse_lines atoi addr (split b'\n' nodes)) (all_slots atoi seeds)
        (All-widen (λ (s : ClusterSlot Int). s.addr ≡ addr)
          (λ s. IsSeed s.addr ((addr, some nodes) ∷ seeds))
          (parse_lines atoi addr (split b'\n' nodes)) (λ s e. inl e)
          (parse_lines-addr addr (split b'\n' nodes)))
        (All-widen (λ (s : ClusterSlot Int). IsSeed s.addr seeds)
          (λ s. IsSeed s.addr ((addr, some nodes) ∷ seeds)) (all_slots atoi seeds) (λ s i. inr i)
          (all_slots_addr seeds))
