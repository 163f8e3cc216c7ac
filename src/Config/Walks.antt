-- ===== src/Config/Walks.antt =====
-- Clean and FindEmpty of src/core/config.cpp, on sections whose pointers lead downwards.
use minbif.Prelude.{
  ℕ, zero, suc, ◌+◌, ◌<◌, ◌≡◌, refl, ap, sym, subst, ◌∙◌, Bool, true, false, not, ◌&&◌, List, [],
  ◌∷◌, Option, none, some, length, get_elem?, set, all, any, arith, ◌==◌, Bool-cases, inl, inr,
  if◌then◌else◌,
}
use minbif.Result.{Result}
use minbif.Config.{find_empty}
use minbif.Config.Tree.{
  Section, Heap, Loader, clean_all, clean_section, misses, find_all, find_empty_section,
  is_multiple, is_optional,
}
use minbif.Config.Shape.{
  Ends, ends, Ends-then, section_at-Ends, between, fits, IsHeap, IsHeap-set, length-set, get-set,
  get-set_other, lt_of_get, get-set, get-set_other, lt_of_get,
}

-- a test by cases
pub if-Ends :
    {A : Type 0} {good : A → Type 0} (b : Bool) {x y : Result A}
    → Ends good x
    → Ends good y
    → Ends good (if b then x else y)
if-Ends true l r = l
if-Ends false l r = r

-- the section at a position misses
abbrev pub missing : Heap → ℕ → Bool
missing h k = elim (get_elem? h k) [ none ↦ false | some s ↦ misses s ]

abbrev status : Option Section → Bool
status o = elim o [ none ↦ false | some s ↦ misses s ]

missing_at : (h : Heap) (k : ℕ) (s : Section) → get_elem? h k ≡ some s → missing h k ≡ misses s
missing_at h k s e = ap status e

-- the same sections miss
abbrev pub SameMissing : Heap → Heap → Type 0
SameMissing h g = (k : ℕ) → missing g k ≡ missing h k

any_same : (h g : Heap) → SameMissing h g → (ks : List ℕ) → any (missing g) ks ≡ any (missing h) ks
any_same h g m [] = refl
any_same h g m (k ∷ ks) = ground (arith, m k, any_same h g m ks)

SameMissing-set :
    (h : Heap) (p : ℕ) (s v : Section)
    → get_elem? h p ≡ some s
    → misses v ≡ misses s
    → SameMissing h (set h p v)
SameMissing-set h p s v e f k = elim (Bool-cases (p == k)) [
  | inl same ↦
      let q : p ≡ k = ground arith in
      subst (λ j. missing (set h p v) j ≡ missing h j) q
        (ap status (get-set h p v (lt_of_get h p e)) ∙ f ∙ sym (ap status e))
  | inr other ↦ ap status (get-set_other h p k v other)
]

-- a test by cases that know it
split-Ends :
    {A : Type 0} {good : A → Type 0} (b : Bool) {x y : Result A}
    → (b ≡ true → Ends good x)
    → (b ≡ false → Ends good y)
    → Ends good (if b then x else y)
split-Ends true l r = l refl
split-Ends false l r = r refl

Ends-mono :
    {A : Type 0} {good fine : A → Type 0} {x : Result A}
    → Ends good x
    → ((a : A) → good a → fine a)
    → Ends fine x
Ends-mono (ends a h) more = ends a (more a h)

module _ (n : ℕ) where
  -- well-formed sections, as many as before
  abbrev pub Kept : Heap → Type 0
  Kept h = IsHeap h × (length h ≡ n)

  pub Kept-set :
      (h : Heap) (p : ℕ) (s v : Section)
      → get_elem? h p ≡ some s
      → fits n p v ≡ true
      → Kept h
      → Kept (set h p v)
  Kept-set h p s v e f (w, l) =
      (IsHeap-set h p v w (subst (λ m. fits m p v ≡ true) (sym l) f), length-set h p v ∙ l)

  pub fits_of :
      (h : Heap) (p : ℕ) (s : Section) → Kept h → get_elem? h p ≡ some s → fits n p s ≡ true
  fits_of h p s (w, l) e = subst (λ m. fits m p s ≡ true) l (w.all_fit p s e)

  -- a walk over sections that a test takes, which stand below n
  module _ (q : ℕ → Bool) (below : (k : ℕ) → q k ≡ true → k < n) where
    pub clean_all-Ends :
        (f : ℕ → Heap → Result Heap)
        → ((k : ℕ) (h : Heap) → q k ≡ true → Kept h → Ends Kept (f k h))
        → (ks : List ℕ) (h : Heap) → all q ks ≡ true
        → Kept h
        → Ends (λ (r : List ℕ × Heap). (all q r.0 ≡ true) × Kept r.1) (clean_all f ks h)
    unfolding clean_all
    clean_all-Ends f step [] h a w = ends ([], h) (refl, w)
    clean_all-Ends f step (k ∷ ks) h a w =
        let first : q k ≡ true = ground arith in
        let others : all q ks ≡ true = ground arith in
        Ends-then (section_at-Ends k h (subst (λ m. k < m) (sym w.1) (below k first))) λ s e.
          if-Ends s.copy (clean_all-Ends f step ks h others w) (
            Ends-then
              (step k (set h k (record s { found = false })) first
                (Kept-set h k s (record s { found = false }) e (fits_of h k s w e) w))
              λ g u.
                Ends-then (clean_all-Ends f step ks g others u)
                  λ r v. ends (k ∷ r.0, r.1) (ground (arith, first, v.0), v.1))

    -- FindEmpty over a map tells whether a section of it misses, and changes that of none
    abbrev pub Found : List ℕ → Heap → Bool × Heap → Type 0
    Found ks h r = (r.0 ≡ any (missing h) ks) × Kept r.1 × SameMissing h r.1

    Found-missing :
        (k : ℕ) (ks : List ℕ) (h : Heap) (s : Section) (r : Bool × Heap)
        → get_elem? h k ≡ some s
        → misses s ≡ true
        → Found ks h r
        → Found (k ∷ ks) h (true, r.1)
    Found-missing k ks h s r e m (b, w, u) = (ground (arith, missing_at h k s e, m), w, u)

    Found-there :
        (k : ℕ) (ks : List ℕ) (h g : Heap) (s : Section) (r : Bool × Heap)
        → get_elem? h k ≡ some s
        → misses s ≡ false
        → SameMissing h g
        → Found ks g r
        → Found (k ∷ ks) h r
    Found-there k ks h g s r e m v (b, w, u) =
        (b ∙ any_same h g v ks ∙ ground (arith, missing_at h k s e, m), w, λ j. u j ∙ v j)

    pub find_all-Ends :
        (f : ℕ → Heap → Result (Bool × Heap))
        → ((k : ℕ) (h : Heap)
            → q k ≡ true
            → Kept h
            → Ends (λ (r : Bool × Heap). Kept r.1 × SameMissing h r.1) (f k h))
        → (ks : List ℕ) (h : Heap) → all q ks ≡ true
        → Kept h
        → Ends (Found ks h) (find_all f ks h)
    unfolding find_all
    find_all-Ends f step [] h a w = ends (false, h) (refl, w, λ k. refl)
    find_all-Ends f step (k ∷ ks) h a w =
        let first : q k ≡ true = ground arith in
        let others : all q ks ≡ true = ground arith in
        Ends-then (section_at-Ends k h (subst (λ m. k < m) (sym w.1) (below k first))) λ s e.
          split-Ends (misses s)
            (λ m.
              Ends-then (find_all-Ends f step ks h others w)
                λ r v. ends (true, r.1) (Found-missing k ks h s r e m v))
            (λ m. Ends-then (step k h first w) λ x y.
              Ends-mono (find_all-Ends f step ks x.1 others y.0)
                λ r v. Found-there k ks h x.1 s r e m y.1 v)

  below_of_between : (i k : ℕ) → between i n k ≡ true → k < n
  below_of_between i k h = ground arith

  pub clean_section-Ends :
      (fuel p : ℕ) (h : Heap) → n < fuel + p → p < n → Kept h → Ends Kept (clean_section fuel p h)
  unfolding clean_section
  clean_section-Ends zero p h l b w = absurd (omega arith)
  clean_section-Ends (suc fuel) p h l b w =
      Ends-then (section_at-Ends p h (subst (λ m. p < m) (sym w.1) b)) λ s e.
        Ends-then
          (clean_all-Ends (between p n) (below_of_between p) (clean_section fuel)
            (λ k g t u. clean_section-Ends fuel k g (ground (arith, t)) (below_of_between p k t) u)
            s.sections h (ground (arith, fits_of h p s w e)) w)
          λ r v.
            Ends-then (section_at-Ends p r.1 (subst (λ m. p < m) (sym v.1.1) b))
              λ o d. ends _ (Kept-set r.1 p o _ d (ground (arith, v.0, fits_of r.1 p o v.1 d)) v.1)

  pub find_empty_section-Ends :
      (e : Loader) (fuel p : ℕ) (h : Heap)
      → n < fuel + p
      → p < n
      → Kept h
      → Ends (λ (r : Bool × Heap). Kept r.1 × SameMissing h r.1) (find_empty_section e fuel p h)
  unfolding find_empty_section misses is_optional
  find_empty_section-Ends e zero p h l b w = absurd (omega arith)
  find_empty_section-Ends e (suc fuel) p h l b w =
      Ends-then (section_at-Ends p h (subst (λ m. p < m) (sym w.1) b)) λ s d.
        let v = record s { items = (find_empty e.streams s.found s.items).1 } in
        if-Ends (is_multiple s && not s.copy) (ends (true, h) (w, λ k. refl)) (
          Ends-then
            (find_all-Ends (between p n) (below_of_between p) (find_empty_section e fuel)
              (λ k g t u.
                find_empty_section-Ends e fuel k g (ground (arith, t)) (below_of_between p k t) u)
              s.sections (set h p v) (ground (arith, fits_of h p s w d))
              (Kept-set h p s v d (fits_of h p s w d) w))
            λ r y. ends _ (y.1, λ k. y.2 k ∙ SameMissing-set h p s v d refl k))
