-- ===== src/Config/Shape.antt =====
-- Sections whose pointers lead somewhere, and downwards: those of src/core/config.cpp.
use minbif.Prelude.{
  ℕ, zero, suc, ◌≤◌, ◌<◌, ◌≡◌, refl, ap, sym, subst, ◌∙◌, inl, inr, Bool, true, false, ◌&&◌, List,
  [], ◌∷◌, ◌++◌, Option, none, some, length, length-append, get_elem?, set, all, ltb, ◌==◌, arith,
  Bool-cases,
}
use minbif.Result.{Result, ok, err, undefined, ◌>>=◌}
use minbif.Config.Tree.{Section, Heap, section_at}

-- A call returns, and what it returns is good.
pub data Ends {A : Type 0} (good : A → Type 0) : Result A → Type 0 where
  ends : (a : A) → good a → Ends good (ok a)

module _ {A B : Type 0} {good : A → Type 0} {fine : B → Type 0} where
  pub Ends-then :
      {x : Result A} {next : A → Result B}
      → Ends good x
      → ((a : A) → good a → Ends fine (next a))
      → Ends fine (x >>= next)
  Ends-then (ends a h) more = more a h

-- positions in a list
module _ {A : Type 0} where
  pub get-set : (xs : List A) (i : ℕ) (v : A) → i < length xs → get_elem? (set xs i v) i ≡ some v
  get-set [] i v h = absurd (omega arith)
  get-set (x ∷ xs) zero v h = refl
  get-set (x ∷ xs) (suc i) v h = get-set xs i v (omega arith)

  pub get-set_other :
      (xs : List A) (i j : ℕ) (v : A) → (i == j) ≡ false → get_elem? (set xs i v) j ≡ get_elem? xs j
  get-set_other [] i j v h = refl
  get-set_other (x ∷ xs) zero zero v h = cc
  get-set_other (x ∷ xs) zero (suc j) v h = refl
  get-set_other (x ∷ xs) (suc i) zero v h = refl
  get-set_other (x ∷ xs) (suc i) (suc j) v h = get-set_other xs i j v (ground (arith, h))

  pub length-set : (xs : List A) (i : ℕ) (v : A) → length (set xs i v) ≡ length xs
  length-set [] i v = refl
  length-set (x ∷ xs) zero v = refl
  length-set (x ∷ xs) (suc i) v = ap (λ n. suc n) (length-set xs i v)

  pub get-append :
      (xs ys : List A) (i : ℕ) → i < length xs → get_elem? (xs ++ ys) i ≡ get_elem? xs i
  get-append [] ys i h = absurd (omega arith)
  get-append (x ∷ xs) ys zero h = refl
  get-append (x ∷ xs) ys (suc i) h = get-append xs ys i (omega arith)

  pub get-append_end : (xs : List A) (v : A) → get_elem? (xs ++ v ∷ []) (length xs) ≡ some v
  get-append_end [] v = refl
  get-append_end (x ∷ xs) v = get-append_end xs v

  pub lt_of_get : (xs : List A) (i : ℕ) {v : A} → get_elem? xs i ≡ some v → i < length xs
  lt_of_get [] i h = cc
  lt_of_get (x ∷ xs) zero h = omega arith
  lt_of_get (x ∷ xs) (suc i) h = omega (arith, lt_of_get xs i h)

  pub get_of_lt : (xs : List A) (i : ℕ) → i < length xs → (v : A) × (get_elem? xs i ≡ some v)
  get_of_lt [] i h = absurd (omega arith)
  get_of_lt (x ∷ xs) zero h = (x, refl)
  get_of_lt (x ∷ xs) (suc i) h = get_of_lt xs i (omega arith)

some-Ends :
    (o : Option Section) (s : Section)
    → o ≡ some s
    → Ends (λ t. o ≡ some t) (elim o [ none ↦ err undefined | some t ↦ ok t ])
some-Ends none s e = cc
some-Ends (some t) s e = ends t refl

pub section_at-Ends :
    (p : ℕ) (h : Heap) → p < length h → Ends (λ s. get_elem? h p ≡ some s) (section_at p h)
unfolding section_at
section_at-Ends p h l = let (s, e) = get_of_lt h p l in some-Ends (get_elem? h p) s e

-- a parent, below a bound
abbrev pub is_below : ℕ → Option ℕ → Bool
is_below n none = true
is_below n (some p) = ltb p n

-- between two positions
abbrev pub between : ℕ → ℕ → ℕ → Bool
between i n k = ltb i k && ltb k n

-- The sections of the one at position i stand behind it and below n, and so does its parent.
abbrev pub fits : ℕ → ℕ → Section → Bool
fits n i s = all (between i n) s.sections && is_below n s.parent

-- All pointers of all sections lead to sections, and those to a section's own lead upwards.
pub record IsHeap (h : Heap) : Type 0 where
  pub all_fit : (i : ℕ) (s : Section) → get_elem? h i ≡ some s → fits (length h) i s ≡ true

pub between_mono :
    (i n m : ℕ) (ks : List ℕ) → n ≤ m → all (between i n) ks ≡ true → all (between i m) ks ≡ true
between_mono i n m [] l h = refl
between_mono i n m (k ∷ ks) l h = ground (arith, between_mono i n m ks l)

pub is_below_mono : (n m : ℕ) (o : Option ℕ) → n ≤ m → is_below n o ≡ true → is_below m o ≡ true
is_below_mono n m none l h = refl
is_below_mono n m (some p) l h = ground arith

pub fits_mono : (n m i : ℕ) (s : Section) → n ≤ m → fits n i s ≡ true → fits m i s ≡ true
fits_mono n m i s l h =
    ground (arith, between_mono i n m s.sections l, is_below_mono n m s.parent l)

pub some_inj : {A : Type 0} (x y : A) → some x ≡ some y → x ≡ y
some_inj x y e = ap (λ o. elim o [ none ↦ x | some z ↦ z ]) e

pub IsHeap-set :
    (h : Heap) (p : ℕ) (v : Section) → IsHeap h → fits (length h) p v ≡ true → IsHeap (set h p v)
IsHeap-set h p v w f = record {
  all_fit = λ i s e. elim (Bool-cases (p == i)) [
    | inl same ↦
        let q : p ≡ i = ground arith in
        let l : p < length h =
          subst (λ n. p < n) (length-set h p v)
            (lt_of_get (set h p v) p (subst (λ j. get_elem? (set h p v) j ≡ some s) (sym q) e)) in
        let v_is : v ≡ s =
          some_inj v s
            (sym (get-set h p v l) ∙ subst (λ j. get_elem? (set h p v) j ≡ some s) (sym q) e) in
        subst (λ n. fits n i s ≡ true) (sym (length-set h p v))
          (subst (λ j. fits (length h) j s ≡ true) q
            (subst (λ x. fits (length h) p x ≡ true) v_is f))
    | inr other ↦
        subst (λ n. fits n i s ≡ true) (sym (length-set h p v))
          (w.all_fit i s (sym (get-set_other h p i v other) ∙ e))
  ];
}

pub IsHeap-append :
    (h : Heap) (v : Section)
    → IsHeap h
    → fits (suc (length h)) (length h) v ≡ true
    → IsHeap (h ++ v ∷ [])
IsHeap-append h v w f = record {
  all_fit = λ i s e.
      let size : length (h ++ v ∷ []) ≡ suc (length h) = omega (arith, length-append h (v ∷ [])) in
      subst (λ m. fits m i s ≡ true) (sym size)
        (elim (Bool-cases (ltb i (length h))) [
          | inl b ↦
              let l : i < length h = ground arith in
              fits_mono (length h) (suc (length h)) i s (omega arith)
                (w.all_fit i s (sym (get-append h (v ∷ []) i l) ∙ e))
          | inr b ↦
              let l : i < suc (length h) = subst (λ m. i < m) size (lt_of_get (h ++ v ∷ []) i e) in
              let last : length h ≡ i = ground arith in
              let same : v ≡ s = some_inj v s (
                sym (get-append_end h v)
                ∙ subst (λ j. get_elem? (h ++ v ∷ []) j ≡ some s) (sym last) e) in
              subst (λ j. fits (suc (length h)) j s ≡ true) last
                (subst (λ x. fits (suc (length h)) (length h) x ≡ true) same f)
        ]);
}
