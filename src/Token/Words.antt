-- ===== src/Token/Words.antt =====
-- The loop over `stringtok` of src/core/util.cpp, and the words between delimiters.
use minbif.Prelude.{
  ℕ, zero, suc, ◌≤◌, ◌<◌, ◌≡◌, refl, ap, sym, ◌∙◌, Bool, true, false, List, [], ◌∷◌, arith, Text,
  mem, length, is_empty, not, all, ◌++◌, append-nil, if◌then◌else◌, Bool-cases, inl, inr,
}
use minbif.Token.{skip, upto, behind, stringtok, tokens_fuel, tokens}

abbrev cons_first : ℕ → List Text → List Text
cons_first c [] = (c ∷ []) ∷ []
cons_first c (w ∷ ws) = (c ∷ w) ∷ ws

-- The pieces between delimiters, the empty ones included.
split : Text → Text → List Text
split ds [] = [] ∷ []
split ds (c ∷ cs) = let rest = split ds cs in if mem c ds then [] ∷ rest else cons_first c rest

abbrev pub keep : Text → List Text → List Text
keep w ws = if is_empty w then ws else w ∷ ws

abbrev non_empty : List Text → List Text
non_empty [] = []
non_empty (w ∷ ws) = keep w (non_empty ws)

-- The pieces that are not empty.
unfoldable pub words : Text → Text → List Text
unfolding split
words ds s = non_empty (split ds s)

split_cases :
    (ds t : Text)
    → (r : List Text) × (split ds t ≡ upto ds t ∷ r) × (non_empty r ≡ words ds (behind ds t))
unfolding words upto behind
split_cases ds [] = ([], refl, refl)
split_cases ds (c ∷ cs) = elim (Bool-cases (mem c ds)) [
  | inl e ↦ (split ds cs, rw e, rw e)
  | inr e ↦ let (r, p, q) = split_cases ds cs in (r, rw e (ap (cons_first c) p), rw e q)
]

-- the first word, if there is one, and then the words behind it
pub words-step : (ds t : Text) → words ds t ≡ keep (upto ds t) (words ds (behind ds t))
words-step ds t =
    let (r, p, q) = split_cases ds t in unfold words in (ap non_empty p ∙ ap (keep (upto ds t)) q)

words-skip : (ds s : Text) → words ds (skip ds s) ≡ words ds s
unfolding skip
words-skip ds [] = refl
words-skip ds (c ∷ cs) = elim (Bool-cases (mem c ds)) [
  | inl e ↦ rw e (words-skip ds cs ∙ (unfold words in rw e))
  | inr e ↦ rw e
]

-- what `skip` leaves begins with a word
upto-skip : (ds s : Text) → is_empty (upto ds (skip ds s)) ≡ true → skip ds s ≡ []
unfolding skip upto
upto-skip ds [] h = refl
upto-skip ds (c ∷ cs) h = ground (arith, upto-skip ds cs)

length-skip : (ds s : Text) → length (skip ds s) ≤ length s
unfolding skip
length-skip ds [] = omega arith
length-skip ds (c ∷ cs) = ground (arith, length-skip ds cs)

length-behind : (ds s : Text) → length (behind ds s) ≤ length s
unfolding behind
length-behind ds [] = omega arith
length-behind ds (c ∷ cs) = ground (arith, length-behind ds cs)

length-behind-lt : (ds s : Text) → is_empty s ≡ false → length (behind ds s) < length s
unfolding behind
length-behind-lt ds [] h = cc
length-behind-lt ds (c ∷ cs) h = ground (arith, length-behind ds cs)

not_empty_skip : (ds s : Text) → is_empty (upto ds s) ≡ false → is_empty s ≡ false
unfolding upto
not_empty_skip ds [] h = h
not_empty_skip ds (c ∷ cs) h = refl

-- The loop's first round, and the words, when a token is there and when none is.
module _ (ds s : Text) where
  tokens_fuel_none : (f : ℕ) → upto ds (skip ds s) ≡ [] → tokens_fuel (suc f) ds s ≡ []
  unfolding tokens_fuel stringtok
  tokens_fuel_none f e = rw e

  tokens_fuel_more :
      (f : ℕ)
      → is_empty (upto ds (skip ds s)) ≡ false
      → tokens_fuel (suc f) ds s ≡ upto ds (skip ds s) ∷ tokens_fuel f ds (behind ds (skip ds s))
  unfolding tokens_fuel stringtok
  tokens_fuel_more f e = rw e

  words_none : is_empty (upto ds (skip ds s)) ≡ true → words ds s ≡ []
  words_none e = sym (words-skip ds s) ∙ ap (words ds) (upto-skip ds s e) ∙ (unfold words in refl)

  words_more :
      is_empty (upto ds (skip ds s)) ≡ false
      → words ds s ≡ upto ds (skip ds s) ∷ words ds (behind ds (skip ds s))
  words_more e = sym (words-skip ds s) ∙ words-step ds (skip ds s) ∙ rw e

empty_eq_nil : (s : Text) → is_empty s ≡ true → s ≡ []
empty_eq_nil [] h = refl
empty_eq_nil (c ∷ cs) h = cc

tokens_fuel-words : (f : ℕ) (ds s : Text) → length s < f → tokens_fuel f ds s ≡ words ds s
tokens_fuel-words zero ds s h = absurd (omega arith)
tokens_fuel-words (suc f) ds s h = elim (Bool-cases (is_empty (upto ds (skip ds s)))) [
  | inl e ↦ tokens_fuel_none ds s f (empty_eq_nil _ e) ∙ sym (words_none ds s e)
  | inr e ↦
      let t = skip ds s in
      let shorter =
        tokens_fuel-words f ds (behind ds t)
          (omega (arith, length-skip ds s, length-behind-lt ds t (not_empty_skip ds t e))) in
      tokens_fuel_more ds s f e ∙ ap (◌∷◌ (upto ds t)) shorter ∙ sym (words_more ds s e)
]

-- Taking tokens with `stringtok` until one comes out empty gives the pieces of the text between
-- delimiters, the empty ones left out, in order and to the end of the text.
pub tokens-words : (ds s : Text) → tokens ds s ≡ words ds s
unfolding tokens
tokens-words ds s = tokens_fuel-words (suc (length s)) ds s (omega arith)

-- The first token of a text that begins with a clean word: the word, and what follows the
-- delimiter behind it.
abbrev pub clean : Text → Text → Bool
clean ds w = all (λ c. not (mem c ds)) w

module _ (ds : Text) where
  pub upto-clean : (w : Text) → clean ds w ≡ true → upto ds w ≡ w
  unfolding upto
  upto-clean [] h = refl
  upto-clean (c ∷ cs) h = ground (arith, upto-clean cs)

  pub behind-clean : (w : Text) → clean ds w ≡ true → behind ds w ≡ []
  unfolding behind
  behind-clean [] h = refl
  behind-clean (c ∷ cs) h = ground (arith, behind-clean cs)

  skip-clean :
      (w rest : Text) → clean ds w ≡ true → is_empty w ≡ false → skip ds (w ++ rest) ≡ w ++ rest
  unfolding skip
  skip-clean [] rest h e = cc
  skip-clean (c ∷ cs) rest h e = ground arith

  upto-append :
      (w : Text) (d : ℕ) (rest : Text)
      → clean ds w ≡ true
      → mem d ds ≡ true
      → upto ds (w ++ d ∷ rest) ≡ w
  unfolding upto
  upto-append [] d rest h e = rw e
  upto-append (c ∷ cs) d rest h e = ground (arith, upto-append cs d rest)

  behind-append :
      (w : Text) (d : ℕ) (rest : Text)
      → clean ds w ≡ true
      → mem d ds ≡ true
      → behind ds (w ++ d ∷ rest) ≡ rest
  unfolding behind
  behind-append [] d rest h e = rw e
  behind-append (c ∷ cs) d rest h e = ground (arith, behind-append cs d rest)

  pub stringtok_word :
      (w : Text) → clean ds w ≡ true → is_empty w ≡ false → stringtok ds w ≡ (w, [])
  unfolding stringtok
  stringtok_word w h e =
      let whole : skip ds w ≡ w = rw append-nil at (skip-clean w [] h e) in
      rw (whole, upto-clean w h, behind-clean w h)

  pub stringtok-append :
      (w : Text) (d : ℕ) (rest : Text)
      → clean ds w ≡ true
      → is_empty w ≡ false
      → mem d ds ≡ true
      → stringtok ds (w ++ d ∷ rest) ≡ (w, rest)
  unfolding stringtok
  stringtok-append w d rest h e k =
      rw (skip-clean w (d ∷ rest) h e) (rw (upto-append w d rest h k, behind-append w d rest h k))

  pub clean-upto : (s : Text) → clean ds (upto ds s) ≡ true
  unfolding upto
  clean-upto [] = refl
  clean-upto (c ∷ cs) = ground (arith, clean-upto cs)

  -- every round of the loop leaves a shorter text
  pub stringtok_shrinks :
      (s : Text) → is_empty (stringtok ds s).0 ≡ false → length (stringtok ds s).1 < length s
  unfolding stringtok
  stringtok_shrinks s e =
      omega
        (arith, length-skip ds s, length-behind-lt ds (skip ds s) (not_empty_skip ds (skip ds s) e))

  pub stringtok-clean : (s : Text) → clean ds (stringtok ds s).0 ≡ true
  unfolding stringtok
  stringtok-clean s = clean-upto (skip ds s)

  pub words-append :
      (w : Text) (d : ℕ) (rest : Text)
      → clean ds w ≡ true
      → is_empty w ≡ false
      → mem d ds ≡ true
      → words ds (w ++ d ∷ rest) ≡ w ∷ words ds rest
  words-append w d rest h e k =
      words-step ds (w ++ d ∷ rest) ∙ rw (upto-append w d rest h k, behind-append w d rest h k, e)

  -- a delimiter at the front is passed over
  pub words-delimiter :
      (d : ℕ) (rest : Text) → mem d ds ≡ true → words ds (d ∷ rest) ≡ words ds rest
  unfolding words
  words-delimiter d rest k = rw k

pub words-nil : (ds : Text) → words ds [] ≡ []
unfolding words
words-nil ds = refl

-- words around a delimiter in the middle
split-append :
    (ds s : Text) (d : ℕ) (t : Text)
    → mem d ds ≡ true
    → split ds (s ++ d ∷ t) ≡ split ds s ++ split ds t
unfolding split
split-append ds [] d t h = rw h
split-append ds (c ∷ cs) d t h =
    let ih = split-append ds cs d t h in
    elim (Bool-cases (mem c ds)) [
      | inl e ↦ rw e (ap (◌∷◌ []) ih)
      | inr e ↦ let (r, p, q) = split_cases ds cs in rw e (ap (cons_first c) ih ∙ rw p)
    ]

non_empty-append : (xs ys : List Text) → non_empty (xs ++ ys) ≡ non_empty xs ++ non_empty ys
non_empty-append [] ys = refl
non_empty-append ([] ∷ xs) ys = non_empty-append xs ys
non_empty-append ((c ∷ w) ∷ xs) ys = ap (◌∷◌ (c ∷ w)) (non_empty-append xs ys)

module _ (ds : Text) where
  pub words-empty : words ds [] ≡ []
  unfolding words
  words-empty = unfold split in refl

  pub words-clean : (w : Text) → clean ds w ≡ true → words ds w ≡ keep w []
  words-clean w h =
      words-step ds w ∙ rw (upto-clean ds w h, behind-clean ds w h) (ap (keep w) words-empty)

  pub words-snoc :
      (s : Text) (d : ℕ) (w : Text)
      → mem d ds ≡ true
      → clean ds w ≡ true
      → words ds (s ++ d ∷ w) ≡ words ds s ++ keep w []
  words-snoc s d w h k =
      let parts : words ds (s ++ d ∷ w) ≡ words ds s ++ words ds w =
        unfold words in
        (ap non_empty (split-append ds s d w h) ∙ non_empty-append (split ds s) (split ds w)) in
      parts ∙ ap (λ x. words ds s ++ x) (words-clean w k)
