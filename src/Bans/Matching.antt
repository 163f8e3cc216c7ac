-- ===== src/Bans/Matching.antt =====
-- IRC::matchNick of src/irc/irc.cpp: the nicks that a pattern means. fnmatch is an argument.
use minbif.Prelude.{
  ◌≡◌, refl, ℕ, Bool, true, List, [], ◌∷◌, ◌++◌, Text, codes, has, any-append, if◌then◌else◌,
  Bool-cases, inl, inr, arith, ◌==◌,
}

-- the pattern with what it leaves out
unfoldable pub whole_pattern : Text → Text
whole_pattern pattern =
    if has b'!' pattern
    then (if has b'@' pattern then pattern else pattern ++ codes "@*")
    else if has b'@' pattern
    then codes "*!" ++ pattern
    else if has b':' pattern
    then codes "*!*@" ++ pattern
    else pattern ++ codes "!*@*"

module _ (fnmatch : Text → Text → Bool) (long_name : ℕ → Text) where
  unfoldable pub match_loop : Text → List (Text × ℕ) → List ℕ
  match_loop pattern [] = []
  match_loop pattern ((name, n) ∷ users) =
      let rest = match_loop pattern users in
      if fnmatch pattern (long_name n) then n ∷ rest else rest

  -- IRC::matchNick
  unfoldable pub match_nick : Text → List (Text × ℕ) → List ℕ
  unfolding match_loop whole_pattern
  match_nick pattern users = match_loop (whole_pattern pattern) users

-- fnmatch is always asked about a pattern with a ! and an @.
pub whole_pattern-has :
    (pattern : Text)
    → (has b'!' (whole_pattern pattern) ≡ true) × (has b'@' (whole_pattern pattern) ≡ true)
unfolding whole_pattern
whole_pattern-has pattern =
    let ended = any-append (λ c. c == b'@') pattern (codes "@*") in
    let banged = any-append (λ c. c == b'!') pattern (codes "@*") in
    let named = any-append (λ c. c == b'!') pattern (codes "!*@*") in
    let hosted = any-append (λ c. c == b'@') pattern (codes "!*@*") in
    elim (Bool-cases (has b'!' pattern)) [
      | inl e ↦ elim (Bool-cases (has b'@' pattern)) [
        | inl d ↦ rw e (rw d (e, d))
        | inr d ↦ rw e (rw d (ground arith, ground arith))
      ]
      | inr e ↦ elim (Bool-cases (has b'@' pattern)) [
        | inl d ↦ rw e (rw d (refl, ground arith))
        | inr d ↦ rw e (
            rw d (elim (Bool-cases (has b':' pattern)) [
              | inl c ↦ rw c (refl, refl)
              | inr c ↦ rw c (ground arith, ground arith)
            ]))
      ]
    ]
