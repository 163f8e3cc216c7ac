-- ===== src/Nick/Names.antt =====
-- The names that src/irc/nick.cpp makes.
use minbif.Prelude.{
  ℕ, suc, ◌≤◌, ◌≡◌, refl, ap, ◌∙◌, true, false, [], ◌∷◌, ◌++◌, all, Option, none, some, arith, Text,
  codes, first, is_digit, is_empty, length, length-take-le, all-take, take, ltb, ◌==◌,
  if◌then◌else◌, Bool-cases, inl, inr, has, any-append, ◌≢◌,
}
use minbif.Nick.{
  max_length, is_nick_char, is_valid_nickname, nickize_chars, nickize, replace_spaces, new_nick,
  get_long_name,
}

underscore : is_nick_char b'_' ≡ true
unfolding is_nick_char
underscore = refl

all-nickize_chars : (s : Text) → all is_nick_char (nickize_chars s) ≡ true
unfolding nickize_chars
all-nickize_chars [] = refl
all-nickize_chars (c ∷ cs) = ground (arith, underscore, all-nickize_chars cs)

-- the last three steps of `nickize`
finish : Text → Text
finish chars =
    let led = if is_digit (first chars) then b'_' ∷ chars else chars in
    let cut = if ltb max_length (length led) then take max_length led else led in
    if is_empty cut then codes "Invalid" else cut

nickize-finish :
    (conv : Text → Option Text) (n : Text)
    → nickize conv n ≡ finish (nickize_chars (elim (conv n) [ none ↦ n | some c ↦ c ]))
unfolding nickize finish
nickize-finish conv n = refl

module _ (c : ℕ) (cs : Text) (led : is_digit c ≡ false)
    (chars : all is_nick_char (c ∷ cs) ≡ true) where
  cut_valid :
      is_valid_nickname
        (if ltb max_length (length (c ∷ cs)) then take max_length (c ∷ cs) else c ∷ cs)
      ≡ true
  unfolding is_valid_nickname
  cut_valid = elim (Bool-cases (ltb max_length (suc (length cs)))) [
    | inl e ↦
        let fits : length (take 28 cs) ≤ 28 = length-take-le 28 cs in
        let ok_chars : all is_nick_char (c ∷ take 28 cs) ≡ true =
          all-take is_nick_char 29 (c ∷ cs) chars in
        rw (e, led) (ground arith)
    | inr e ↦ rw (e, led) (rw e chars)
  ]

invalid_valid : is_valid_nickname (codes "Invalid") ≡ true
unfolding is_valid_nickname is_nick_char
invalid_valid = refl

not_empty_cut :
    (c : ℕ) (cs : Text)
    → is_empty (if ltb max_length (length (c ∷ cs)) then take max_length (c ∷ cs) else c ∷ cs)
      ≡ false
not_empty_cut c cs = ground arith

finish_valid :
    (chars : Text) → all is_nick_char chars ≡ true → is_valid_nickname (finish chars) ≡ true
unfolding finish
finish_valid [] h = invalid_valid
finish_valid (c ∷ cs) h = elim (Bool-cases (is_digit c)) [
  | inl e ↦ rw (e, not_empty_cut b'_' (c ∷ cs)) (cut_valid b'_' (c ∷ cs) refl (rw underscore h))
  | inr e ↦ rw (e, not_empty_cut c cs) (cut_valid c cs e h)
]

-- Whatever name an instant messaging account has, and whatever the transliteration makes of it,
-- `nickize` gives a nickname that `isValidNickname` takes.
pub nickize_valid :
    (conv : Text → Option Text) (n : Text) → is_valid_nickname (nickize conv n) ≡ true
nickize_valid conv n =
    rw (nickize-finish conv n)
      (finish_valid _ (all-nickize_chars (elim (conv n) [ none ↦ n | some c ↦ c ])))

space_not_nick_char : is_nick_char b' ' ≡ false
unfolding is_nick_char
space_not_nick_char = refl

nickize_chars_id : (s : Text) → all is_nick_char s ≡ true → has 0 s ≡ false → nickize_chars s ≡ s
unfolding nickize_chars
nickize_chars_id [] h z = refl
nickize_chars_id (c ∷ cs) h z =
    let rest : all is_nick_char cs ≡ true = ground arith in
    elim (Bool-cases (c == b' ')) [
      | inl e ↦
          let blank : is_nick_char c ≡ false =
            ap is_nick_char (ground arith) ∙ space_not_nick_char in
          absurd (ground arith)
      | inr e ↦
          let nul : (c == 0) ≡ false = ground arith in
          let good : is_nick_char c ≡ true = ground arith in
          rw (nul, e, good) (ap (◌∷◌ c) (nickize_chars_id cs rest (ground arith)))
    ]

finish_id : (s : Text) → is_valid_nickname s ≡ true → finish s ≡ s
unfolding finish is_valid_nickname
finish_id [] h = cc
finish_id (c ∷ cs) h =
    let led : is_digit c ≡ false = ground arith in
    let fits : ltb max_length (suc (length cs)) ≡ false = ground arith in rw (led, fits)

valid_chars : (s : Text) → is_valid_nickname s ≡ true → all is_nick_char s ≡ true
unfolding is_valid_nickname
valid_chars s h = ground arith

-- A valid nickname with no NUL byte, where transliteration leaves it alone, is its own `nickize`.
pub nickize_fixed :
    (conv : Text → Option Text) (n : Text)
    → is_valid_nickname n ≡ true
    → has 0 n ≡ false
    → conv n ≡ some n
    → nickize conv n ≡ n
nickize_fixed conv n v z e =
    rw (nickize-finish conv n) (rw e (rw (nickize_chars_id n (valid_chars n v) z) (finish_id n v)))

has-replace_spaces : (c : ℕ) (s : Text) → c ≢ b' ' → has b' ' (replace_spaces c s) ≡ false
unfolding replace_spaces
has-replace_spaces c [] h = refl
has-replace_spaces c (x ∷ s) h = ground (arith, has-replace_spaces c s h)

-- The prefix `nick!ident@host` is one word if the nickname is: what the constructor is given as
-- identname and hostname cannot break it.
pub get_long_name-spaceless :
    (nickname identname hostname realname : Text)
    → has b' ' (get_long_name (new_nick nickname identname hostname realname)) ≡ has b' ' nickname
unfolding get_long_name new_nick
get_long_name-spaceless n i h r =
    let ident = replace_spaces b'_' i in
    let host = replace_spaces b'.' h in
    let blank = λ (x : ℕ). x == b' ' in
    ground (
      arith,
      any-append blank n (b'!' ∷ (ident ++ (b'@' ∷ host))),
      any-append blank ident (b'@' ∷ host),
      has-replace_spaces b'_' i (omega arith),
      has-replace_spaces b'.' h (omega arith),
    )
