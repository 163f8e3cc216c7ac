-- ===== src/Log/Levels.antt =====
-- The names of the kinds that are logged, printed by formatLoggedFlags and read by setLoggedFlags.
use minbif.Prelude.{
  ℕ, ◌≡◌, refl, ap, sym, ◌∙◌, Bool, true, false, not, ◌&&◌, ◌||◌, List, [], ◌∷◌, ◌++◌, Option, none,
  some, Text, codes, is_empty, text_eq, all, any, arith, any-append, if◌then◌else◌, ◌==◌,
  Bool-cases, inl, inr,
}
use minbif.Bits.{Bits, bit, single, bit-or, bit-single}
use minbif.Token.{tokens}
use minbif.Token.Words.{words, words-snoc, words-clean, words-empty, clean, keep, tokens-words}
use minbif.Log.{
  Log, LogFlag, w_sno, format_flags, all_flags, format_logged_flags, find_flag, add_flag, set_loop,
  set_logged_flags,
}

abbrev blank : Text
blank = codes " "

-- the names of the kinds in the set, as they stand in the text
abbrev names : Bits → List LogFlag → List Text
names flags [] = []
names flags (e ∷ es) =
    let rest = names flags es in if bit flags e.flag then rest ++ keep e.label [] else rest

format_cases :
    (b : Bool) (s w : Text)
    → clean blank w ≡ true
    → words blank (if b then (if is_empty s then w else s ++ b' ' ∷ w) else s)
      ≡ (if b then words blank s ++ keep w [] else words blank s)
format_cases false s w h = refl
format_cases true [] w h =
    words-clean blank w h ∙ sym (ap (λ x. x ++ keep w []) (words-empty blank))
format_cases true (c ∷ s) w h = words-snoc blank (c ∷ s) b' ' w refl h

words-format_flags :
    (flags : Bits) (es : List LogFlag)
    → all (λ e. clean blank e.label) es ≡ true
    → words blank (format_flags flags es) ≡ names flags es
unfolding format_flags
words-format_flags flags [] h = words-empty blank
words-format_flags flags (e ∷ es) h =
    format_cases (bit flags e.flag) (format_flags flags es) e.label (ground arith)
    ∙ ap (λ x. if bit flags e.flag then x ++ keep e.label [] else x)
        (words-format_flags flags es (ground arith))

-- the token stands for the kind i
abbrev hits : ℕ → Text → Bool
hits i t = elim (find_flag t all_flags) [ none ↦ false | some e ↦ e.flag == i ]

any-keep : (p : Text → Bool) (w : Text) → any p (keep w []) ≡ (not (is_empty w) && p w)
any-keep p [] = refl
any-keep p (c ∷ w) = ground arith

any-names_step :
    (p : Text → Bool) (e : LogFlag) (b : Bool) (ws : List Text) {c : Bool}
    → any p ws ≡ c
    → any p (if b then ws ++ keep e.label [] else ws)
      ≡ ((b && (not (is_empty e.label) && p e.label)) || c)
any-names_step p e false ws h = h
any-names_step p e true ws h =
    any-append p ws (keep e.label []) ∙ ground (arith, h, any-keep p e.label)

-- some name of the set passes a test
any-names :
    (p : Text → Bool) (flags : Bits) (es : List LogFlag)
    → any p (names flags es)
      ≡ any (λ e. bit flags e.flag && (not (is_empty e.label) && p e.label)) es
any-names p flags [] = refl
any-names p flags (e ∷ es) =
    any-names_step p e (bit flags e.flag) (names flags es) (any-names p flags es)

bit-add_flag :
    (o : Option LogFlag) (flags : Bits) (i : ℕ)
    → bit (add_flag o flags) i ≡ (bit flags i || elim o [ none ↦ false | some e ↦ e.flag == i ])
unfolding add_flag
bit-add_flag none flags i = ground arith
bit-add_flag (some e) flags i =
    bit-or flags (single e.flag) i ∙ ap (λ b. bit flags i || b) (bit-single e.flag i)

-- what the loop leaves set, when no token is ALL
bit-set_loop :
    (ts : List Text) (flags : Bits) (i : ℕ)
    → any (λ t. text_eq t (codes "ALL")) ts ≡ false
    → bit (set_loop ts flags) i ≡ (bit flags i || any (hits i) ts)
unfolding set_loop
bit-set_loop [] flags i h = ground arith
bit-set_loop (t ∷ ts) flags i h = ground (
  arith,
  bit-set_loop ts (add_flag (find_flag t all_flags) flags) i,
  bit-add_flag (find_flag t all_flags) flags i,
)

-- the kind has a name
abbrev pub has_name : ℕ → Bool
has_name i = any (λ e. not (is_empty e.label) && (e.flag == i)) all_flags

bit_at : (flags : Bits) (k i : ℕ) → (bit flags k && (k == i)) ≡ (bit flags i && (k == i))
bit_at flags k i = elim (Bool-cases (k == i)) [
  | inl e ↦ let same : k ≡ i = ground arith in rw same refl
  | inr e ↦ ground arith
]

any_at :
    (flags : Bits) (i : ℕ) (es : List LogFlag)
    → any (λ e. bit flags e.flag && (not (is_empty e.label) && (e.flag == i))) es
      ≡ (bit flags i && any (λ e. not (is_empty e.label) && (e.flag == i)) es)
any_at flags i [] = ground arith
any_at flags i (e ∷ es) = ground (arith, bit_at flags e.flag i, any_at flags i es)

-- in the table, a name stands for its kind
table :
    (flags : Bits) (i : ℕ)
    → any (λ e. bit flags e.flag && (not (is_empty e.label) && hits i e.label)) all_flags
      ≡ any (λ e. bit flags e.flag && (not (is_empty e.label) && (e.flag == i))) all_flags
unfolding all_flags find_flag
table flags i = refl

no_all :
    (flags : Bits)
    → any
        (λ e. bit flags e.flag && (not (is_empty e.label) && text_eq e.label (codes "ALL")))
        all_flags
      ≡ false
unfolding all_flags
no_all flags = ground arith

clean_labels : all (λ e. clean blank e.label) all_flags ≡ true
unfolding all_flags
clean_labels = refl

-- Setting the kinds from the names that formatLoggedFlags gives for a set leaves those of the set
-- that have a name, and no others.
pub set_logged_flags-format_logged_flags :
    (l m : Log) (syslog : Bool) (i : ℕ)
    → bit (set_logged_flags (format_logged_flags l) syslog m).logged_flags i
      ≡ (bit l.logged_flags i && has_name i)
set_logged_flags-format_logged_flags l m syslog i =
    let flags = l.logged_flags in
    let ts : tokens blank (format_flags flags all_flags) ≡ names flags all_flags =
      tokens-words blank (format_flags flags all_flags)
      ∙ words-format_flags flags all_flags clean_labels in
    let loop =
      bit-set_loop (names flags all_flags) [] i
        (any-names (λ t. text_eq t (codes "ALL")) flags all_flags ∙ no_all flags) in
    let opened : bit (set_logged_flags (format_logged_flags l) syslog m).logged_flags i
        ≡ bit (set_loop (tokens blank (format_flags flags all_flags)) []) i =
      unfold set_logged_flags format_logged_flags in refl in
    opened
    ∙ ap (λ w. bit (set_loop w []) i) ts
    ∙ loop
    ∙ any-names (hits i) flags all_flags
    ∙ table flags i
    ∙ any_at flags i all_flags

-- A set read from names that formatLoggedFlags gives has no server notices, since they have no name.
sno_lost :
    (l m : Log) (syslog : Bool)
    → bit (set_logged_flags (format_logged_flags l) syslog m).logged_flags w_sno ≡ false
unfolding all_flags
sno_lost l m syslog = set_logged_flags-format_logged_flags l m syslog w_sno ∙ ground arith
