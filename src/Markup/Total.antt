-- ===== src/Markup/Total.antt =====
-- The loop of `irc2markup` of src/core/util.cpp.
use minbif.Prelude.{
  ℕ, zero, suc, ◌≤◌, ◌<◌, ◌≡◌, ◌⊎◌, refl, ap, sym, ◌∙◌, Bool, true, false, ◌||◌, [], ◌∷◌, ◌++◌,
  Text, first, subst, is_empty, mem, length, ◌==◌, if◌then◌else◌, arith, Bool-cases, inl, inr,
}
use minbif.Result.{ok}
use minbif.Token.{upto}
use minbif.Markup.{
  controls, Style, onward, one_digit, two_digits, background, control, markup_loop, irc2markup,
}

length-one_digit : (s : Text) → length (one_digit s).1 ≤ length s
unfolding one_digit
length-one_digit [] = omega arith
length-one_digit (c ∷ cs) = ground arith

length-two_digits : (s : Text) → length (two_digits s).1 ≤ length s
unfolding two_digits
length-two_digits s = omega (arith, length-one_digit s, length-one_digit (one_digit s).1)

length-background : (s : Text) → length (background s).1 ≤ length s
unfolding background
length-background [] = omega arith
length-background (c ∷ cs) = ground (arith, length-two_digits cs)

length-onward : (ds s : Text) → length (onward ds s) ≤ length s
unfolding onward
length-onward ds [] = omega arith
length-onward ds (c ∷ cs) = ground (arith, length-onward ds cs)

-- what strpbrk finds begins with one of the characters
onward-mem : (c : ℕ) (cs s ds : Text) → onward ds s ≡ c ∷ cs → mem c ds ≡ true
unfolding onward
onward-mem c cs [] ds e = absurd (ground (arith, e))
onward-mem c cs (x ∷ s) ds e = elim (Bool-cases (mem x ds)) [
  | inl m ↦
      let same : x ∷ s ≡ c ∷ cs = sym (unfold onward in rw m refl) ∙ e in
      subst (λ y. mem (first y) ds ≡ true) same m
  | inr m ↦ onward-mem c cs s ds (sym (unfold onward in rw m refl) ∙ e)
]

-- at most so much is left
abbrev Left : ℕ → Style × Text × Text → Type 0
Left n x = length x.2 ≤ n

branch :
    (n : ℕ) (b : Bool) (x y : Style × Text × Text)
    → Left n x
    → (b ≡ false → Left n y)
    → Left n (if b then x else y)
branch n true x y g h = g
branch n false x y g h = h refl

-- A control code is taken off.
length-control :
    (st : Style) (out : Text) (c : ℕ) (cs : Text)
    → mem c controls ≡ true
    → length (control st out (c ∷ cs)).2 ≤ length cs
unfolding control
length-control st out c cs m =
    let here : length cs ≤ length cs = omega arith in
    let coloured : length (background (two_digits cs).1).1 ≤ length cs =
      omega (arith, length-two_digits cs, length-background (two_digits cs).1) in
    branch (length cs) (c == 2) _ _ here (λ a. branch (length cs) (c == 3) _ _ coloured (λ b.
      branch (length cs) (c == 9) _ _ here (λ d. branch (length cs) (c == 31) _ _ here (λ e.
        branch (length cs) (c == 7 || c == 22) _ _ here (λ f.
          branch (length cs) (c == 15) _ _ here
            (λ g. absurd (ground (arith, m, a, b, e, f, g))))))))

text_cases : (t : Text) → (t ≡ []) ⊎ (c : ℕ) × (cs : Text) × (t ≡ c ∷ cs)
text_cases [] = inl refl
text_cases (c ∷ cs) = inr (c, cs, refl)

control_shorter :
    (st : Style) (out cur : Text)
    → is_empty (control st out (onward controls cur)).2 ≡ false
    → length (control st out (onward controls cur)).2 < length cur
control_shorter st out cur e = elim (text_cases (onward controls cur)) [
  | inl n ↦
      let none_left : is_empty (control st out []).2 ≡ true = unfold control in refl in
      absurd (ground (arith, none_left, sym (ap (λ t. is_empty (control st out t).2) n) ∙ e))
  | inr (c, cs, n) ↦
      let whole : length (c ∷ cs) ≤ length cur =
        subst (λ t. length t ≤ length cur) n (length-onward controls cur) in
      let taken : length (control st out (onward controls cur)).2 ≤ length cs =
        subst (λ t. length (control st out t).2 ≤ length cs) (sym n)
          (length-control st out c cs (onward-mem c cs cur controls n)) in
      omega (arith, whole, taken)
]

markup_loop_total :
    (f : ℕ) (escape : Text → Text) (st : Style) (out cur : Text)
    → length cur < f
    → (decoded : Text) × (markup_loop f escape st out cur ≡ ok decoded)
unfolding markup_loop
markup_loop_total zero escape st out cur h = absurd (omega arith)
markup_loop_total (suc f) escape st out cur h =
    let x = control st (out ++ escape (upto controls cur)) (onward controls cur) in
    elim (Bool-cases (is_empty x.2)) [
      | inl e ↦ (x.1, rw e refl)
      | inr e ↦
          let (decoded, r) =
            markup_loop_total f escape x.0 x.1 x.2
              (omega (arith, h, control_shorter st (out ++ escape (upto controls cur)) cur e)) in
          (decoded, rw e r)
    ]

-- Whatever the text is, irc2markup ends, and gives a text.
pub irc2markup_total :
    (escape : Text → Text) (s : Text) → (decoded : Text) × (irc2markup escape s ≡ ok decoded)
unfolding irc2markup
irc2markup_total escape s =
    markup_loop_total (suc (length s)) escape
      (record { font = false; bold = false; underline = false; italic = false }) [] s (omega arith)
