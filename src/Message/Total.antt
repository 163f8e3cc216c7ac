-- ===== src/Message/Total.antt =====
-- `parse` of src/irc/message.cpp, to its end.
use minbif.Prelude.{
  ℕ, zero, suc, ◌<◌, ◌≡◌, refl, ◌∙◌, true, false, [], ◌∷◌, ◌++◌, arith, Text, length, codes,
  Bool-cases, inl, inr, first, ◌==◌, is_empty,
}
use minbif.Result.{Result, ok}
use minbif.Token.{stringtok}
use minbif.Token.Words.{clean, stringtok_shrinks, stringtok-clean}
use minbif.Message.{
  Message, message, add_arg, spaced_back, strupper, set_command, parse_loop, parse,
}
use minbif.Message.Args.{only_last_spaced, only_last_spaced-append}
use minbif.Message.RoundTrip.{has-clean, spaced_back-append}

is_empty-strupper : (s : Text) → is_empty (strupper s) ≡ is_empty s
unfolding strupper
is_empty-strupper [] = refl
is_empty-strupper (c ∷ cs) = refl

-- a parse that ends in a message with spaces in its last argument only
Parsed : Result Message → Type 0
Parsed r = (n : Message) × (r ≡ ok n) × (only_last_spaced n.args ≡ true)

module _ (m : Message) (open_ : spaced_back m.args ≡ false)
    (spaced : only_last_spaced m.args ≡ true) where
  Parsed-add_arg : (a : Text) → Parsed (add_arg a m)
  unfolding Parsed add_arg
  Parsed-add_arg a = (
    record m { args = m.args ++ a ∷ [] },
    rw open_,
    only_last_spaced-append m.args a spaced open_,
  )

  add_arg_clean : (a : Text) → clean (codes " ") a ≡ true → spaced_back (m.args ++ a ∷ []) ≡ false
  add_arg_clean a h = spaced_back-append m.args a ∙ ground (arith, has-clean a)

loop-Parsed :
    (f : ℕ) (line : Text) (m : Message)
    → length line < f
    → spaced_back m.args ≡ false
    → only_last_spaced m.args ≡ true
    → Parsed (parse_loop f line m)
unfolding Parsed parse_loop set_command only_last_spaced add_arg
loop-Parsed zero line m l o h = absurd (omega arith)
loop-Parsed (suc f) line m l o h =
    let s = (stringtok (codes " ") line).0 in
    let rest = (stringtok (codes " ") line).1 in
    elim (Bool-cases (is_empty s)) [
      | inl e ↦ (m, rw e, h)
      | inr e ↦
          let fits : length rest < f = omega (arith, stringtok_shrinks (codes " ") line e) in
          let c = stringtok-clean (codes " ") line in
          elim (Bool-cases (is_empty m.cmd)) [
            | inl d ↦
                rw (e, d)
                  (rw (set_command, is_empty-strupper s)
                    (rw e (loop-Parsed f rest (record m { cmd = strupper s }) fits o h)))
            | inr d ↦ elim (Bool-cases (first s == b':')) [
              | inl k ↦ rw (e, d, k) (Parsed-add_arg m o h _)
              | inr k ↦
                  rw (e, d, k)
                    (rw (add_arg, o)
                      (loop-Parsed f rest (record m { args = m.args ++ s ∷ [] }) fits
                        (add_arg_clean m o h s c) (only_last_spaced-append m.args s h o)))
            ]
          ]
    ]

-- Every line parses, with no exception, no failed assertion and no loop without end, to a message
-- in which only the last argument has a space.
pub parse_total :
    (line : Text) → (n : Message) × (parse line ≡ ok n) × (only_last_spaced n.args ≡ true)
unfolding parse Parsed
parse_total line =
    loop-Parsed (suc (length line)) line (message []) (omega arith) (unfold spaced_back in refl)
      (unfold only_last_spaced in refl)
