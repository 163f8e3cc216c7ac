-- ===== src/Message/RoundTrip.antt =====
-- `format` and then `parse` of src/irc/message.cpp.
use minbif.Prelude.{
  ℕ, zero, suc, ◌<◌, ◌≤◌, ◌≡◌, refl, ap, ◌∙◌, Bool, true, false, List, [], ◌∷◌, ◌++◌, append-nil,
  append_assoc, arith, Text, last?-append, has, length, codes, ◌&&◌, ◌||◌, not, if◌then◌else◌,
  Bool-cases, inl, inr, first, ◌==◌, is_empty, length-append,
}
use minbif.Result.{ok}
use minbif.Token.{stringtok, skip, behind, upto}
use minbif.Token.Words.{clean, upto-clean, stringtok_word, stringtok-append}
use minbif.Message.{
  Message, message, add_arg, spaced_back, needs_colon, format_args, strupper, set_command,
  parse_loop, parse,
}

abbrev space : Text
space = codes " "

-- An argument that can stand before others.
unfoldable pub is_middle : Text → Bool
is_middle a = not (is_empty a) && (clean (codes " ") a && not (first a == b':'))

-- An argument that can stand last: if it has a space, something follows the first one.
unfoldable pub is_trailing : Text → Bool
is_trailing a = not (is_empty a) && (clean (codes " ") a || not (is_empty (behind (codes " ") a)))

unfoldable pub plain_args : List Text → Bool
unfolding is_middle is_trailing
plain_args [] = true
plain_args (a ∷ []) = is_trailing a
plain_args (a ∷ b ∷ args) = is_middle a && plain_args (b ∷ args)

-- A message with no sender and no receiver, as clients and processes send them.
abbrev pub plain : Text → List Text → Message
plain c args = record (message c) { args = args }

-- what stands behind the space in front of the first argument
args_body : List Text → Text
args_body [] = []
args_body (a ∷ args) = (if needs_colon a then b':' ∷ [] else []) ++ (a ++ format_args args)

pub has-clean : (a : Text) → has b' ' a ≡ not (clean space a)
has-clean [] = refl
has-clean (c ∷ cs) = ground (arith, has-clean cs)

stringtok-format_args :
    (w : Text) (args : List Text)
    → clean space w ≡ true
    → is_empty w ≡ false
    → stringtok space (w ++ format_args args) ≡ (w, args_body args)
unfolding format_args args_body
stringtok-format_args w [] h e = rw append-nil (stringtok_word space w h e)
stringtok-format_args w (a ∷ args) h e = stringtok-append space w b' ' _ h e refl

-- the token of a text that begins with a clean byte and has a space, and the join that restores it
upto-behind :
    (a : Text) → is_empty (behind space a) ≡ false → upto space a ++ b' ' ∷ behind space a ≡ a
unfolding upto behind
upto-behind [] h = cc
upto-behind (c ∷ cs) h = ground (arith, upto-behind cs)

stringtok_colon : (a : Text) → stringtok space (b':' ∷ a) ≡ (b':' ∷ upto space a, behind space a)
unfolding stringtok skip upto behind
stringtok_colon a = refl

-- the text that `parse` makes of a colon argument
joined : Text → Text
joined a = upto space a ++ (if is_empty (behind space a) then [] else b' ' ∷ behind space a)

joined_trailing : (a : Text) → is_trailing a ≡ true → joined a ≡ a
unfolding joined is_trailing
joined_trailing a h = elim (Bool-cases (is_empty (behind space a))) [
  | inl e ↦
      let c : clean space a ≡ true = ground arith in rw e (rw append-nil (upto-clean space a c))
  | inr e ↦ rw e (upto-behind a e)
]

pub spaced_back-append : (args : List Text) (a : Text) → spaced_back (args ++ a ∷ []) ≡ has b' ' a
unfolding spaced_back
spaced_back-append args a = rw (last?-append args a, spaced_back)

module _ (m : Message) (f : ℕ) (named : is_empty m.cmd ≡ false)
    (open_ : spaced_back m.args ≡ false) where
  loop_end : parse_loop (suc f) [] m ≡ ok m
  unfolding parse_loop stringtok skip upto
  loop_end = refl

  loop_colon :
      (a : Text)
      → parse_loop (suc f) (b':' ∷ a) m ≡ ok (record m { args = m.args ++ joined a ∷ [] })
  unfolding parse_loop add_arg joined
  loop_colon a = rw (stringtok_colon a) (rw (named, open_, add_arg))

  loop_word :
      (a : Text) (args : List Text)
      → is_middle a ≡ true
      → parse_loop (suc f) (a ++ format_args args) m
        ≡ parse_loop f (args_body args) (record m { args = m.args ++ a ∷ [] })
  unfolding parse_loop add_arg is_middle
  loop_word a args h =
      let e : is_empty a ≡ false = ground arith in
      let c : clean space a ≡ true = ground arith in
      let d : (first a == b':') ≡ false = ground arith in
      rw (stringtok-format_args a args c e) (rw (e, named, d, open_, add_arg))

loop_trailing :
    (m : Message) (f : ℕ) (a : Text)
    → is_empty m.cmd ≡ false
    → spaced_back m.args ≡ false
    → is_trailing a ≡ true
    → parse_loop (suc (suc f)) (args_body (a ∷ [])) m ≡ ok (record m { args = m.args ++ a ∷ [] })
unfolding args_body
loop_trailing m f a named open_ h = elim (Bool-cases (needs_colon a)) [
  | inl e ↦
      let body : args_body (a ∷ []) ≡ b':' ∷ a =
        unfold args_body format_args in rw e (rw append-nil) in
      rw body (
        loop_colon m (suc f) named open_ a
        ∙ ap (λ (t : Text). ok (record m { args = m.args ++ t ∷ [] })) (joined_trailing a h))
  | inr e ↦
      let mid : is_middle a ≡ true =
        unfold is_middle is_trailing needs_colon in ground (arith, has-clean a) in
      let bare : spaced_back (m.args ++ a ∷ []) ≡ false =
        spaced_back-append m.args a ∙ (unfold needs_colon in ground arith) in
      let body : args_body (a ∷ []) ≡ a ++ format_args [] = unfold args_body in rw e in
      rw body (
        loop_word m (suc f) named open_ a [] mid
        ∙ loop_end (record m { args = m.args ++ a ∷ [] }) f named bare)
]

loop_args :
    (args : List Text) (f : ℕ) (m : Message)
    → length args < f
    → is_empty m.cmd ≡ false
    → spaced_back m.args ≡ false
    → plain_args args ≡ true
    → parse_loop f (args_body args) m ≡ ok (record m { args = m.args ++ args })
loop_args args zero m l named open_ h = absurd (omega arith)
loop_args [] (suc f) m l named open_ h =
    rw append-nil (unfold args_body in loop_end m f named open_)
loop_args (a ∷ []) (suc zero) m l named open_ h = absurd (omega arith)
loop_args (a ∷ []) (suc (suc f)) m l named open_ h =
    loop_trailing m f a named open_ (unfold plain_args in h)
loop_args (a ∷ b ∷ args) (suc f) m l named open_ h =
    let mid : is_middle a ≡ true = unfold plain_args in ground arith in
    let rest : plain_args (b ∷ args) ≡ true = unfold plain_args in ground arith in
    let plain_a : needs_colon a ≡ false =
      unfold plain_args needs_colon in ground (arith, has-clean a) in
    let bare : spaced_back (m.args ++ a ∷ []) ≡ false =
      spaced_back-append m.args a ∙ (unfold needs_colon in ground arith) in
    let body : args_body (a ∷ b ∷ args) ≡ a ++ format_args (b ∷ args) =
      unfold args_body in rw plain_a in
    rw body (
      loop_word m f named open_ a (b ∷ args) mid
      ∙ loop_args (b ∷ args) f (record m { args = m.args ++ a ∷ [] }) (omega arith) named bare rest
      ∙ ap (λ (t : List Text). ok (record m { args = t }))
          (append_assoc m.args (a ∷ []) (b ∷ args)))

length-format_args : (args : List Text) → length args ≤ length (format_args args)
unfolding format_args
length-format_args [] = omega arith
length-format_args (a ∷ args) = elim (Bool-cases (needs_colon a)) [
  | inl e ↦ rw e (omega (arith, length-append a (format_args args), length-format_args args))
  | inr e ↦ rw e (omega (arith, length-append a (format_args args), length-format_args args))
]

-- A command that `parse` gives back as it is.
pub record IsCommand (c : Text) : Type 0 where
  pub named : is_empty c ≡ false
  pub spaceless : clean (codes " ") c ≡ true
  pub upper : strupper c ≡ c

pub parse-format_args :
    (c : Text) (args : List Text)
    → IsCommand c
    → plain_args args ≡ true
    → parse (c ++ format_args args) ≡ ok (plain c args)
unfolding parse parse_loop set_command
parse-format_args c args v h =
    rw (parse_loop, stringtok-format_args c args v.spaceless v.named)
      (rw (v.named, v.upper)
        (rw (set_command, v.named)
          (loop_args args (length (c ++ format_args args)) (message c)
            (omega (
              arith,
              length-append c (format_args args),
              length-format_args args,
              nonempty c v.named,
            ))
            v.named (unfold spaced_back in refl) h)))
  where
    nonempty : (t : Text) → is_empty t ≡ false → 0 < length t
    nonempty [] e = cc
    nonempty (x ∷ t) e = omega arith
