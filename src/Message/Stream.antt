-- ===== src/Message/Stream.antt =====
-- A stream of messages, cut at line ends as `readIO` of src/irc/irc.cpp does, and read back.
use mathlib.Core.List.{flatten}
use minbif.Prelude.{
  ◌≡◌, refl, ap, ◌∙◌, true, false, List, [], ◌∷◌, ◌++◌, append_assoc, map, arith, Text, all,
  all-append, codes, Bool-cases, inl, inr, is_empty,
}
use minbif.Result.{ok}
use minbif.Token.{tokens}
use minbif.Token.Words.{clean, words, words-append, words-delimiter, words-nil, tokens-words}
use minbif.Message.{Message, unset, needs_colon, format_args, format, is_set, parse}
use minbif.Message.RoundTrip.{plain_args, IsCommand, parse-format_args}

abbrev line_end : Text
line_end = codes "\r\n"

-- A message that goes over a socket and comes back: no sender, no receiver, a command that `parse`
-- keeps, arguments that `plain_args` takes, and no line end in any of them.
pub record IsWire (m : Message) : Type 0 where
  pub sender : m.sender ≡ unset
  pub receiver : m.receiver ≡ unset
  pub command : IsCommand m.cmd
  pub args : plain_args m.args ≡ true
  pub one_line : clean (codes "\r\n") m.cmd ≡ true
  pub one_line_args : all (clean (codes "\r\n")) m.args ≡ true

abbrev pub AllWire : List Message → Type 0
AllWire [] = Unit
AllWire (m ∷ ms) = IsWire m × AllWire ms

clean-format_args :
    (args : List Text) → all (clean line_end) args ≡ true → clean line_end (format_args args) ≡ true
unfolding format_args
clean-format_args [] h = refl
clean-format_args (a ∷ args) h =
    let body : clean line_end (a ++ format_args args) ≡ true =
      all-append _ a (format_args args) ∙ ground (arith, clean-format_args args) in
    elim (Bool-cases (needs_colon a)) [ inl e ↦ rw e body | inr e ↦ rw e body ]

module _ (m : Message) (w : IsWire m) where
  pub line : Text
  line = m.cmd ++ format_args m.args

  pub format-line : (rest : Text) → format m ++ rest ≡ line ++ (line_end ++ rest)
  unfolding format is_set line
  format-line rest = rw (w.sender, w.receiver) (simp append_assoc)

  pub line-clean : clean line_end line ≡ true
  unfolding line
  line-clean =
      all-append _ m.cmd (format_args m.args)
      ∙ rw (w.one_line, clean-format_args m.args w.one_line_args)

  line_named : is_empty line ≡ false
  unfolding line
  line_named = go m.cmd w.command.named
    where
      go : (c : Text) → is_empty c ≡ false → is_empty (c ++ format_args m.args) ≡ false
      go [] e = cc
      go (x ∷ c) e = refl

  pub parse-line : parse line ≡ ok m
  unfolding line
  parse-line =
      parse-format_args m.cmd m.args w.command w.args ∙ ground (arith, w.sender, w.receiver)

-- What is left of the stream after a message's line.
words-format :
    (m : Message) (w : IsWire m) (rest : Text)
    → words line_end (format m ++ rest) ≡ line m w ∷ words line_end rest
words-format m w rest = rw (format-line m w rest) (
    words-append line_end (line m w) b'\r' (b'\n' ∷ rest) (line-clean m w) (line_named m w) refl
    ∙ ap (◌∷◌ (line m w)) (words-delimiter line_end b'\n' rest refl))

stream-words :
    (ms : List Message)
    → AllWire ms
    → map parse (words line_end (flatten (map format ms))) ≡ map ok ms
unfolding flatten
stream-words [] h = ap (map parse) (words-nil line_end)
stream-words (m ∷ ms) h =
    rw (words-format m h.0 (flatten (map format ms))) (rw (parse-line m h.0, stream-words ms h.1))

-- Any number of messages, written one behind the other and cut at line ends, parse to the same
-- messages in the same order.
pub parse-format_stream :
    (ms : List Message)
    → AllWire ms
    → map parse (tokens (codes "\r\n") (flatten (map format ms))) ≡ map ok ms
parse-format_stream ms h = rw tokens-words (stream-words ms h)
