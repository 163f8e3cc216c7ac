-- ===== src/Chat/Targets.antt =====
-- Targets with spaces: what src/irc/cmds_channels.cpp does with a trailing argument as a target.
use minbif.Prelude.{
  ◌≡◌, refl, ap, sym, ◌∙◌, append-nil, true, List, [], ◌∷◌, ◌++◌, none, Text, codes, has, arith,
}
use minbif.Result.{Result, ok, err, malformed, ◌>>=◌}
use minbif.Message.{
  Message, add_arg, get_arg, parse, spaced_back, format_args, needs_colon, strupper,
}
use minbif.Message.RoundTrip.{plain, parse-format_args, IsCommand, is_trailing, plain_args}
use minbif.Modes.{ChatFlags}
use minbif.Irc.{add_args}
use minbif.Chat.{Chat, get_channel, answer, no_such_channel, m_part, m_names, m_topic, m_whowas}

-- an answer that puts something behind a text with a space
answer_spaced :
    (cmd name x : Text) (rest : List Text) (s : Chat)
    → has b' ' name ≡ true
    → answer cmd (name ∷ x ∷ rest) s ≡ err malformed
unfolding answer add_args add_arg spaced_back
answer_spaced cmd name x rest s h = rw h refl

no_such_spaced :
    (name : Text) (s : Chat) → has b' ' name ≡ true → no_such_channel name s ≡ err malformed
unfolding no_such_channel
no_such_spaced name s h = answer_spaced _ name _ [] s h

-- CMD :name
abbrev pub trailing : Text → Text → Text
trailing cmd name = cmd ++ (b' ' ∷ b':' ∷ name)

parse-trailing :
    (cmd name : Text)
    → IsCommand cmd
    → is_trailing name ≡ true
    → has b' ' name ≡ true
    → parse (trailing cmd name) ≡ ok (plain cmd (name ∷ []))
unfolding format_args needs_colon plain_args
parse-trailing cmd name c t h =
    let body : format_args (name ∷ []) ≡ b' ' ∷ b':' ∷ name =
      rw h (ap (λ x. b' ' ∷ b':' ∷ x) (append-nil name)) in
    ap (λ x. parse (cmd ++ x)) (sym body) ∙ parse-format_args cmd (name ∷ []) c t

-- A handler that is given a line of the client, as `readIO` does behind its checks.
abbrev pub on_line : Text → (Message → Result Chat) → Result Chat
on_line line handler = parse line >>= handler

part-IsCommand : IsCommand (codes "PART")
unfolding strupper
part-IsCommand = record { named = refl; spaceless = refl; upper = refl }

names-IsCommand : IsCommand (codes "NAMES")
unfolding strupper
names-IsCommand = record { named = refl; spaceless = refl; upper = refl }

topic-IsCommand : IsCommand (codes "TOPIC")
unfolding strupper
topic-IsCommand = record { named = refl; spaceless = refl; upper = refl }

whowas-IsCommand : IsCommand (codes "WHOWAS")
unfolding strupper
whowas-IsCommand = record { named = refl; spaceless = refl; upper = refl }

-- the handlers with the one argument that the line gives them
handlers_throw :
    (fl : ChatFlags) (name : Text) (s : Chat)
    → has b' ' name ≡ true
    → get_channel name s ≡ none
    → (m_part (plain (codes "PART") (name ∷ [])) s ≡ err malformed)
      × (m_names fl (plain (codes "NAMES") (name ∷ [])) s ≡ err malformed)
      × (m_topic (plain (codes "TOPIC") (name ∷ [])) s ≡ err malformed)
      × (m_whowas (plain (codes "WHOWAS") (name ∷ [])) s ≡ err malformed)
unfolding m_part m_names m_topic m_whowas get_arg
handlers_throw fl name s h e = (
  rw (m_part, e) (no_such_spaced name s h),
  ground (arith, e, no_such_spaced name s h),
  ground (arith, e, no_such_spaced name s h),
  rw (answer_spaced (codes "406") name (codes "Nick does not exist") [] s h) refl,
)

-- PART, NAMES, TOPIC and WHOWAS throw MalformedMessage when the line has behind its command one
-- argument, with a colon, that has a space with something behind the first one, and that names no
-- channel.
pub spaced_target_throws :
    (fl : ChatFlags) (name : Text) (s : Chat)
    → is_trailing name ≡ true
    → has b' ' name ≡ true
    → get_channel name s ≡ none
    → (on_line (trailing (codes "PART") name) (λ m. m_part m s) ≡ err malformed)
      × (on_line (trailing (codes "NAMES") name) (λ m. m_names fl m s) ≡ err malformed)
      × (on_line (trailing (codes "TOPIC") name) (λ m. m_topic m s) ≡ err malformed)
      × (on_line (trailing (codes "WHOWAS") name) (λ m. m_whowas m s) ≡ err malformed)
spaced_target_throws fl name s t h e =
    let (a, b, c, d) = handlers_throw fl name s h e in
    (
      rw (parse-trailing (codes "PART") name part-IsCommand t h) a,
      rw (parse-trailing (codes "NAMES") name names-IsCommand t h) b,
      rw (parse-trailing (codes "TOPIC") name topic-IsCommand t h) c,
      rw (parse-trailing (codes "WHOWAS") name whowas-IsCommand t h) d,
    )
