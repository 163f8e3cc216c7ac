-- ===== src/Irc/Notices.antt =====
-- Texts for the user: `notice` and `privmsg` of src/irc/irc.cpp, and the handlers of src/irc/cmds.cpp
-- that tell something or pass it on.
use minbif.Prelude.{
  ◌≡◌, refl, ap, sym, ◌∙◌, Bool, true, false, List, [], ◌∷◌, ◌++◌, append_assoc, append-nil, map,
  Text, codes, is_empty, length, ltb, if◌then◌else◌,
}
use minbif.Result.{Result, ok, ◌>>=◌}
use minbif.Message.{Message, message, add_arg, get_arg, set_sender, set_receiver, spaced_back}
use minbif.Token.{tokens}
use minbif.Token.Words.{words, tokens-words}
use minbif.Irc.{Server, Session, send, reply, add_args, quit, ipc_send, server_entity, user_entity}

-- the loop of IRC::notice and IRC::privmsg over the tokens
unfoldable pub tell_lines : Server → Text → List Text → Session → Result Session
tell_lines v cmd [] s = ok s
tell_lines v cmd (t ∷ ts) s = reply v cmd (t ∷ []) s >>= tell_lines v cmd ts

-- IRC::notice to the user
unfoldable pub notice : Server → Text → Session → Result Session
notice v msg s = tell_lines v (codes "NOTICE") (tokens (codes "\n\r") msg) s

-- IRC::privmsg to the user
unfoldable pub privmsg : Server → Text → Session → Result Session
privmsg v msg s = tell_lines v (codes "PRIVMSG") (tokens (codes "\n\r") msg) s

unfoldable pub m_version : Server → Text → Session → Result Session
m_version v build s = reply v (codes "351") (v.version ∷ v.name ∷ build ∷ []) s

unfoldable pub m_info : Server → List Text → Session → Result Session
m_info v infotxt s =
    tell_lines v (codes "371") infotxt s >>= reply v (codes "374") (codes "End of /INFO list." ∷ [])

-- takes is im->setStatus
unfoldable pub m_away : Server → (Text → Bool) → Message → Session → Result Session
m_away v takes m s = do
  away ← (if ltb 0 (length m.args) then get_arg 0 m else ok [])
  if takes away
      then reply v (if is_empty away then codes "305" else codes "306")
          ((if is_empty away
              then codes "You are no longer marked as being away"
              else codes "You have been marked as being away")
            ∷ [])
          (record s { user = record s.user { away = away } })
      else ok s

-- What ipc_send answers only goes to the log.
unfoldable pub m_wallops : Message → Session → Result Session
m_wallops m s = do text ← get_arg 0 m; ipc_send (codes "WALLOPS") (s.user.nickname ∷ text ∷ []) s

-- answered is what ipc_send gives
unfoldable pub m_die : Bool → Message → Session → Result Session
m_die answered m s = do
  reason ← get_arg 0 m
  s ← ipc_send (codes "DIE") (s.user.nickname ∷ reason ∷ []) s
  if answered then ok s else quit (codes "Shutdown requested: " ++ reason) s

-- a message from the server to the user with one argument
abbrev pub line_message : Server → Text → Session → Text → Message
line_message v cmd s t =
    record (set_receiver (user_entity s) (set_sender (server_entity v) (message cmd))) {
      args = t ∷ [];
    }

-- the messages reach the user, if he is there
abbrev pub told : List Message → Session → Session
told ms s = record s { sent = if s.connected then s.sent ++ ms else s.sent }

sent_if :
    (c : Bool) (ms : List Message) (s : Session)
    → (if c then record s { sent = s.sent ++ ms } else s)
      ≡ record s { sent = if c then s.sent ++ ms else s.sent }
sent_if true ms s = refl
sent_if false ms s = refl

sent_none : (c : Bool) (xs : List Message) → xs ≡ (if c then xs ++ [] else xs)
sent_none true xs = sym (append-nil xs)
sent_none false xs = refl

sent_more :
    (c : Bool) (m : Message) (ms xs : List Message)
    → (if c then (if c then xs ++ m ∷ [] else xs) ++ ms else if c then xs ++ m ∷ [] else xs)
      ≡ (if c then xs ++ m ∷ ms else xs)
sent_more true m ms xs = append_assoc xs (m ∷ []) ms
sent_more false m ms xs = refl

reply_one :
    (v : Server) (cmd t : Text) (s : Session)
    → reply v cmd (t ∷ []) s ≡ ok (told (line_message v cmd s t ∷ []) s)
unfolding reply add_args add_arg spaced_back send
reply_one v cmd t s = ap (λ x. ok x) (sent_if s.connected (line_message v cmd s t ∷ []) s)

tell_lines_lem :
    (v : Server) (cmd : Text) (ts : List Text) (s : Session)
    → tell_lines v cmd ts s ≡ ok (told (map (line_message v cmd s) ts) s)
unfolding tell_lines
tell_lines_lem v cmd [] s = ap (λ xs. ok (record s { sent = xs })) (sent_none s.connected s.sent)
tell_lines_lem v cmd (t ∷ ts) s =
    let m = line_message v cmd s t in
    ap (λ r. r >>= tell_lines v cmd ts) (reply_one v cmd t s)
    ∙ tell_lines_lem v cmd ts (told (m ∷ []) s)
    ∙ ap (λ xs. ok (record s { sent = xs }))
        (sent_more s.connected m (map (line_message v cmd s) ts) s.sent)

-- A notice throws nothing: the user, if he is there, gets one NOTICE from the server for each line of
-- the text that is not empty, in order, with the line as its one argument, and nothing else changes.
pub notice-words :
    (v : Server) (msg : Text) (s : Session)
    → notice v msg s
      ≡ ok (told (map (line_message v (codes "NOTICE") s) (words (codes "\n\r") msg)) s)
unfolding notice
notice-words v msg s =
    ap (λ ts. tell_lines v (codes "NOTICE") ts s) (tokens-words (codes "\n\r") msg)
    ∙ tell_lines_lem v (codes "NOTICE") (words (codes "\n\r") msg) s
