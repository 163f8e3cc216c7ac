-- ===== src/Irc/Commands.antt =====
-- The handlers of src/irc/cmds.cpp that need no account, the table of commands and the loop over
-- the lines that were read, of src/irc/irc.cpp.
use minbif.Prelude.{
  ℕ, suc, ◌+◌, Bool, false, not, ◌&&◌, ◌||◌, List, [], ◌∷◌, ◌++◌, Option, none, some, Text, codes,
  text_eq, has, length, ltb, ◌==◌, if◌then◌else◌,
}
use minbif.Result.{Result, ok, ◌>>=◌}
use minbif.Message.{
  Message, message, add_arg, get_arg, set_command, set_sender, set_receiver, parse,
}
use minbif.Token.{tokens}
use minbif.Nick.{is_valid_nickname, set_nickname, set_identname, set_realname}
use minbif.Irc.{
  Server, Session, registered, ping_flag, oper, send, has_flag, set_flag, del_flag, reply, quit,
  m_motd, ipc_send, send_welcome, server_entity, user_entity,
}

unfoldable pub m_ping : Server → Message → Session → Result Session
m_ping v m s = do
  m ← set_command (codes "PONG") m
  ok (send (set_receiver (server_entity v) (set_sender (server_entity v) m)) s)

unfoldable pub m_pong : Message → Session → Result Session
m_pong m s = ok (del_flag ping_flag s)

unfoldable pub m_nick : Server → Message → Session → Result Session
m_nick v m s =
    if ltb (length m.args) 1
    then reply v (codes "431") (codes "No nickname given" ∷ []) s
    else if has_flag registered s
    then reply v (codes "438")
        (codes "The hand of the deity is upon thee, thy nick may not change" ∷ []) s
    else (do
      n ← get_arg 0 m
      if not (is_valid_nickname n)
          then reply v (codes "432") (codes "This nick contains invalid characters" ∷ []) s
          else send_welcome v (record s { user = set_nickname n s.user }))

unfoldable pub m_user : Server → Message → Session → Result Session
m_user v m s =
    if has_flag registered s
    then reply v (codes "462") (codes "Please register only once per session" ∷ []) s
    else (do
      ident ← get_arg 0 m
      real ← get_arg 3 m
      send_welcome v (record s { user = set_realname real (set_identname ident s.user) }))

unfoldable pub m_pass : Server → Message → Session → Result Session
m_pass v m s = do
  password ← get_arg 0 m
  if has_flag registered s
      then reply v (codes "462") (codes "Please register only once per session" ∷ []) s
      else if ltb (length password) 8
      then quit (codes "Password is too short (at least 8 characters)") s
      else if has b' ' password
      then quit (codes "Password may not contain spaces") s
      else ok (record s { password = password })

unfoldable pub m_quit : Message → Session → Result Session
m_quit m s =
    if ltb 0 (length m.args)
    then (do reason ← get_arg 0 m; quit (codes "Quit: " ++ reason) s)
    else quit (codes "Quit: Leaving...") s

-- the loop of m_oper over the configured operators
unfoldable pub known_oper : Text → Text → List (Text × Text) → Bool
known_oper login password [] = false
known_oper login password ((l, p) ∷ r) =
    (text_eq l login && text_eq p password) || known_oper login password r

unfoldable pub m_oper : Server → Message → Session → Result Session
m_oper v m s =
    if has_flag oper s
    then reply v (codes "381") (codes "You are already an IRC Operator" ∷ []) s
    else (do
      login ← get_arg 0 m
      password ← get_arg 1 m
      if known_oper login password v.opers
          then (do
            let s = set_flag oper s
            mode ←
                add_arg (codes "+o") (
                  set_receiver (user_entity s)
                    (set_sender (user_entity s) (message (codes "MODE"))))
            s ← reply v (codes "381") (codes "You are now an IRC Operator" ∷ []) (send mode s)
            ipc_send (codes "OPER") (s.user.nickname ∷ []) s)
          else reply v (codes "464") (codes "Password incorrect" ∷ []) s)

pub data Handler : Type 0 where
  nick user pass quits cmd privmsg pings pong version info who whois whowas stats connect squit map_
        admin join part names topic list mode ison invite kick kill svsnick away motd opers wallops
        rehash die :
      Handler

-- command_t; flags is the bit that is asked for, none for 0
pub record Command : Type 0 where
  pub cmd : Text
  pub func : Handler
  pub minargs : ℕ
  pub flags : Option ℕ

abbrev row : Text → Handler → ℕ → Option ℕ → Command
row c h n f = record { cmd = c; func = h; minargs = n; flags = f }

unfoldable pub commands : List Command
commands =
    row (codes "NICK") nick 0 none
    ∷ row (codes "USER") user 4 none
    ∷ row (codes "PASS") pass 1 none
    ∷ row (codes "QUIT") quits 0 none
    ∷ row (codes "CMD") cmd 2 (some registered)
    ∷ row (codes "PRIVMSG") privmsg 2 (some registered)
    ∷ row (codes "PING") pings 0 (some registered)
    ∷ row (codes "PONG") pong 1 (some registered)
    ∷ row (codes "VERSION") version 0 (some registered)
    ∷ row (codes "INFO") info 0 (some registered)
    ∷ row (codes "WHO") who 0 (some registered)
    ∷ row (codes "WHOIS") whois 1 (some registered)
    ∷ row (codes "WHOWAS") whowas 1 (some registered)
    ∷ row (codes "STATS") stats 0 (some registered)
    ∷ row (codes "CONNECT") connect 1 (some registered)
    ∷ row (codes "SCONNECT") connect 1 (some registered)
    ∷ row (codes "SQUIT") squit 1 (some registered)
    ∷ row (codes "MAP") map_ 0 (some registered)
    ∷ row (codes "ADMIN") admin 0 (some registered)
    ∷ row (codes "JOIN") join 1 (some registered)
    ∷ row (codes "PART") part 1 (some registered)
    ∷ row (codes "NAMES") names 1 (some registered)
    ∷ row (codes "TOPIC") topic 1 (some registered)
    ∷ row (codes "LIST") list 0 (some registered)
    ∷ row (codes "MODE") mode 1 (some registered)
    ∷ row (codes "ISON") ison 1 (some registered)
    ∷ row (codes "INVITE") invite 2 (some registered)
    ∷ row (codes "KICK") kick 2 (some registered)
    ∷ row (codes "KILL") kill 1 (some registered)
    ∷ row (codes "SVSNICK") svsnick 2 (some registered)
    ∷ row (codes "AWAY") away 0 (some registered)
    ∷ row (codes "MOTD") motd 0 (some registered)
    ∷ row (codes "OPER") opers 2 (some registered)
    ∷ row (codes "WALLOPS") wallops 1 (some oper)
    ∷ row (codes "REHASH") rehash 0 (some oper)
    ∷ row (codes "DIE") die 1 (some oper)
    ∷ []

-- The search in readIO, with the index of what it finds.
unfoldable pub find_command : Text → ℕ → List Command → Option (ℕ × Command)
find_command c i [] = none
find_command c i (r ∷ rs) = if text_eq r.cmd c then some (i, r) else find_command c (suc i) rs

-- what the handlers do
abbrev pub Handlers : Type 0
Handlers = Handler → Message → Session → Result Session

-- the flags of the row are not 0 and the user has none of them
unfoldable pub lacks : Option ℕ → Session → Bool
lacks none s = false
lacks (some k) s = not (has_flag k s)

-- one round of readIO for a message
unfoldable pub dispatch : Server → Handlers → Message → Session → Result Session
dispatch v run m s = elim (find_command m.cmd 0 commands) [
  | none ↦ reply v (codes "421") (m.cmd ∷ codes "Unknown command" ∷ []) s
  | some (i, r) ↦
      if ltb (length m.args) r.minargs
      then reply v (codes "461") (m.cmd ∷ codes "Not enough parameters" ∷ []) s
      else if lacks r.flags s
      then (if not (has_flag registered s)
          then reply v (codes "451") (codes "Register first" ∷ []) s
          else reply v (codes "481") (codes "Permission Denied: Insufficient privileges" ∷ []) s)
      else run r.func m (record s { counts = λ j. if i == j then s.counts j + 1 else s.counts j })
]

-- the loop of readIO over the lines
unfoldable pub lines_loop : Server → Handlers → ℕ → List Text → Session → Result Session
lines_loop v run now [] s = ok s
lines_loop v run now (l ∷ ls) s = do
  m ← parse l
  s ← dispatch v run m (record s { last_read = now })
  lines_loop v run now ls s

-- IRC::readIO on what the socket gave
unfoldable pub read_io : Server → Handlers → ℕ → Text → Session → Result Session
read_io v run now sbuf s = lines_loop v run now (tokens (codes "\r\n") sbuf) s

-- The handlers above, and the others as they are given.
unfoldable pub handlers : Server → Handlers → Handlers
handlers v others nick m s = m_nick v m s
handlers v others user m s = m_user v m s
handlers v others pass m s = m_pass v m s
handlers v others quits m s = m_quit m s
handlers v others pings m s = m_ping v m s
handlers v others pong m s = m_pong m s
handlers v others motd m s = m_motd v s
handlers v others opers m s = m_oper v m s
handlers v others h m s = others h m s
