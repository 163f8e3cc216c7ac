-- ===== src/Irc.antt =====
-- src/irc/irc.cpp, src/irc/cmds.cpp and src/irc/user.cpp: the session of the user who is connected,
-- its registration, and the commands that need no instant messaging account. What is sent to the
-- user and to the other processes is kept in order.
pub mod Commands
pub mod Gate
pub mod Registration
pub mod Ping
pub mod Notices
use minbif.Prelude.{
  ℕ, suc, ◌+◌, ◌<◌, ◌≡◌, Bool, true, false, not, ◌&&◌, ◌||◌, List, [], ◌∷◌, ◌++◌, Option, none,
  some, Text, codes, is_empty, text_eq, has, length, ltb, ◌==◌, if◌then◌else◌,
}
use minbif.Result.{Result, ok, err, undefined, ◌>>=◌}
use minbif.Bits.{Bits, bit, single, bits_or, bits_minus}
use minbif.Message.{Entity, Message, message, add_arg, get_arg, set_sender, set_receiver}
use minbif.Nick.{NickInfo, is_valid_nickname, set_nickname, set_identname, set_realname}
use minbif.Nick
use minbif.Auth.{Outcome, returns, raises, Mechanism, World, validate, generate}

-- Nick::REGISTERED, Nick::PING and Nick::OPER, by their bits
abbrev pub registered : ℕ
registered = 0

abbrev pub ping_flag : ℕ
ping_flag = 1

abbrev pub oper : ℕ
oper = 2

-- The server, its configuration, and what is behind it.
pub record Server : Type 0 where
  pub name : Text
  pub version : Text
  pub created : Text
  pub motd : List Text
  -- the items irc/password and irc/oper of the configuration
  pub global_passwd : Text
  pub opers : List (Text × Text)
  pub ping_freq : ℕ
  pub mechanisms : List Mechanism
  pub world : World
  -- im->restore() and then im->isAway()
  pub restore : Text → Outcome Bool

pub record Session : Type 0 where
  pub user : NickInfo
  pub password : Text
  pub flags : Bits
  pub last_read : ℕ
  -- the user's socket wrapper is not NULL
  pub connected : Bool
  -- poll->kill was called
  pub killed : Bool
  pub im_auth : Option Mechanism
  pub sent : List Message
  pub ipc : List Message
  -- command_t::count
  pub counts : ℕ → ℕ

-- User::send
unfoldable pub send : Message → Session → Session
send m s = if s.connected then record s { sent = s.sent ++ m ∷ [] } else s

unfoldable pub has_flag : ℕ → Session → Bool
has_flag k s = bit s.flags k

unfoldable pub set_flag : ℕ → Session → Session
set_flag k s = record s { flags = bits_or s.flags (single k) }

unfoldable pub del_flag : ℕ → Session → Session
del_flag k s = record s { flags = bits_minus s.flags (single k) }

abbrev pub server_entity : Server → Entity
server_entity v = record { name = v.name; long_name = v.name }

abbrev pub user_entity : Session → Entity
user_entity s = record { name = s.user.nickname; long_name = Nick.get_long_name s.user }

-- .addArg(a) for each argument
unfoldable pub add_args : List Text → Message → Result Message
add_args [] m = ok m
add_args (a ∷ r) m = add_arg a m >>= add_args r

-- user->send(Message(cmd).setSender(this).setReceiver(user).addArg...)
unfoldable pub reply : Server → Text → List Text → Session → Result Session
reply v cmd args s = do
  m ← add_args args (set_receiver (user_entity s) (set_sender (server_entity v) (message cmd)))
  ok (send m s)

-- IRC::quit
unfoldable pub quit : Text → Session → Result Session
quit reason s = do
  m ← add_arg (codes "Closing Link: " ++ reason) (message (codes "ERROR"))
  ok (record (send m s) { connected = false; killed = true })

-- poll->ipc_send
unfoldable pub ipc_send : Text → List Text → Session → Result Session
ipc_send cmd args s = do m ← add_args args (message cmd); ok (record s { ipc = s.ipc ++ m ∷ [] })

-- the loop of m_motd
unfoldable pub motd_loop : Server → List Text → Session → Result Session
motd_loop v [] s = ok s
motd_loop v (l ∷ ls) s = reply v (codes "372") ((codes "- " ++ l) ∷ []) s >>= motd_loop v ls

unfoldable pub m_motd : Server → Session → Result Session
m_motd v s = do
  s ← reply v (codes "375") ((codes "- " ++ (v.name ++ codes " Message Of The Day -")) ∷ []) s
  s ← motd_loop v v.motd s
  reply v (codes "376") (codes "End of /MOTD command." ∷ []) s

-- the part of sendWelcome behind `im = im_auth->getIM()`
unfoldable pub welcome : Server → Mechanism → Session → Result Session
welcome v k s = do
  let s = set_flag registered (record s { im_auth = some k })
  s ← ipc_send (codes "USER") (s.user.nickname ∷ []) s
  s ←
      reply v (codes "001")
        ((codes "Welcome to the Minbif IRC gateway, " ++ (s.user.nickname ++ codes "!")) ∷ []) s
  s ←
      reply v (codes "002")
        ((codes "Your host is " ++ (v.name ++ (codes ", running " ++ v.version))) ∷ []) s
  s ← reply v (codes "003") ((codes "This server was created " ++ v.created) ∷ []) s
  s ← reply v (codes "004") (v.name ∷ v.version ∷ codes "o" ∷ codes "qohvb" ∷ []) s
  s ←
      reply v (codes "005")
        (codes "CMDS=MAP"
          ∷ codes "CHANTYPES=#&"
          ∷ codes "PREFIX=(qohv)~@%+"
          ∷ codes "STATUSMSG=~@%+"
          ∷ codes "are supported by this server"
          ∷ [])
        s
  s ← m_motd v s
  elim (v.restore s.user.nickname) [
    | raises e ↦ quit (codes "Unable to initialize IM: " ++ e) s
    | returns false ↦ ok s
    | returns true ↦
        reply v (codes "306") (codes "You have been marked as being away" ∷ [])
          (record s { user = record s.user { away = codes "Away" } })
  ]

-- The part of sendWelcome for a user whom no mechanism takes, with im_auth NULL. After the last
-- quit the code goes on to im_auth->getIM().
unfoldable pub sign_up : Server → Session → Result Session
sign_up v s =
    if v.world.im_exists s.user.nickname
    then quit (codes "Incorrect credentials") s
    else if not (text_eq v.global_passwd (codes " ")) && not (text_eq s.password v.global_passwd)
    then quit (codes "This server is protected by a global private password.  Ask administrator.") s
    else elim (generate v.world v.mechanisms s.user.nickname s.password) [
      | raises e ↦ quit (codes "Unable to initialize IM: " ++ e) s
      | returns none ↦ (quit (codes "Creation of new account failed") s >>= λ _. err undefined)
      | returns (some k) ↦ welcome v k s
    ]

-- IRC::sendWelcome
unfoldable pub send_welcome : Server → Session → Result Session
send_welcome v s =
    if has_flag registered s || (text_eq s.user.nickname (codes "*") || is_empty s.user.identname)
    then ok s
    else elim (validate v.world v.mechanisms s.user.nickname s.password) [
      | raises e ↦ quit (codes "Unable to initialize IM: " ++ e) s
      | returns none ↦ sign_up v (record s { im_auth = none })
      | returns (some k) ↦ welcome v k s
    ]

-- IRC::ping, at the time now
unfoldable pub ping : Server → ℕ → Session → Result Session
ping v now s =
    if ltb now (s.last_read + v.ping_freq)
    then ok s
    else if not (has_flag registered s) || has_flag ping_flag s
    then quit (codes "Ping timeout") s
    else (do m ← add_arg v.name (message (codes "PING")); ok (send m (set_flag ping_flag s)))
