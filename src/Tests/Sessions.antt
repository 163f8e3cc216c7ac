-- ===== src/Tests/Sessions.antt =====
-- Tests of sessions (src/irc/irc.cpp, src/irc/cmds.cpp) and of logins (src/im/auth.cpp).
use minbif.Prelude.{
  ◌≡◌, refl, [], ◌∷◌, false, true, arith, Option, none, some, codes, is_empty, text_eq,
}
use minbif.Result.{Result, ok}
use minbif.Message.{Message, message, add_arg}
use minbif.Bits.{bits_or, single}
use minbif.Auth.{
  returns, Mechanism, connection, local, World, new_im, exists, authenticate, base_create, create,
  validate, generate,
}
use minbif.Auth.Login.{first_accepting, validate-first_accepting, generate-local}
use minbif.Irc.{
  Server, Session, registered, oper, ping_flag, has_flag, set_flag, send, quit, ping, reply,
  add_args, ipc_send, welcome, sign_up, m_motd, motd_loop, send_welcome,
}
use minbif.Irc.Commands.{Handlers, dispatch, handlers}
use minbif.Token.Words.{words}
use minbif.Irc.Gate.{is_open, dispatch-is_open}
use minbif.Irc.Registration.{IsEntitled, send_welcome-IsEntitled}
use minbif.Irc.Ping.{ping_timeout}

-- One user, bob, has an account.
abbrev world : World
world = record {
  client_username = [];
  im_exists = λ u. text_eq u (codes "bob");
  im_fails = λ u. none;
  im_password = λ u. codes "12345678";
  check_password = λ u p. false;
  change_password = λ u p. returns false;
}

abbrev pub server : Server
server = record {
  name = codes "irc.example";
  version = codes "minbif-1.0";
  created = codes "today";
  motd = [];
  global_passwd = codes " ";
  opers = [];
  ping_freq = 60;
  mechanisms = connection ∷ local ∷ [];
  world = world;
  restore = λ u. returns false;
}

abbrev pub session : Session
session = record {
  user = record {
    nickname = codes "bob";
    identname = codes "b";
    hostname = codes "h";
    realname = [];
    away = [];
  };
  password = codes "12345678";
  flags = [];
  last_read = 0;
  connected = true;
  killed = false;
  im_auth = none;
  sent = [];
  ipc = [];
  counts = λ i. 0;
}

validate-first_accepting_example :
    validate world (connection ∷ local ∷ []) (codes "bob") (codes "12345678")
    ≡ returns (first_accepting world (codes "bob") (codes "12345678") (connection ∷ local ∷ []))
validate-first_accepting_example =
    validate-first_accepting world (codes "bob") (codes "12345678") connection (local ∷ []) refl

generate-local_example :
    (◌≡◌ {A = Option Mechanism} (some local) (some local))
    × (world.im_exists (codes "eve") ≡ false)
    × (is_empty (codes "secret") ≡ false)
unfolding generate create base_create minbif.Auth.set_password
generate-local_example =
    generate-local world (codes "eve") (codes "secret") (local ∷ []) (some local) refl

abbrev welcomed : Result Session
welcomed = send_welcome server session

-- the session of a result, or the other one
abbrev session_of : Result Session → Session
session_of r = elim r [ ok s ↦ s | _ ↦ session ]

send_welcome-IsEntitled_example :
    (k : Mechanism) × ((session_of welcomed).im_auth ≡ some k) × IsEntitled server session k
unfolding send_welcome has_flag set_flag validate authenticate exists new_im welcome ipc_send
    add_args reply send m_motd motd_loop add_arg quit bits_or single
send_welcome-IsEntitled_example =
    send_welcome-IsEntitled server session refl (session_of welcomed) refl refl

abbrev nothing : Handlers
nothing h m s = ok s

abbrev closing : Handlers
closing h m s = quit [] s

dispatch-is_open_example :
    dispatch server (handlers server nothing) (message (codes "JOIN")) session
    ≡ dispatch server (handlers server closing) (message (codes "JOIN")) session
unfolding has_flag handlers
dispatch-is_open_example =
    dispatch-is_open server (handlers server nothing) (handlers server closing)
      (message (codes "JOIN")) session same refl refl
  where
    same :
        (h : minbif.Irc.Commands.Handler) (m : Message) (s : Session)
        → is_open h ≡ true
        → handlers server nothing h m s ≡ handlers server closing h m s
    same minbif.Irc.Commands.Handler.nick m s e = refl
    same minbif.Irc.Commands.Handler.user m s e = refl
    same minbif.Irc.Commands.Handler.pass m s e = refl
    same minbif.Irc.Commands.Handler.quits m s e = refl
    same _ m s e = absurd (cc)

abbrev member : Session
member = record session { flags = true ∷ [] }

ping_timeout_example :
    ping server 200 (session_of (ping server 100 member))
    ≡ quit (codes "Ping timeout") (session_of (ping server 100 member))
unfolding ping has_flag add_arg
ping_timeout_example =
    ping_timeout server 100 200 member (session_of (ping server 100 member)) (omega arith)
      (omega arith) refl refl refl

notice_test : words (codes "\n\r") (codes "one\n\ntwo") ≡ codes "one" ∷ codes "two" ∷ []
unfolding words
notice_test = refl
