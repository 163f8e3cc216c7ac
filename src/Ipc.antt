-- ===== src/Ipc.antt =====
-- src/server_poll/daemon_fork.cpp and src/server_poll/daemon_fork.h: the process that listens, the
-- processes of the sessions that it forks, and the messages between them. One record is one process;
-- what it writes, closes and asks for is kept in order.
pub mod Bounded
pub mod Broadcast
pub mod Clients
pub mod Delivery
pub mod Quiet
pub mod Reach
pub mod Sessions
pub mod Told
use minbif.Prelude.{
  ℕ, zero, suc, ◌+◌, ◌≡◌, Bool, true, false, not, ◌&&◌, ◌||◌, List, [], ◌∷◌, ◌++◌, map, Option,
  none, some, Text, codes, is_empty, take, length, ltb, leb, text_eq, ◌==◌, if◌then◌else◌,
}
use minbif.Result.{Result, ok, err, ◌>>=◌}
use minbif.Message.{
  Entity, Message, message, add_arg, get_arg, set_sender, set_sender_name, set_receiver, format,
  parse, strlower,
}
use minbif.Token.{tokens}
use minbif.Irc.{add_args}

-- child_t, with the address of the object
pub record Child : Type 0 where
  pub object : ℕ
  pub fd : ℕ
  pub username : Text

-- The session of a process: the entities of irc and of irc->getUser().
pub record Served : Type 0 where
  pub irc : Entity
  pub user : Entity

pub data Effect : Type 0 where
  -- a message for a child: its object, its descriptor and the bytes
  to_child : ℕ → ℕ → Text → Effect
  to_master : Text → Effect
  -- irc->getUser()->send
  to_user : Message → Effect
  -- b_log, with W_SNO or not, without the text of errno, and std::cout
  logged : Bool → Text → Effect
  printed : Text → Effect
  -- the socket of a client is told that there are too many
  refused : ℕ → Effect
  closed : ℕ → Effect
  quit_session : Text → Effect
  rehash_session : Effect
  quit_application : Effect
  -- g_timeout_add (0, ..., stopServer_cb)
  stop_later : Effect

-- DaemonForkServerPoll; no socket is -1
pub record Poll : Type 0 where
  pub irc : Option Served
  -- an item of the configuration, from 0 to 65535
  pub maxcon : ℕ
  pub sock : Option ℕ
  pub childs : List Child
  -- the address of the next child_t
  pub next : ℕ
  pub done : List Effect

-- Whether write takes the bytes on a descriptor.
pub record Os : Type 0 where
  pub writes : ℕ → Text → Bool

unfoldable pub add : Effect → Poll → Poll
add e p = record p { done = p.done ++ e ∷ [] }

-- DaemonForkServerPoll::ipc_master_send, on a child that is not NULL
unfoldable pub ipc_master_send : Os → Child → Message → Poll → Bool × Poll
ipc_master_send os c m p =
    if os.writes c.fd (format m)
    then (true, add (to_child c.object c.fd (format m)) p)
    else (false, add (logged false (codes "Error while sending: ")) p)

-- The loop of ipc_master_broadcast; butone is the object to leave out.
unfoldable pub broadcast_loop : Os → Message → Option ℕ → List Child → Bool → Poll → Bool × Poll
broadcast_loop os m butone [] ret p = (ret, p)
broadcast_loop os m butone (c ∷ cs) ret p =
    let spared : Bool = elim butone [ none ↦ false | some o ↦ o == c.object ] in
    let (sent, after) = ipc_master_send os c m p in
    if spared
    then broadcast_loop os m butone cs ret p
    else broadcast_loop os m butone cs (sent || ret) after

-- DaemonForkServerPoll::ipc_master_broadcast
unfoldable pub ipc_master_broadcast : Os → Message → Option ℕ → Poll → Bool × Poll
ipc_master_broadcast os m butone p = broadcast_loop os m butone p.childs false p

-- DaemonForkServerPoll::ipc_child_send
unfoldable pub ipc_child_send : Os → Message → Poll → Bool × Poll
ipc_child_send os m p = elim p.sock [
  | none ↦ (false, p)
  | some fd ↦
      if os.writes fd (format m)
      then (true, add (to_master (format m)) p)
      else (false, add (logged false (codes "Error while sending: ")) p)
]

-- DaemonForkServerPoll::ipc_send
unfoldable pub ipc_send : Os → Message → Poll → Bool × Poll
ipc_send os m p = elim p.irc [
  | some i ↦ ipc_child_send os m p
  | none ↦ ipc_master_broadcast os m none p
]

-- DaemonForkServerPoll::rehash
unfoldable pub rehash : Os → Poll → Poll
rehash os p = elim p.irc [
  | some i ↦ add rehash_session p
  | none ↦ (ipc_master_broadcast os (message (codes "REHASH")) none p).1
]

-- The loop of DaemonForkServerPoll::log over the lines.
unfoldable pub log_loop : Text → Served → List Text → Poll → Result Poll
log_loop cmd i [] p = ok p
log_loop cmd i (line ∷ lines) p = do
  m ← add_arg line (set_receiver i.user (set_sender i.irc (message cmd)))
  log_loop cmd i lines (add (to_user m) p)

-- DaemonForkServerPoll::log, of a level with W_DEBUG or not and W_SNO or not
unfoldable pub log : Bool → Bool → Text → Poll → Result Poll
log debug sno msg p = elim p.irc [
  | some i ↦
      log_loop (if debug then codes "PRIVMSG" else codes "NOTICE") i (tokens (codes "\n\r") msg) p
  | none ↦ ok (if sno then p else add (printed msg) p)
]

-- The handlers get the child that has sent the message, or NULL for the master.
unfoldable pub m_oper : Os → Option Child → Message → Poll → Result Poll
m_oper os child m p = do
  nick ← get_arg 0 m
  let told : Poll = elim child [
    | none ↦ p
    | some c ↦ (ipc_master_broadcast os m (some c.object) p).1
  ]
  ok (add (logged true (nick ++ codes " is now an IRC Operator!")) told)

unfoldable pub m_wallops : Os → Option Child → Message → Poll → Result Poll
m_wallops os child m p = elim child [
  | some c ↦ ok (ipc_master_broadcast os m none p).1
  | none ↦ elim p.irc [
    | none ↦ ok p
    | some i ↦ (do
      nick ← get_arg 0 m
      text ← get_arg 1 m
      told ← add_arg text (set_sender_name nick (message (codes "WALLOPS")))
      ok (add (to_user told) p))
  ]
]

unfoldable pub m_rehash : Os → Option Child → Message → Poll → Result Poll
m_rehash os child m p = ok (rehash os p)

unfoldable pub m_die : Os → Option Child → Message → Poll → Result Poll
m_die os child m p = do
  nick ← get_arg 0 m
  reason ← get_arg 1 m
  let told : Poll = elim child [ none ↦ p | some c ↦ (ipc_master_broadcast os m none p).1 ]
  let noted =
      add (logged true (codes "Shutdown requested by " ++ (nick ++ (codes ": " ++ reason)))) told
  ok (elim p.irc [
    | some i ↦ add (quit_session (codes "Shutdown requested by " ++ nick)) noted
    | none ↦ add quit_application noted
  ])

-- child->username = ..., on the list
unfoldable pub set_username : ℕ → Text → List Child → List Child
set_username o name [] = []
set_username o name (c ∷ cs) =
    (if c.object == o then record c { username = name } else c) ∷ set_username o name cs

-- strcasecmp(a, b) == 0
unfoldable pub same_name : Text → Text → Bool
same_name a b = text_eq (strlower a) (strlower b)

-- The loop of m_user over the other children.
unfoldable pub user_loop : Os → ℕ → Text → List Child → Poll → Result Poll
user_loop os o name [] p = ok p
user_loop os o name (c ∷ cs) p =
    if not (c.object == o) && same_name c.username name
    then (do
      die ←
          add_args (name ∷ codes "You are logged from another location." ∷ [])
            (message (codes "DIE"))
      user_loop os o name cs (ipc_master_send os c die p).1)
    else user_loop os o name cs p

unfoldable pub m_user : Os → Option Child → Message → Poll → Result Poll
m_user os child m p = elim child [
  | none ↦ ok p
  | some c ↦ (do
    name ← get_arg 0 m
    let childs = set_username c.object name p.childs
    user_loop os c.object name childs (record p { childs = childs }))
]

pub record Command : Type 0 where
  pub cmd : Text
  pub func : Os → Option Child → Message → Poll → Result Poll
  pub min_args : ℕ

-- DaemonForkServerPoll::ipc_cmds
unfoldable pub ipc_cmds : List Command
ipc_cmds =
    record { cmd = codes "WALLOPS"; func = m_wallops; min_args = 2 }
    ∷ record { cmd = codes "REHASH"; func = m_rehash; min_args = 0 }
    ∷ record { cmd = codes "DIE"; func = m_die; min_args = 2 }
    ∷ record { cmd = codes "OPER"; func = m_oper; min_args = 1 }
    ∷ record { cmd = codes "USER"; func = m_user; min_args = 1 }
    ∷ []

-- The row of the command, if there is one.
unfoldable pub lookup : Text → List Command → Option Command
lookup cmd [] = none
lookup cmd (r ∷ rs) = if text_eq cmd r.cmd then some r else lookup cmd rs

-- The part of ipc_read behind the parsing.
unfoldable pub dispatch : Os → Option Child → Text → Message → Poll → Result Poll
dispatch os child buf m p = elim (lookup m.cmd ipc_cmds) [
  | none ↦ ok (add (logged false (codes "Received unknown command from IPC: " ++ buf)) p)
  | some r ↦
      if ltb (length m.args) r.min_args
      then ok (add (logged false (codes "Received malformated command from IPC: " ++ buf)) p)
      else r.func os child m p
]

-- The text before the first "\r\n", none when there is none before a zero byte.
unfoldable pub line_of : Text → Option Text
line_of [] = none
line_of (x ∷ xs) =
    let rest = line_of xs in
    if x == 0
    then none
    else if x == 13 && (elim xs [ [] ↦ false | y ∷ ys ↦ y == 10 ])
    then some []
    else elim rest [ none ↦ none | some l ↦ some (x ∷ l) ]

-- What recv finds: nothing yet, the end or an error, or the bytes that wait.
pub data Waiting : Type 0 where
  again : Waiting
  gone : Waiting
  bytes : Text → Waiting

unfoldable pub erase_child : ℕ → List Child → List Child
erase_child fd [] = []
erase_child fd (c ∷ cs) = let rest = erase_child fd cs in if fd == c.fd then rest else c ∷ rest

unfoldable pub drop : ℕ → Text → Text
drop zero xs = xs
drop (suc n) [] = []
drop (suc n) (x ∷ xs) = drop n xs

-- DaemonForkServerPoll::ipc_read: whether the callback is kept, the bytes that still wait, and the
-- process after it. A second recv gives the bytes that the first one has peeked at.
unfoldable pub ipc_read : Os → Option Child → Waiting → Poll → Result (Bool × Text × Poll)
ipc_read os child w p = elim w [
  | again ↦ ok (true, [], p)
  | gone ↦ elim child [
    | some c ↦ ok (
      false,
      [],
      add (closed c.fd) (record (add (logged false (codes "IPC: a child left: ")) p) {
        childs = erase_child c.fd p.childs;
      }),
    )
    | none ↦
        let left = add (logged true (codes "IPC: master left: ")) p in
        ok (
          false,
          [],
          record (elim p.sock [ none ↦ left | some fd ↦ add (closed fd) left ]) { sock = none },
        )
  ]
  | bytes queue ↦ elim (line_of (take 511 queue)) [
    | none ↦ ok (true, queue, p)
    | some buf ↦ (do
      m ← parse buf
      after ← dispatch os child buf m p
      ok (true, drop (length buf + 2) queue, after))
  ]
]
