-- ===== src/Ipc/Clients.antt =====
-- `new_client_cb` of src/server_poll/daemon_fork.cpp.
use minbif.Prelude.{
  ℕ, suc, ◌&&◌, List, [], ◌∷◌, ◌++◌, Option, none, some, length, ltb, leb, if◌then◌else◌,
}
use minbif.Ipc.{Child, Served, Poll, add, closed, refused, quit_application, stop_later}

pub data Fork : Type 0 where
  fork_failed : Fork
  fork_parent : Fork
  fork_child : Fork

-- What the system gives: accept, socketpair, fork, and the session, which may not start.
pub record Connection : Type 0 where
  pub accepted : Option ℕ
  pub pair : Option (ℕ × ℕ)
  pub forked : Fork
  pub started : Option Served

-- close on each child
unfoldable pub close_childs : List Child → Poll → Poll
close_childs [] p = p
close_childs (c ∷ cs) p = close_childs cs (add (closed c.fd) p)

-- The parent's side behind the fork.
unfoldable pub in_parent : ℕ → Option (ℕ × ℕ) → Poll → Poll
in_parent socket pair p =
    let served = add (closed socket) p in
    elim pair [
      | none ↦ served
      | some (a, b) ↦ add (closed b) (record served {
        childs = served.childs ++ record { object = served.next; fd = a; username = [] } ∷ [];
        next = suc served.next;
      })
    ]

-- The child's side behind the fork.
unfoldable pub in_child : Option (ℕ × ℕ) → Option Served → Poll → Poll
in_child pair started p =
    let gone : Poll = elim p.sock [ none ↦ p | some fd ↦ add (closed fd) p ] in
    let alone = record gone { sock = none } in
    let mine : Poll = elim pair [
      | none ↦ alone
      | some (a, b) ↦
          record (close_childs p.childs (add (closed a) (record alone { sock = some b }))) {
            childs = [];
          }
    ] in
    elim started [ some i ↦ record mine { irc = some i } | none ↦ add quit_application mine ]

-- DaemonForkServerPoll::new_client_cb
unfoldable pub new_client : Connection → Poll → Poll
new_client o p = elim o.accepted [
  | none ↦ p
  | some socket ↦
      if ltb 0 p.maxcon && leb p.maxcon (length p.childs)
      then add (closed socket) (add (refused socket) p)
      else elim o.forked [
        | fork_failed ↦ add (closed socket) p
        | fork_parent ↦ in_parent socket o.pair p
        | fork_child ↦ in_child o.pair o.started p
      ]
]

-- DaemonForkServerPoll::kill, of the session of the process
unfoldable pub kill : Poll → Poll
kill p = add stop_later p

-- DaemonForkServerPoll::stopServer_cb
unfoldable pub stop_server : Poll → Poll
stop_server p = add quit_application (record p { irc = none })

-- DaemonForkServerPoll::~DaemonForkServerPoll
unfoldable pub destroy : Poll → Poll
destroy p =
    let deaf : Poll = elim p.sock [ none ↦ p | some fd ↦ add (closed fd) p ] in
    record (close_childs p.childs (record deaf { irc = none; sock = none })) { childs = [] }
