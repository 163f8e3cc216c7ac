-- ===== src/Ipc/Quiet.antt =====
-- What the handlers of src/server_poll/daemon_fork.cpp other than USER leave as it was.
use minbif.Prelude.{
  ℕ, ◌≡◌, refl, ◌∙◌, Bool, true, false, not, ◌&&◌, ◌||◌, List, [], ◌∷◌, ◌++◌, Option, none, some,
  Text, codes, any, any-append, length, take, text_eq, ltb, ◌==◌, if◌then◌else◌, arith,
}
use minbif.Result.{Result, ok, err, ◌>>=◌}
use minbif.Message.{Message, message, get_arg, add_arg, set_sender_name}
use minbif.Irc.{add_args}
use minbif.Ipc.{
  Child, Poll, Os, Effect, to_child, to_user, logged, rehash_session, quit_session,
  quit_application, Command, add, ipc_master_send, ipc_master_broadcast, broadcast_loop, rehash,
  m_oper, m_wallops, m_rehash, m_die, m_user, user_loop, same_name, lookup, ipc_cmds, dispatch,
}

-- Whether the effect is DIE, written to the child.
abbrev pub is_die : ℕ → Effect → Bool
is_die o (to_child object fd text) = object == o && text_eq (take 4 text) (codes "DIE ")
is_die o _ = false

abbrev pub told : ℕ → Poll → Bool
told o p = any (is_die o) p.done

-- What holds of the result, if there is one.
abbrev pub Holds : {A : Type 0} → (A → Type 0) → Result A → Type 0
Holds P (ok a) = P a
Holds P (err e) = Unit

pub Holds-bind :
    {A B : Type 0} (P : B → Type 0) (r : Result A) (f : A → Result B)
    → ((a : A) → Holds P (f a))
    → Holds P (r >>= f)
Holds-bind P (ok a) f h = h a
Holds-bind P (err e) f h = tt

pub Holds-map :
    {A : Type 0} (P Q : A → Type 0) (r : Result A) → ((a : A) → P a → Q a) → Holds P r → Holds Q r
Holds-map P Q (ok a) f h = f a h
Holds-map P Q (err e) f h = tt

pub choose-Holds :
    {A : Type 0} (P : A → Type 0) (b : Bool) (x y : Result A)
    → Holds P x
    → Holds P y
    → Holds P (if b then x else y)
choose-Holds P true x y g h = g
choose-Holds P false x y g h = h

-- DIE has been sent to no fewer children, and nothing else that counts has changed.
pub record Grows (p q : Poll) : Type 0 where
  pub told_kept : (o : ℕ) → told o p ≡ true → told o q ≡ true
  pub childs_eq : q.childs ≡ p.childs
  pub maxcon_eq : q.maxcon ≡ p.maxcon

pub Grows-refl : (p : Poll) → Grows p p
Grows-refl p = record { told_kept = λ o h. h; childs_eq = refl; maxcon_eq = refl }

pub Grows-trans : {p q r : Poll} → Grows p q → Grows q r → Grows p r
Grows-trans g h = record {
  told_kept = λ o t. h.told_kept o (g.told_kept o t);
  childs_eq = h.childs_eq ∙ g.childs_eq;
  maxcon_eq = h.maxcon_eq ∙ g.maxcon_eq;
}

pub add-Grows : (e : Effect) (p : Poll) → Grows p (add e p)
unfolding add
add-Grows e p = record {
  told_kept = λ o h. any-append (is_die o) p.done (e ∷ []) ∙ ground (arith, h);
  childs_eq = refl;
  maxcon_eq = refl;
}

choose-Grows :
    (b : Bool) (p : Poll) (x y : Bool × Poll)
    → Grows p x.1
    → Grows p y.1
    → Grows p (if b then x else y).1
choose-Grows true p x y g h = g
choose-Grows false p x y g h = h

pub ipc_master_send-Grows :
    (os : Os) (c : Child) (m : Message) (p : Poll) → Grows p (ipc_master_send os c m p).1
unfolding ipc_master_send
ipc_master_send-Grows os c m p = choose-Grows _ p _ _ (add-Grows _ p) (add-Grows _ p)

pub user_loop-Grows :
    (os : Os) (o : ℕ) (name : Text) (cs : List Child) (p : Poll)
    → Holds (Grows p) (user_loop os o name cs p)
unfolding user_loop
user_loop-Grows os o name [] p = Grows-refl p
user_loop-Grows os o name (c ∷ cs) p =
    let die =
      add_args (name ∷ codes "You are logged from another location." ∷ [])
        (message (codes "DIE")) in
    choose-Holds (Grows p) (not (c.object == o) && same_name c.username name) _ _
      (Holds-bind (Grows p) die _ (λ m.
        Holds-map (Grows (ipc_master_send os c m p).1) (Grows p)
          (user_loop os o name cs (ipc_master_send os c m p).1)
          (λ q g. Grows-trans (ipc_master_send-Grows os c m p) g)
          (user_loop-Grows os o name cs (ipc_master_send os c m p).1)))
      (user_loop-Grows os o name cs p)

broadcast_loop-Grows :
    (os : Os) (m : Message) (butone : Option ℕ) (cs : List Child) (ret : Bool) (p : Poll)
    → Grows p (broadcast_loop os m butone cs ret p).1
unfolding broadcast_loop
broadcast_loop-Grows os m butone [] ret p = Grows-refl p
broadcast_loop-Grows os m butone (c ∷ cs) ret p =
    let sent = ipc_master_send os c m p in
    choose-Grows _ p _ _ (broadcast_loop-Grows os m butone cs ret p) (
      Grows-trans (ipc_master_send-Grows os c m p)
        (broadcast_loop-Grows os m butone cs (sent.0 || ret) sent.1))

broadcast-Grows :
    (os : Os) (m : Message) (butone : Option ℕ) (p : Poll)
    → Grows p (ipc_master_broadcast os m butone p).1
unfolding ipc_master_broadcast
broadcast-Grows os m butone p = broadcast_loop-Grows os m butone p.childs false p

rehash-Grows : (os : Os) (p : Poll) → Grows p (rehash os p)
unfolding rehash
rehash-Grows os p =
    elim p.irc
      as (λ i. Grows p (elim i [
        | some j ↦ add rehash_session p
        | none ↦ (ipc_master_broadcast os (message (codes "REHASH")) none p).1
      ])) [
        | none ↦ broadcast-Grows os (message (codes "REHASH")) none p
        | some i ↦ add-Grows rehash_session p
      ]

-- a handler that only sends and logs
abbrev Quiet : (Os → Option Child → Message → Poll → Result Poll) → Type 0
Quiet f =
    (os : Os) (child : Option Child) (m : Message) (p : Poll) → Holds (Grows p) (f os child m p)

m_oper-Quiet : Quiet m_oper
unfolding m_oper
m_oper-Quiet os none m p = Holds-bind (Grows p) (get_arg 0 m) _ (λ nick. add-Grows _ p)
m_oper-Quiet os (some c) m p =
    Holds-bind (Grows p) (get_arg 0 m) _
      (λ nick. Grows-trans (broadcast-Grows os m (some c.object) p) (add-Grows _ _))

m_wallops-Quiet : Quiet m_wallops
unfolding m_wallops
m_wallops-Quiet os (some c) m p = broadcast-Grows os m none p
m_wallops-Quiet os none m p =
    elim p.irc
      as (λ i. Holds (Grows p) (elim i [
        | none ↦ ok p
        | some j ↦ (do
          nick ← get_arg 0 m
          text ← get_arg 1 m
          msg ← add_arg text (set_sender_name nick (message (codes "WALLOPS")))
          ok (add (to_user msg) p))
      ])) [
        | none ↦ Grows-refl p
        | some i ↦ Holds-bind (Grows p) (get_arg 0 m) _ (λ nick.
            Holds-bind (Grows p) (get_arg 1 m) _ (λ text.
              Holds-bind (Grows p) (add_arg text (set_sender_name nick (message (codes "WALLOPS"))))
                _ (λ msg. add-Grows (to_user msg) p)))
      ]

m_rehash-Quiet : Quiet m_rehash
unfolding m_rehash
m_rehash-Quiet os child m p = rehash-Grows os p

m_die-Quiet : Quiet m_die
unfolding m_die
m_die-Quiet os child m p = Holds-bind (Grows p) (get_arg 0 m) _ (λ nick.
    Holds-bind (Grows p) (get_arg 1 m) _ (λ reason.
      let before : Poll = elim child [ none ↦ p | some c ↦ (ipc_master_broadcast os m none p).1 ] in
      let note = logged true (codes "Shutdown requested by " ++ (nick ++ (codes ": " ++ reason))) in
      let sent : Grows p before =
        elim child
          as (λ x. Grows p (elim x [ none ↦ p | some c ↦ (ipc_master_broadcast os m none p).1 ])) [
            | none ↦ Grows-refl p
            | some c ↦ broadcast-Grows os m none p
          ] in
      let noted = Grows-trans sent (add-Grows note before) in
      elim p.irc
        as (λ i. Grows p (elim i [
          | some j ↦ add (quit_session (codes "Shutdown requested by " ++ nick)) (add note before)
          | none ↦ add quit_application (add note before)
        ])) [
          | none ↦ Grows-trans noted (add-Grows _ _)
          | some i ↦ Grows-trans noted (add-Grows _ _)
        ]))

-- the rows of the table
abbrev Row : (Command → Type 0) → Option Command → Type 0
Row P none = Unit
Row P (some r) = P r

abbrev Rows : (Command → Type 0) → List Command → Type 0
Rows P [] = Unit
Rows P (r ∷ rs) = P r × Rows P rs

choose-Row :
    (P : Command → Type 0) (b : Bool) (x y : Option Command)
    → Row P x
    → Row P y
    → Row P (if b then x else y)
choose-Row P true x y g h = g
choose-Row P false x y g h = h

lookup-Row :
    (P : Command → Type 0) (cmd : Text) (rs : List Command) → Rows P rs → Row P (lookup cmd rs)
unfolding lookup
lookup-Row P cmd [] h = tt
lookup-Row P cmd (r ∷ rs) (h, hs) =
    choose-Row P (text_eq cmd r.cmd) (some r) (lookup cmd rs) h (lookup-Row P cmd rs hs)

Row-cases :
    (P : Poll → Type 0) (os : Os) (child : Option Child) (buf : Text) (m : Message) (p : Poll)
    → ((q : Poll) → Grows p q → P q)
    → (row : Option Command) → Row (λ r. Holds P (r.func os child m p)) row
    → Holds P (elim row [
      | none ↦ ok (add (logged false (codes "Received unknown command from IPC: " ++ buf)) p)
      | some r ↦
          if ltb (length m.args) r.min_args
          then ok (add (logged false (codes "Received malformated command from IPC: " ++ buf)) p)
          else r.func os child m p
    ])
Row-cases P os child buf m p g none h = g _ (add-Grows _ p)
Row-cases P os child buf m p g (some r) h =
    choose-Holds P (ltb (length m.args) r.min_args) _ _ (g _ (add-Grows _ p)) h

-- Every command but USER keeps what DIE and the logs keep.
pub dispatch-Holds :
    (P : Poll → Type 0) (os : Os) (child : Option Child) (buf : Text) (m : Message) (p : Poll)
    → ((q : Poll) → Grows p q → P q)
    → Holds P (m_user os child m p)
    → Holds P (dispatch os child buf m p)
unfolding dispatch ipc_cmds
dispatch-Holds P os child buf m p g u =
    let quiet : (f : Os → Option Child → Message → Poll → Result Poll)
        → Quiet f
        → Holds P (f os child m p) =
      λ f q. Holds-map (Grows p) P (f os child m p) g (q os child m p) in
    Row-cases P os child buf m p g (lookup m.cmd ipc_cmds) (
      lookup-Row (λ r. Holds P (r.func os child m p)) m.cmd ipc_cmds
        (
          quiet m_wallops m_wallops-Quiet,
          (
            quiet m_rehash m_rehash-Quiet,
            (quiet m_die m_die-Quiet, (quiet m_oper m_oper-Quiet, (u, tt))),
          ),
        ))
