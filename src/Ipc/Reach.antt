-- ===== src/Ipc/Reach.antt =====
-- The processes that the master of src/server_poll/daemon_fork.cpp reaches, by connections and by the
-- messages of its children.
use minbif.Prelude.{
  ℕ, ◌+◌, ◌<◌, ◌≡◌, ◌⊎◌, inl, inr, refl, Bool, true, false, ◌&&◌, List, [], ◌∷◌, ◌++◌, Option, none,
  some, Text, codes, is_empty, length, take, ltb, leb, if◌then◌else◌, Bool-cases, arith, subst,
}
use minbif.Result.{Result, ok, err, ◌>>=◌}
use minbif.Message.{Message, parse}
use minbif.Ipc.{
  Served, Child, Poll, Os, again, gone, bytes, closed, refused, logged, quit_application, Waiting,
  drop, line_of, add, m_user, dispatch, erase_child, ipc_read,
}
use minbif.Ipc.Clients.{
  Connection, Fork, fork_failed, fork_parent, fork_child, new_client, in_parent, in_child,
  close_childs,
}
use minbif.Ipc.Quiet.{Holds, Holds-bind, Grows, Grows-refl, Grows-trans, add-Grows, dispatch-Holds}

-- membership
abbrev pub In : Child → List Child → Type 0
In c [] = ⊥
In c (d ∷ ds) = (c ≡ d) ⊎ In c ds

-- the child that a message comes from; none is the master
abbrev pub IsFrom : Option Child → Poll → Type 0
IsFrom none p = Unit
IsFrom (some c) p = In c p.childs

-- A connection, or what recv finds on the socket of a child or of the master.
pub data Step (os : Os) : Poll → Poll → Type 0 where
  client : (o : Connection) (p : Poll) → Step os p (new_client o p)
  read :
      (child : Option Child) (w : Waiting) (p : Poll) {keep : Bool} {rest : Text} {after : Poll}
      → IsFrom child p
      → ipc_read os child w p ≡ ok (keep, rest, after)
      → Step os p after

pub data Reach (os : Os) : Poll → Poll → Type 0 where
  here : (p : Poll) → Reach os p p
  step : {p q r : Poll} → Reach os p q → Step os q r → Reach os p r

abbrev pub After : (Poll → Type 0) → Bool × Text × Poll → Type 0
After P (keep, rest, q) = P q

-- the process when a child has left
abbrev pub left : ℕ → Poll → Poll
left fd p = add (closed fd) (record (add (logged false (codes "IPC: a child left: ")) p) {
  childs = erase_child fd p.childs;
})

Holds-step :
    {A B : Type 0} (P : A → Type 0) (Q : B → Type 0) (r : Result A) (f : A → Result B)
    → ((a : A) → P a → Holds Q (f a))
    → Holds P r
    → Holds Q (r >>= f)
Holds-step P Q (ok a) f h k = h a k
Holds-step P Q (err e) f h k = tt

-- there is room for one more child
abbrev pub Room : Poll → Type 0
Room p = 0 < p.maxcon → length p.childs < p.maxcon

abbrev pub with_child : Child → Poll → Poll
with_child d p = record p { childs = p.childs ++ d ∷ [] }

close_childs-Grows : (cs : List Child) (p : Poll) → Grows p (close_childs cs p)
unfolding close_childs
close_childs-Grows [] p = Grows-refl p
close_childs-Grows (c ∷ cs) p =
    Grows-trans (add-Grows (closed c.fd) p) (close_childs-Grows cs (add (closed c.fd) p))

linked-Grows : (s : Option ℕ) (p : Poll) → Grows p (record p { sock = s })
linked-Grows s p = record { told_kept = λ o h. h; childs_eq = refl; maxcon_eq = refl }

served-Grows : (i : Option Served) (p : Poll) → Grows p (record p { irc = i })
served-Grows i p = record { told_kept = λ o h. h; childs_eq = refl; maxcon_eq = refl }

cleared-Grows :
    {p q : Poll} → Grows p q → Grows (record p { childs = [] }) (record q { childs = [] })
cleared-Grows g = record { told_kept = g.told_kept; childs_eq = refl; maxcon_eq = g.maxcon_eq }

module _ (P : Poll → Type 0) (p : Poll) (g : (q : Poll) → Grows p q → P q)
    (e : (q : Poll) → Grows (record p { childs = [] }) q → P q)
    (j : Room p
      → (d : Child) → is_empty d.username ≡ true
      → (q : Poll) → Grows (with_child d p) q
      → P q) where
  in_parent-Holds : (socket : ℕ) (pair : Option (ℕ × ℕ)) → Room p → P (in_parent socket pair p)
  unfolding in_parent add
  in_parent-Holds socket none r = g _ (add-Grows (closed socket) p)
  in_parent-Holds socket (some (a, b)) r =
      let d : Child = record { object = p.next; fd = a; username = [] } in
      j r d refl _ (record {
        told_kept = λ o h.
            (add-Grows (closed b) (add (closed socket) p)).told_kept o
              ((add-Grows (closed socket) p).told_kept o h);
        childs_eq = refl;
        maxcon_eq = refl;
      })

  -- the socket that listens is closed
  abbrev deaf : Poll
  deaf = elim p.sock [ none ↦ p | some fd ↦ add (closed fd) p ]

  alone-Grows : Grows p (record deaf { sock = none })
  alone-Grows =
      let closing : Grows p deaf =
        elim p.sock as (λ x. Grows p (elim x [ none ↦ p | some fd ↦ add (closed fd) p ])) [
          | none ↦ Grows-refl p
          | some fd ↦ add-Grows (closed fd) p
        ] in
      Grows-trans closing (linked-Grows none deaf)

  mine-Grows :
      (a b : ℕ)
      → Grows
          (record p { childs = [] })
          (record (close_childs p.childs (add (closed a) (record deaf { sock = some b }))) {
            childs = [];
          })
  mine-Grows a b =
      let open_pair = record deaf { sock = some b } in
      cleared-Grows (
        Grows-trans alone-Grows (
          Grows-trans (linked-Grows (some b) (record deaf { sock = none })) (
            Grows-trans (add-Grows (closed a) open_pair)
              (close_childs-Grows p.childs (add (closed a) open_pair)))))

  in_child-Holds : (pair : Option (ℕ × ℕ)) (started : Option Served) → P (in_child pair started p)
  unfolding in_child
  in_child-Holds none (some i) = g _ (Grows-trans alone-Grows (served-Grows (some i) _))
  in_child-Holds none none = g _ (Grows-trans alone-Grows (add-Grows quit_application _))
  in_child-Holds (some (a, b)) (some i) =
      e _ (Grows-trans (mine-Grows a b) (served-Grows (some i) _))
  in_child-Holds (some (a, b)) none =
      e _ (Grows-trans (mine-Grows a b) (add-Grows quit_application _))

  forked-Holds :
      (o : Connection) (socket : ℕ)
      → Room p
      → (f : Fork)
      → P (elim f [
        | fork_failed ↦ add (closed socket) p
        | fork_parent ↦ in_parent socket o.pair p
        | fork_child ↦ in_child o.pair o.started p
      ])
  forked-Holds o socket r fork_failed = g _ (add-Grows (closed socket) p)
  forked-Holds o socket r fork_parent = in_parent-Holds socket o.pair r
  forked-Holds o socket r fork_child = in_child-Holds o.pair o.started

  pub new_client-Holds : (o : Connection) → P (new_client o p)
  unfolding new_client
  new_client-Holds o =
      elim o.accepted
        as (λ x. P (elim x [
          | none ↦ p
          | some socket ↦
              if ltb 0 p.maxcon && leb p.maxcon (length p.childs)
              then add (closed socket) (add (refused socket) p)
              else elim o.forked [
                | fork_failed ↦ add (closed socket) p
                | fork_parent ↦ in_parent socket o.pair p
                | fork_child ↦ in_child o.pair o.started p
              ]
        ])) [
          | none ↦ g p (Grows-refl p)
          | some socket ↦ elim (Bool-cases (ltb 0 p.maxcon && leb p.maxcon (length p.childs))) [
            | inl full ↦ rw full (
                g _ (
                  Grows-trans (add-Grows (refused socket) p)
                    (add-Grows (closed socket) (add (refused socket) p))))
            | inr room ↦ rw room (forked-Holds o socket (λ n. ground arith) o.forked)
          ]
        ]

-- What ipc_read keeps: what a child that leaves, USER and the quiet handlers keep.
pub ipc_read-Holds :
    (P : Poll → Type 0) (os : Os) (child : Option Child) (w : Waiting) (p : Poll)
    → ((q : Poll) → Grows p q → P q)
    → ((fd : ℕ) → P (left fd p))
    → ((m : Message) → Holds P (m_user os child m p))
    → Holds (After P) (ipc_read os child w p)
unfolding ipc_read
ipc_read-Holds P os child again p g l u = g p (Grows-refl p)
ipc_read-Holds P os (some c) gone p g l u = l c.fd
ipc_read-Holds P os none gone p g l u =
    let note = add (logged true (codes "IPC: master left: ")) p in
    let base : Poll = elim p.sock [ none ↦ note | some fd ↦ add (closed fd) note ] in
    let noted : Grows p note = add-Grows _ p in
    let grown : Grows p base =
      elim p.sock as (λ x. Grows p (elim x [ none ↦ note | some fd ↦ add (closed fd) note ])) [
        | none ↦ noted
        | some fd ↦ Grows-trans noted (add-Grows (closed fd) note)
      ] in
    g (record base { sock = none }) (Grows-trans grown (linked-Grows none base))
ipc_read-Holds P os child (bytes queue) p g l u =
    elim (line_of (take 511 queue))
      as (λ x. Holds (After P) (elim x [
        | none ↦ ok (true, queue, p)
        | some buf ↦ (do
          m ← parse buf
          after ← dispatch os child buf m p
          ok (true, drop (length buf + 2) queue, after))
      ])) [
        | none ↦ g p (Grows-refl p)
        | some buf ↦ Holds-bind (After P) (parse buf) _ (λ m.
            Holds-step P (After P) (dispatch os child buf m p) _ (λ q h. h)
              (dispatch-Holds P os child buf m p g (u m)))
      ]

-- What every step keeps holds of all that is reached.
pub reach_lem :
    (P : Poll → Type 0) (os : Os) {p q : Poll}
    → ((o : Connection) (r : Poll) → P r → P (new_client o r))
    → ((child : Option Child) (w : Waiting) (r : Poll)
        → P r
        → Holds (After P) (ipc_read os child w r))
    → P p
    → Reach os p q
    → P q
reach_lem P os c r h (here p) = h
reach_lem P os c r h (step way (client o r')) = c o r' (reach_lem P os c r h way)
reach_lem P os c r h (step way (read child w r' from e)) =
    subst (Holds (After P)) e (r child w r' (reach_lem P os c r h way))
