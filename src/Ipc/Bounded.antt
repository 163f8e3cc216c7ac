-- ===== src/Ipc/Bounded.antt =====
-- How many children the master of src/server_poll/daemon_fork.cpp has.
use minbif.Prelude.{
  ℕ, suc, ◌≤◌, ◌<◌, ◌≡◌, refl, ap, false, List, [], ◌∷◌, Option, none, some, Text, codes, length,
  length-append, arith,
}
use minbif.Message.{Message, get_arg}
use minbif.Ipc.{Child, Poll, Os, closed, logged, add, m_user, user_loop, set_username, erase_child}
use minbif.Ipc.Clients.{Connection, new_client}
use minbif.Ipc.Quiet.{Holds, Holds-bind, Holds-map, Grows, add-Grows, user_loop-Grows}
use minbif.Ipc.Reach.{Reach, with_child, left, new_client-Holds, ipc_read-Holds, reach_lem}

-- at most as many children as the configuration says
Bounded : Poll → Type 0
Bounded p = 0 < p.maxcon → length p.childs ≤ p.maxcon

length-set_username :
    (o : ℕ) (name : Text) (cs : List Child) → length (set_username o name cs) ≡ length cs
unfolding set_username
length-set_username o name [] = refl
length-set_username o name (c ∷ cs) = ap suc (length-set_username o name cs)

length-erase_child-le : (fd : ℕ) (cs : List Child) → length (erase_child fd cs) ≤ length cs
unfolding erase_child
length-erase_child-le fd [] = omega arith
length-erase_child-le fd (c ∷ cs) = ground (arith, length-erase_child-le fd cs)

set_childs-Bounded :
    (p : Poll) (cs : List Child)
    → length cs ≤ length p.childs
    → Bounded p
    → Bounded (record p { childs = cs })
unfolding Bounded
set_childs-Bounded p cs h b n = ground (arith, b n)

Grows-Bounded : {p q : Poll} → Bounded p → Grows p q → Bounded q
unfolding Bounded
Grows-Bounded b g = rw (g.childs_eq, g.maxcon_eq) b

left-Bounded : (fd : ℕ) (p : Poll) → Bounded p → Bounded (left fd p)
left-Bounded fd p b =
    let note = add (logged false (codes "IPC: a child left: ")) p in
    let noted = Grows-Bounded b (add-Grows (logged false (codes "IPC: a child left: ")) p) in
    Grows-Bounded
      (set_childs-Bounded note (erase_child fd p.childs)
        (unfold add in length-erase_child-le fd p.childs) noted)
      (add-Grows (closed fd) (record note { childs = erase_child fd p.childs }))

by_eq : {m n : ℕ} → m ≡ n → m ≤ n
by_eq e = omega arith

m_user-Bounded :
    (os : Os) (child : Option Child) (m : Message) (p : Poll)
    → Bounded p
    → Holds Bounded (m_user os child m p)
unfolding m_user
m_user-Bounded os none m p b = b
m_user-Bounded os (some c) m p b = Holds-bind Bounded (get_arg 0 m) _ (λ name.
    let renamed = record p { childs = set_username c.object name p.childs } in
    let kept : Bounded renamed =
      set_childs-Bounded p (set_username c.object name p.childs)
        (by_eq (length-set_username c.object name p.childs)) b in
    Holds-map (Grows renamed) Bounded (user_loop os c.object name renamed.childs renamed)
      (λ q g. Grows-Bounded kept g) (user_loop-Grows os c.object name renamed.childs renamed))

new_client-Bounded : (o : Connection) (p : Poll) → Bounded p → Bounded (new_client o p)
unfolding Bounded
new_client-Bounded o p b =
    new_client-Holds Bounded p (λ q g. Grows-Bounded b g)
      (λ q g. Grows-Bounded {p = record p { childs = [] }} (λ n. omega arith) g)
      (λ r d e q g.
        Grows-Bounded {p = with_child d p}
          (λ n. ground (arith, r n, length-append p.childs (d ∷ []))) g)
      o

-- With a limit on the connections, the master never has more children than that, whatever connections,
-- messages and departures there are.
pub childs_bounded :
    (os : Os) (start p : Poll)
    → start.childs ≡ []
    → Reach os start p
    → 0 < p.maxcon
    → length p.childs ≤ p.maxcon
unfolding Bounded
childs_bounded os start p none_yet way =
    let first_one : Bounded start = λ n. rw none_yet (omega arith) in
    reach_lem Bounded os new_client-Bounded
      (λ child w r b.
        ipc_read-Holds Bounded os child w r (λ q g. Grows-Bounded b g) (λ fd. left-Bounded fd r b)
          (λ m. m_user-Bounded os child m r b))
      first_one way
