-- ===== src/Ipc/Broadcast.antt =====
-- `ipc_master_broadcast` of src/server_poll/daemon_fork.cpp, against its documentation in
-- src/server_poll/daemon_fork.h.
use minbif.Prelude.{
  ℕ, ◌≡◌, refl, ap, sym, ◌∙◌, Bool, false, ◌||◌, List, [], ◌∷◌, ◌++◌, map, Option, none, some,
  codes, append_assoc, append-nil, any, ◌==◌, if◌then◌else◌, Bool-cases, inl, inr, arith,
}
use minbif.Message.{Message, format}
use minbif.Ipc.{
  Child, Poll, Os, Effect, to_child, logged, add, ipc_master_send, broadcast_loop,
  ipc_master_broadcast,
}

-- whether the child is the one to leave out
abbrev pub is_spared : Option ℕ → Child → Bool
is_spared butone c = elim butone [ none ↦ false | some o ↦ o == c.object ]

-- the children that are to get the message
abbrev pub listeners : Option ℕ → List Child → List Child
listeners butone [] = []
listeners butone (c ∷ cs) =
    let rest = listeners butone cs in if is_spared butone c then rest else c ∷ rest

-- what is done for one of them
abbrev pub sending : Os → Message → Child → Effect
sending os m c =
    if os.writes c.fd (format m)
    then to_child c.object c.fd (format m)
    else logged false (codes "Error while sending: ")

-- whether one of them gets it
abbrev pub gets : Os → Message → Child → Bool
gets os m c = os.writes c.fd (format m)

abbrev pub with_done : Poll → List Effect → Poll
with_done p es = record p { done = p.done ++ es }

pub ipc_master_send_lem :
    (os : Os) (c : Child) (m : Message) (p : Poll)
    → ipc_master_send os c m p ≡ (gets os m c, with_done p (sending os m c ∷ []))
unfolding ipc_master_send add
ipc_master_send_lem os c m p = elim (Bool-cases (os.writes c.fd (format m))) [
  | inl e ↦ rw (ipc_master_send, e) refl
  | inr e ↦ rw (ipc_master_send, e) refl
]

abbrev pub outcome : Bool → Poll → List Effect → Bool × Poll
outcome b p es = (b, with_done p es)

listened :
    (butone : Option ℕ) (c : Child) (cs : List Child)
    → is_spared butone c ≡ false
    → listeners butone (c ∷ cs) ≡ c ∷ listeners butone cs
listened butone c cs e = rw e refl

broadcast_loop_lem :
    (os : Os) (m : Message) (butone : Option ℕ) (cs : List Child) (ret : Bool) (p : Poll)
    → broadcast_loop os m butone cs ret p
      ≡ outcome
          (ret || any (gets os m) (listeners butone cs))
          p
          (map (sending os m) (listeners butone cs))
unfolding broadcast_loop
broadcast_loop_lem os m butone [] ret p =
    let none_more : (ret || false) ≡ ret = ground arith in rw (append-nil p.done, none_more) refl
broadcast_loop_lem os m butone (c ∷ cs) ret p =
    let rest = listeners butone cs in
    let one = with_done p (sending os m c ∷ []) in
    elim (Bool-cases (is_spared butone c)) [
      | inl e ↦ rw (broadcast_loop, e) (broadcast_loop_lem os m butone cs ret p)
      | inr e ↦
          let told : broadcast_loop os m butone (c ∷ cs) ret p
              ≡ broadcast_loop os m butone cs (gets os m c || ret) one =
            rw (broadcast_loop, e)
              (ap (λ (x : Bool × Poll). broadcast_loop os m butone cs (x.0 || ret) x.1)
                (ipc_master_send_lem os c m p)) in
          let order : ((gets os m c || ret) || any (gets os m) rest)
              ≡ (ret || (gets os m c || any (gets os m) rest)) =
            ground arith in
          told
          ∙ broadcast_loop_lem os m butone cs (gets os m c || ret) one
          ∙ ap (λ b. outcome b one (map (sending os m) rest)) order
          ∙ ap
              (λ es.
                outcome (ret || (gets os m c || any (gets os m) rest)) (record p { done = [] }) es)
              (append_assoc p.done (sending os m c ∷ []) (map (sending os m) rest))
          ∙ ap (λ cs'. outcome (ret || any (gets os m) cs') p (map (sending os m) cs'))
              (sym (listened butone c cs e))
    ]

-- A message of the master is written to every child, in order, or to every one but the child that is
-- left out; where write fails, that is logged. The result tells whether some child has got it.
pub ipc_master_broadcast_lem :
    (os : Os) (m : Message) (butone : Option ℕ) (p : Poll)
    → ipc_master_broadcast os m butone p ≡ (
      any (gets os m) (listeners butone p.childs),
      with_done p (map (sending os m) (listeners butone p.childs)),
    )
unfolding ipc_master_broadcast
ipc_master_broadcast_lem os m butone p = broadcast_loop_lem os m butone p.childs false p
