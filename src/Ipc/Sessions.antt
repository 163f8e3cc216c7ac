-- ===== src/Ipc/Sessions.antt =====
-- `m_user` of src/server_poll/daemon_fork.cpp: one session for a user.
use minbif.Prelude.{
  ℕ, ◌≡◌, refl, ap, sym, ◌∙◌, Bool, true, false, not, ◌&&◌, List, [], ◌∷◌, map, some, Text, codes,
  has, append_assoc, append-nil, ◌==◌, if◌then◌else◌, Bool-cases, inl, inr,
}
use minbif.Result.{Result, ok}
use minbif.Message.{Message, message, get_arg, add_arg, spaced_back}
use minbif.Irc.{add_args}
use minbif.Ipc.{Child, Poll, Os, Effect, set_username, same_name, user_loop, m_user}
use minbif.Ipc.Broadcast.{sending, with_done, ipc_master_send_lem}

-- the other children whose user has the name
abbrev pub others : ℕ → Text → List Child → List Child
others o name [] = []
others o name (c ∷ cs) =
    let rest = others o name cs in
    if not (c.object == o) && same_name c.username name then c ∷ rest else rest

abbrev pub die : Text → Message
die name = record (message (codes "DIE")) {
  args = name ∷ codes "You are logged from another location." ∷ [];
}

pub die_lem :
    (name : Text)
    → has b' ' name ≡ false
    → add_args (name ∷ codes "You are logged from another location." ∷ []) (message (codes "DIE"))
      ≡ ok (die name)
unfolding add_args add_arg spaced_back
die_lem name h = rw h refl

others_more :
    (o : ℕ) (name : Text) (c : Child) (cs : List Child)
    → (not (c.object == o) && same_name c.username name) ≡ true
    → others o name (c ∷ cs) ≡ c ∷ others o name cs
others_more o name c cs e = rw e refl

others_same :
    (o : ℕ) (name : Text) (c : Child) (cs : List Child)
    → (not (c.object == o) && same_name c.username name) ≡ false
    → others o name (c ∷ cs) ≡ others o name cs
others_same o name c cs e = rw e refl

ended : Poll → List Effect → Result Poll
ended p es = ok (record p { done = es })

pub user_loop_lem :
    (os : Os) (o : ℕ) (name : Text) (cs : List Child) (p : Poll)
    → has b' ' name ≡ false
    → user_loop os o name cs p ≡ ok (with_done p (map (sending os (die name)) (others o name cs)))
unfolding user_loop ended
user_loop_lem os o name [] p h = ap (ended p) (sym (append-nil p.done))
user_loop_lem os o name (c ∷ cs) p h =
    elim (Bool-cases (not (c.object == o) && same_name c.username name)) [
      | inl e ↦
          let one = with_done p (sending os (die name) c ∷ []) in
          let told : user_loop os o name (c ∷ cs) p ≡ user_loop os o name cs one =
            rw (user_loop, e, die_lem name h)
              (ap (λ (x : Bool × Poll). user_loop os o name cs x.1)
                (ipc_master_send_lem os c (die name) p)) in
          told
          ∙ user_loop_lem os o name cs one h
          ∙ ap (ended p) (
              append_assoc p.done (sending os (die name) c ∷ [])
                (map (sending os (die name)) (others o name cs)))
          ∙ ap (λ cs'. ok (with_done p (map (sending os (die name)) cs')))
              (sym (others_more o name c cs e))
      | inr e ↦
          let told : user_loop os o name (c ∷ cs) p ≡ user_loop os o name cs p =
            rw (user_loop, e) refl in
          told
          ∙ user_loop_lem os o name cs p h
          ∙ ap (λ cs'. ok (with_done p (map (sending os (die name)) cs')))
              (sym (others_same o name c cs e))
    ]

-- A child that tells its user's name, which has no space, gets that name, and DIE is sent to all other
-- children whose user has the same name in any case, in order, to no one else, and nothing else changes.
pub m_user_lem :
    (os : Os) (c : Child) (m : Message) (name : Text) (rest : List Text) (p : Poll)
    → m.args ≡ name ∷ rest
    → has b' ' name ≡ false
    → m_user os (some c) m p
      ≡ ok (
          with_done
            (record p { childs = set_username c.object name p.childs })
            (map
              (sending os (die name))
              (others c.object name (set_username c.object name p.childs))))
unfolding m_user get_arg
m_user_lem os c m name rest p a h =
    let childs = set_username c.object name p.childs in
    ap (λ xs. m_user os (some c) (record m { args = xs }) p) a
    ∙ user_loop_lem os c.object name childs (record p { childs = childs }) h
