-- ===== src/Ipc/Told.antt =====
-- One session for a user, in whatever the master of src/server_poll/daemon_fork.cpp reaches.
use minbif.Prelude.{
  ℕ, ◌≡◌, ◌⊎◌, inl, inr, refl, ap, sym, ◌∙◌, Bool, true, false, not, ◌&&◌, ◌||◌, List, [], ◌∷◌,
  ◌++◌, Option, none, some, Text, codes, has, is_empty, any-append, text_eq, text_eq_refl,
  eq_of_text_eq, ◌==◌, if◌then◌else◌, Bool-cases, arith, subst,
}
use minbif.Result.{err, malformed}
use minbif.Irc.{add_args}
use minbif.Message.{
  strlower, is_set, format_args, add_arg, spaced_back, Message, message, get_arg, add_arg,
  set_sender_name, format, parse,
}
use minbif.Ipc.{
  Child, Poll, Os, closed, logged, add, ipc_master_send, m_user, user_loop, set_username, same_name,
  erase_child,
}
use minbif.Ipc.Broadcast.{sending, ipc_master_send_lem}
use minbif.Ipc.Sessions.{die, die_lem}
use minbif.Ipc.Quiet.{
  is_die, told, Holds, Holds-bind, Holds-map, Grows, Grows-refl, Grows-trans, ipc_master_send-Grows,
  add-Grows,
}
use minbif.Ipc.Reach.{In, Reach, with_child, left, new_client-Holds, ipc_read-Holds, reach_lem}

-- of two children whose users have the same name, one has been sent DIE
abbrev Once : Poll → Type 0
Once p =
    (a b : Child)
    → In a p.childs
    → In b p.childs
    → (a.object == b.object) ≡ false
    → is_empty a.username ≡ false
    → same_name a.username b.username ≡ true
    → (told a.object p || told b.object p) ≡ true

or_mono :
    {a b c d : Bool}
    → (a ≡ true → c ≡ true)
    → (b ≡ true → d ≡ true)
    → (a || b) ≡ true
    → (c || d) ≡ true
or_mono {a = true} f g h = ground (arith, f refl)
or_mono {a = false} {b = true} f g h = ground (arith, g refl)
or_mono {a = false} {b = false} f g h = absurd (ground arith)

Grows-Once : {p q : Poll} → Once p → Grows p q → Once q
Grows-Once h g a b ia ib d e s =
    or_mono (g.told_kept a.object) (g.told_kept b.object)
      (h a b (subst (In a) g.childs_eq ia) (subst (In b) g.childs_eq ib) d e s)

In-choose :
    (a : Child) (b : Bool) (xs ys : List Child) → In a (if b then xs else ys) → In a xs ⊎ In a ys
In-choose a true xs ys i = inl i
In-choose a false xs ys i = inr i

In-erase_child : (a : Child) (fd : ℕ) (cs : List Child) → In a (erase_child fd cs) → In a cs
unfolding erase_child
In-erase_child a fd [] i = i
In-erase_child a fd (c ∷ cs) i = elim (In-choose a (fd == c.fd) _ _ i) [
  | inl k ↦ inr (In-erase_child a fd cs k)
  | inr (inl e) ↦ inl e
  | inr (inr k) ↦ inr (In-erase_child a fd cs k)
]

In-append : (a d : Child) (cs : List Child) → In a (cs ++ d ∷ []) → In a cs ⊎ (a ≡ d)
In-append a d [] (inl e) = inr e
In-append a d [] (inr i) = elim i [ ]
In-append a d (c ∷ cs) (inl e) = inl (inl e)
In-append a d (c ∷ cs) (inr i) = elim (In-append a d cs i) [ inl k ↦ inl (inr k) | inr e ↦ inr e ]

In-set_username :
    (a : Child) (o : ℕ) (name : Text) (cs : List Child)
    → In a (set_username o name cs)
    → ((a.object == o) ≡ true) × (a.username ≡ name) ⊎ ((a.object == o) ≡ false) × In a cs
unfolding set_username
In-set_username a o name [] i = elim i [ ]
In-set_username a o name (c ∷ cs) (inl e) = elim (Bool-cases (c.object == o)) [
  | inl t ↦
      let here : a ≡ record c { username = name } = e ∙ rw t refl in
      inl (ap (λ x. x.object == o) here ∙ t, ap (λ x. x.username) here)
  | inr t ↦ let here : a ≡ c = e ∙ rw t refl in inr (ap (λ x. x.object == o) here ∙ t, inl here)
]
In-set_username a o name (c ∷ cs) (inr i) = elim (In-set_username a o name cs i) [
  | inl k ↦ inl k
  | inr (d, k) ↦ inr (d, inr k)
]

same_name_sym : (a b : Text) → same_name a b ≡ true → same_name b a ≡ true
unfolding same_name
same_name_sym a b h =
    subst (λ x. text_eq x (strlower a) ≡ true) (eq_of_text_eq (strlower a) (strlower b) h)
      (text_eq_refl (strlower a))

same_name_empty : (a b : Text) → is_empty b ≡ true → same_name a b ≡ true → is_empty a ≡ true
unfolding same_name strlower
same_name_empty [] b e h = refl
same_name_empty (x ∷ a) [] e h = absurd (ground arith)
same_name_empty (x ∷ a) (y ∷ b) e h = absurd (ground arith)

with_child-Once :
    (d : Child) (p : Poll) → is_empty d.username ≡ true → Once p → Once (with_child d p)
with_child-Once d p n h a b ia ib k e s = elim (In-append a d p.childs ia) [
  | inr t ↦ absurd (ground (arith, n, e, ap (λ x. is_empty x.username) t))
  | inl ja ↦ elim (In-append b d p.childs ib) [
    | inr t ↦
        let empty = same_name_empty a.username b.username (ap (λ x. is_empty x.username) t ∙ n) s in
        absurd (ground (arith, e, empty))
    | inl jb ↦ h a b ja jb k e s
  ]
]

left-Once : (fd : ℕ) (p : Poll) → Once p → Once (left fd p)
left-Once fd p h =
    let note = add (logged false (codes "IPC: a child left: ")) p in
    let noted : Once note =
      Grows-Once h (add-Grows (logged false (codes "IPC: a child left: ")) p) in
    let fewer : Once (record note { childs = erase_child fd p.childs }) = λ a b ia ib.
      noted a b (unfold add in In-erase_child a fd p.childs ia)
        (unfold add in In-erase_child b fd p.childs ib) in
    Grows-Once fewer (add-Grows (closed fd) (record note { childs = erase_child fd p.childs }))

abbrev matches : ℕ → Text → Child → Bool
matches o name c = not (c.object == o) && same_name c.username name

-- what m_user does to the other children
record Tells (o : ℕ) (name : Text) (cs : List Child) (p q : Poll) : Type 0 where
  grows : Grows p q
  told_eq : (d : Child) → In d cs → matches o name d ≡ true → told d.object q ≡ true

-- DIE, written
die-told :
    (os : Os) (c : Child) (name : Text) (p : Poll)
    → ((fd : ℕ) (t : Text) → os.writes fd t ≡ true)
    → told c.object (ipc_master_send os c (die name) p).1 ≡ true
unfolding minbif.Message.format is_set format_args
die-told os c name p w =
    let m = die name in
    let sent : is_die c.object (sending os m c) ≡ true = rw (w c.fd (format m)) (ground arith) in
    subst (λ (x : Bool × Poll). told c.object x.1 ≡ true) (sym (ipc_master_send_lem os c m p))
      (any-append (is_die c.object) p.done (sending os m c ∷ []) ∙ ground (arith, sent))

-- the three ways of a round of the loop of m_user
module _ (os : Os) (o : ℕ) (name : Text) (c : Child) (cs : List Child) (p : Poll) where
  user_loop_tells :
      matches o name c ≡ true
      → has b' ' name ≡ false
      → user_loop os o name (c ∷ cs) p
        ≡ user_loop os o name cs (ipc_master_send os c (die name) p).1
  unfolding user_loop
  user_loop_tells e h = rw (user_loop, e, die_lem name h) refl

  user_loop_throws :
      matches o name c ≡ true
      → has b' ' name ≡ true
      → user_loop os o name (c ∷ cs) p ≡ err malformed
  unfolding user_loop add_args add_arg spaced_back
  user_loop_throws e h = rw (user_loop, e, h) refl

  user_loop_passes :
      matches o name c ≡ false → user_loop os o name (c ∷ cs) p ≡ user_loop os o name cs p
  unfolding user_loop
  user_loop_passes e = rw (user_loop, e) refl

Tells-first :
    (os : Os) (o : ℕ) (name : Text) (c : Child) (cs : List Child) (p q : Poll)
    → ((fd : ℕ) (t : Text) → os.writes fd t ≡ true)
    → Tells o name cs (ipc_master_send os c (die name) p).1 q
    → Tells o name (c ∷ cs) p q
Tells-first os o name c cs p q w t = record {
  grows = Grows-trans (ipc_master_send-Grows os c (die name) p) t.grows;
  told_eq = λ d i e. elim i [
    | inl k ↦ t.grows.told_kept d.object (
        subst (λ x. told x.object (ipc_master_send os c (die name) p).1 ≡ true) (sym k)
          (die-told os c name p w))
    | inr j ↦ t.told_eq d j e
  ];
}

Tells-rest :
    (o : ℕ) (name : Text) (c : Child) (cs : List Child) (p q : Poll)
    → matches o name c ≡ false
    → Tells o name cs p q
    → Tells o name (c ∷ cs) p q
Tells-rest o name c cs p q n t = record {
  grows = t.grows;
  told_eq = λ d i e. elim i [
    | inl k ↦ absurd (ground (arith, n, subst (λ x. matches o name x ≡ true) k e))
    | inr j ↦ t.told_eq d j e
  ];
}

user_loop-Tells :
    (os : Os) (o : ℕ) (name : Text) (cs : List Child) (p : Poll)
    → ((fd : ℕ) (t : Text) → os.writes fd t ≡ true)
    → Holds (Tells o name cs p) (user_loop os o name cs p)
unfolding user_loop
user_loop-Tells os o name [] p w = record { grows = Grows-refl p; told_eq = λ d i. elim i [ ] }
user_loop-Tells os o name (c ∷ cs) p w =
    let after = (ipc_master_send os c (die name) p).1 in
    let T = Tells o name (c ∷ cs) p in
    elim (Bool-cases (matches o name c)) [
      | inr e ↦ subst (Holds T) (sym (user_loop_passes os o name c cs p e)) (
          Holds-map (Tells o name cs p) T (user_loop os o name cs p)
            (λ q t. Tells-rest o name c cs p q e t) (user_loop-Tells os o name cs p w))
      | inl e ↦ elim (Bool-cases (has b' ' name)) [
        | inl spaced ↦ subst (Holds T) (sym (user_loop_throws os o name c cs p e spaced)) tt
        | inr clean ↦ subst (Holds T) (sym (user_loop_tells os o name c cs p e clean)) (
            Holds-map (Tells o name cs after) T (user_loop os o name cs after)
              (λ q t. Tells-first os o name c cs p q w t) (user_loop-Tells os o name cs after w))
      ]
    ]

Tells-Once :
    (o : ℕ) (name : Text) (p q : Poll)
    → Once p
    → Tells o name
        (set_username o name p.childs)
        (record p { childs = set_username o name p.childs })
        q
    → Once q
Tells-Once o name p q h t a b ia ib d e s =
    let ja = subst (In a) t.grows.childs_eq ia in
    let jb = subst (In b) t.grows.childs_eq ib in
    elim (In-set_username a o name p.childs ja) [
      | inl (oa, na) ↦
          let same : same_name b.username name ≡ true =
            subst (λ x. same_name b.username x ≡ true) na (same_name_sym a.username b.username s) in
          let other = t.told_eq b jb (ground (arith, d, oa, same)) in ground (arith, other)
      | inr (oa, ka) ↦ elim (In-set_username b o name p.childs jb) [
        | inl (ob, nb) ↦
            let same : same_name a.username name ≡ true =
              subst (λ x. same_name a.username x ≡ true) nb s in
            let other = t.told_eq a ja (ground (arith, oa, same)) in ground (arith, other)
        | inr (ob, kb) ↦
            or_mono (t.grows.told_kept a.object) (t.grows.told_kept b.object) (h a b ka kb d e s)
      ]
    ]

m_user-Once :
    (os : Os) (child : Option Child) (m : Message) (p : Poll)
    → ((fd : ℕ) (t : Text) → os.writes fd t ≡ true)
    → Once p
    → Holds Once (m_user os child m p)
unfolding m_user
m_user-Once os none m p w h = h
m_user-Once os (some c) m p w h = Holds-bind Once (get_arg 0 m) _ (λ name.
    let renamed = record p { childs = set_username c.object name p.childs } in
    Holds-map (Tells c.object name renamed.childs renamed) Once
      (user_loop os c.object name renamed.childs renamed) (λ q t. Tells-Once c.object name p q h t)
      (user_loop-Tells os c.object name renamed.childs renamed w))

-- When writes to children succeed, and whatever connections, messages and departures there are: of two
-- children whose users have the same name in any case, not empty, one has been sent DIE.
pub same_user_told :
    (os : Os) (start p : Poll)
    → ((fd : ℕ) (t : Text) → os.writes fd t ≡ true)
    → start.childs ≡ []
    → Reach os start p
    → (a b : Child) → In a p.childs
    → In b p.childs
    → (a.object == b.object) ≡ false
    → is_empty a.username ≡ false
    → same_name a.username b.username ≡ true
    → (told a.object p || told b.object p) ≡ true
same_user_told os start p w none_yet way =
    reach_lem Once os
      (λ o r h.
        new_client-Holds Once r (λ q g. Grows-Once h g)
          (λ q g. Grows-Once {p = record r { childs = [] }} (λ a b ia. elim ia [ ]) g)
          (λ room d e q g. Grows-Once (with_child-Once d r e h) g) o)
      (λ child w' r h.
        ipc_read-Holds Once os child w' r (λ q g. Grows-Once h g) (λ fd. left-Once fd r h)
          (λ m. m_user-Once os child m r w h))
      (λ a b ia. elim (subst (In a) none_yet ia) [ ]) way
