-- ===== src/Network/Rejoining.antt =====
-- `Nick::join` of src/irc/nick.cpp, whether the nick is on the channel or not.
use minbif.Prelude.{
  ℕ, ◌≡◌, refl, sym, ◌∙◌, ◌⊎◌, inl, inr, true, false, List, [], ◌∷◌, some, mem, ◌==◌, arith,
  Bool-cases, subst,
}
use minbif.Result.{ok}
use minbif.Bits.{Bits}
use minbif.Modes.{ChatFlags}
use minbif.Network.{ChanUser, Net}
use minbif.Network.Channels.{join}
use minbif.Network.Links.{on_chan, on_nick, IsLinked}
use minbif.Network.Deletion.{AllLive}
use minbif.Network.Leaving.{channels_live}
use minbif.Network.Joining.{NickOk, ChanOk, NotOn, join_new-IsLinked}
use minbif.Network.Status.{Restated, join-again}

-- an object of the channel among the pointers, if there is one
Member : ℕ → ℕ → Net → Type 0
Member n c net = (p : ℕ) × (cu : ChanUser) × (net.heap p ≡ some cu) × (cu.nick ≡ n) × (cu.chan ≡ c)

search-Member :
    (n c : ℕ) (ps : List ℕ) (net : Net)
    → AllLive net ps
    → ((q : ℕ) → mem q ps ≡ true → on_nick n (net.heap q) ≡ true)
    → Member n c net ⊎ ((q : ℕ) → mem q ps ≡ true → on_chan c (net.heap q) ≡ false)
unfolding Member
search-Member n c [] net a o = inr (λ q h. cc)
search-Member n c (p ∷ ps) net ((cu, there), a) o = elim (Bool-cases (cu.chan == c)) [
  | inl e ↦ inl (p, cu, there, ground (arith, o p, there), ground arith)
  | inr e ↦ elim (search-Member n c ps net a (λ q m. o q (ground arith))) [
    | inl m ↦ inl m
    | inr f ↦ inr (λ q m. ground (arith, f q, there))
  ]
]

Member-cases : (n c : ℕ) (net : Net) → IsLinked net.links → Member n c net ⊎ NotOn n c net
Member-cases n c net v =
    elim (search-Member n c (net.channels n) net (channels_live net n v)
      (λ q m. sym (v.channels_eq q n) ∙ m)) [
        | inl m ↦ inl m
        | inr f ↦ inr (λ q. ground (arith, f q, v.channels_eq q n))
      ]

-- the object before its status was written
earlier :
    {p : ℕ} {s : Bits} {cu : ChanUser} {a b : Net} (q : ℕ) (d : ChanUser)
    → a.heap p ≡ some cu
    → Restated p s cu a b
    → b.heap q ≡ some d
    → (d' : ChanUser) × (a.heap q ≡ some d') × (d'.nick ≡ d.nick) × (d'.chan ≡ d.chan)
earlier {p} {s} {cu} q d h x e = elim (Bool-cases (p == q)) [
  | inl t ↦ (
    cu,
    ground (arith, h, t),
    ground (arith, x.heap_eq q, t, e),
    ground (arith, x.heap_eq q, t, e),
  )
  | inr t ↦ (d, ground (arith, x.heap_eq q, t, e), refl, refl)
]

Restated-IsLinked :
    {p : ℕ} {s : Bits} {cu : ChanUser} {a b : Net}
    → IsLinked a.links
    → a.heap p ≡ some cu
    → Restated p s cu a b
    → IsLinked b.links
Restated-IsLinked {p} {s} {cu} {a} {b} v h x = record {
  users_eq = λ q c. ground (arith, v.users_eq q c, x.heap_eq q, x.users_eq, h);
  channels_eq = λ q n. ground (arith, v.channels_eq q n, x.heap_eq q, x.channels_eq, h);
  unique = λ q r d e hq hr ec en.
      let (d', hd, nd, cd) = earlier q d h x hq in
      let (e', he, ne, ce) = earlier r e h x hr in
      v.unique q r d' e' hd he (cd ∙ ec ∙ sym ce) (nd ∙ en ∙ sym ne);
  fresh = λ q f. ground (arith, v.fresh q, v.fresh p, x.heap_eq q, x.next_eq, h);
  users_nodup = λ c. rw x.users_eq (v.users_nodup c);
  channels_nodup = λ n. rw x.channels_eq (v.channels_nodup n);
}

-- Joining with well-linked pointers leaves them so, whether the nick was on the channel or not.
pub join_any-IsLinked :
    (fl : ChatFlags) (n c : ℕ) (status : Bits) (net : Net)
    → IsLinked net.links
    → NickOk n net
    → ChanOk c net
    → (p : ℕ) × (after : Net) × (join fl n c status net ≡ ok (p, after))
      × IsLinked after.links
      × (after.nicks ≡ net.nicks)
      × (after.chan_name ≡ net.chan_name)
unfolding Member
join_any-IsLinked fl n c status net v kn kc = elim (Member-cases n c net v) [
  | inr off ↦ join_new-IsLinked fl n c status net v off kn kc
  | inl (p, cu, there, en, ec) ↦
      let (s, after, r, x, same) =
        join-again fl p cu status net v there (subst (λ k. NickOk k net) (sym en) kn) in
      (
        p,
        after,
        subst (λ k. join fl k c status net ≡ ok (p, after)) en
            (subst (λ d. join fl cu.nick d status net ≡ ok (p, after)) ec r),
        Restated-IsLinked v there x,
        x.nicks_eq,
        x.chan_name_eq,
      )
]
