-- ===== src/Network/Status.antt =====
-- `Channel::setMode`, `Channel::delMode` and the branch of `Nick::join` for a nick that is on the
-- channel (src/irc/channel.cpp, src/irc/nick.cpp).
use minbif.Prelude.{
  ℕ, ◌⊎◌, ◌≡◌, refl, ap, sym, ◌∙◌, Bool, true, false, List, [], ◌∷◌, Option, none, some, arith, mem,
  ◌==◌, if◌then◌else◌, Bool-cases, inl, inr, Text, has,
}
use minbif.Result.{ok}
use minbif.Bits.{Bits, bit, is_zero, bits_or, bits_minus, bit-or, bit-minus, bit-is_zero}
use minbif.Message.{Message, Entity, set_sender, set_receiver}
use minbif.Modes.{ChatFlags, get_mode_message}
use minbif.Modes.Letters.{get_mode_message_args}
use minbif.Network.{ChanUser, LinkState, Net, send, write, chan_entity}
use minbif.Network.Channels.{
  broadcast_loop, broadcast, change_mode, chan_user_loop, get_chan_user, join,
}
use minbif.Network.Links.{on_chan, IsLinked}
use minbif.Network.Deletion.{deref_live, Live, AllLive, AllLive-links}
use minbif.Network.Leaving.{live_of, users_live, channels_live}
use minbif.Network.Joining.{Quiet, Quiet-refl, Quiet-send, Sends, Sends-later, NickOk}

broadcast_lem :
    (m : Message) (butone : Option ℕ) (ps : List ℕ) (net : Net)
    → AllLive net ps
    → Sends net (broadcast_loop m butone ps net)
unfolding broadcast_loop
broadcast_lem m butone [] net a = (net, refl, Quiet-refl net)
broadcast_lem m butone (p ∷ ps) net ((cu, there), a) =
    let skipped = (elim butone as (λ o. Bool) [ none ↦ false | some n ↦ cu.nick == n ]) in
    elim (Bool-cases skipped) [
      | inl e ↦ rw (deref_live p net cu there) (rw e (broadcast_lem m butone ps net a))
      | inr e ↦
          let q = Quiet-send cu.nick m net in
          rw (deref_live p net cu there) (
            rw e (
              Sends-later q (
                broadcast_lem m butone ps (send cu.nick m net)
                  (AllLive-links ps net (send cu.nick m net) q.links_eq a))))
    ]

-- a status that is written changes no list
AllLive-write :
    (p : ℕ) (cu : ChanUser) (ps : List ℕ) (net : Net) → AllLive net ps → AllLive (write p cu net) ps
unfolding write
AllLive-write p cu [] net a = tt
AllLive-write p cu (q ∷ ps) net ((cu', there), a) =
    (live (Bool-cases (p == q)), AllLive-write p cu ps net a)
  where
    live : ((p == q) ≡ true) ⊎ ((p == q) ≡ false) → Live (write p cu net) q
    live (inl e) = (cu, rw e)
    live (inr e) = (cu', rw e there)

-- Only the object p is another, and it has the new status.
pub record Restated (p : ℕ) (status : Bits) (cu : ChanUser) (a b : Net) : Type 0 where
  pub heap_eq :
      (q : ℕ) → b.heap q ≡ (if p == q then some (record cu { status = status }) else a.heap q)
  pub next_eq : b.next ≡ a.next
  pub users_eq : b.users ≡ a.users
  pub channels_eq : b.channels ≡ a.channels
  pub nicks_eq : b.nicks ≡ a.nicks
  pub chan_name_eq : b.chan_name ≡ a.chan_name

known :
    (fl : ChatFlags) (name : Text) (status : Bits) (adding : Bool) (modes : Bits)
    → has b' ' name ≡ false
    → (m : Message) × (get_mode_message fl name status adding modes ≡ ok m)
known fl name status adding modes k = (_, get_mode_message_args fl name status adding modes k)

Restated-Quiet :
    (p : ℕ) (status : Bits) (cu : ChanUser) (net after : Net)
    → Quiet (write p (record cu { status = status }) net) after
    → Restated p status cu net after
unfolding write
Restated-Quiet p status cu net after q = record {
  heap_eq = λ k. ap (λ (l : LinkState). l.heap k) q.links_eq;
  next_eq = ap (λ (l : LinkState). l.next) q.links_eq;
  users_eq = ap (λ (l : LinkState). l.users) q.links_eq;
  channels_eq = ap (λ (l : LinkState). l.channels) q.links_eq;
  nicks_eq = q.nicks_eq;
  chan_name_eq = q.chan_name_eq;
}

change_mode_lem :
    (change : Bits → Bits → Bits) (adding : Bool) (fl : ChatFlags) (sender : Option Entity)
    (modes : Bits) (p c : ℕ) (net : Net) (cu : ChanUser)
    → net.heap p ≡ some cu
    → NickOk cu.nick net
    → AllLive net (net.users c)
    → (after : Net) × (change_mode change adding fl sender modes p c net ≡ ok after)
      × Restated p (if is_zero modes then cu.status else change cu.status modes) cu net after
change_mode_lem change adding fl sender modes p c net cu h k a = elim (Bool-cases (is_zero modes)) [
  | inl e ↦ (
    net,
    unfold change_mode in rw e,
    record {
      heap_eq = λ q. ground (arith, h);
      next_eq = refl;
      users_eq = refl;
      channels_eq = refl;
      nicks_eq = refl;
      chan_name_eq = refl;
    },
  )
  | inr e ↦
      let changed = write p (record cu { status = change cu.status modes }) net in
      let live : AllLive changed (changed.users c) =
        unfold write in
        AllLive-write p (record cu { status = change cu.status modes }) (net.users c) net a in
      let msg = set_receiver (chan_entity c net) (
        set_sender (elim sender [ none ↦ net.irc | some s ↦ s ])
          (known fl (net.nicks cu.nick).nickname (change cu.status modes) adding modes k).0) in
      let (after, r, q) = broadcast_lem msg none (changed.users c) changed live in
      (
        after,
        unfold change_mode broadcast in
            rw e (
              rw (deref_live p net cu h) (
                rw (known fl (net.nicks cu.nick).nickname (change cu.status modes) adding modes k).1
                  r)),
        rw e (Restated-Quiet p (change cu.status modes) cu net after q),
      )
]

Restated-trans :
    (p : ℕ) (s t : Bits) (cu : ChanUser) (a b c : Net)
    → Restated p s cu a b
    → Restated p t (record cu { status = s }) b c
    → Restated p t cu a c
Restated-trans p s t cu a b c x y = record {
  heap_eq = λ q. ground (arith, x.heap_eq q, y.heap_eq q);
  next_eq = y.next_eq ∙ x.next_eq;
  users_eq = y.users_eq ∙ x.users_eq;
  channels_eq = y.channels_eq ∙ x.channels_eq;
  nicks_eq = y.nicks_eq ∙ x.nicks_eq;
  chan_name_eq = y.chan_name_eq ∙ x.chan_name_eq;
}

AllLive-Restated :
    (p : ℕ) (s : Bits) (cu : ChanUser) (a b : Net) (ps : List ℕ)
    → Restated p s cu a b
    → AllLive a ps
    → AllLive b ps
AllLive-Restated p s cu a b [] x h = tt
AllLive-Restated p s cu a b (q ∷ ps) x ((cu', there), h) =
    (live (Bool-cases (p == q)), AllLive-Restated p s cu a b ps x h)
  where
    live : ((p == q) ≡ true) ⊎ ((p == q) ≡ false) → Live b q
    live (inl e) = (record cu { status = s }, x.heap_eq q ∙ rw e)
    live (inr e) = (cu', x.heap_eq q ∙ rw e there)

-- the status after `join` has taken off what is too much and put on what is missing
rejoined : Bits → Bits → Bits
rejoined last status =
    let off = bits_minus last status in
    let down = if is_zero off then last else bits_minus last off in
    let missing = bits_minus status last in if is_zero missing then down else bits_or down missing

bit-rejoined : (last status : Bits) (i : ℕ) → bit (rejoined last status) i ≡ bit status i
unfolding rejoined
bit-rejoined last status i =
    let off = bits_minus last status in
    let missing = bits_minus status last in
    let down = if is_zero off then last else bits_minus last off in
    ground (
      arith,
      bit-minus last status i,
      bit-minus status last i,
      bit-minus last off i,
      bit-or down missing i,
      bit-is_zero off i,
      bit-is_zero missing i,
    )

chan_user_found :
    (p : ℕ) (ps : List ℕ) (net : Net) (cu : ChanUser)
    → AllLive net ps
    → mem p ps ≡ true
    → net.heap p ≡ some cu
    → ((q : ℕ) → mem q ps ≡ true → on_chan cu.chan (net.heap q) ≡ true → p ≡ q)
    → chan_user_loop cu.chan ps net ≡ ok (some p)
unfolding chan_user_loop
chan_user_found p [] net cu a m h u = cc
chan_user_found p (q ∷ ps) net cu ((cu', there), a) m h u =
    elim (Bool-cases (cu'.chan == cu.chan)) [
      | inl e ↦ rw (deref_live q net cu' there) (rw e (ground (arith, u q, there)))
      | inr e ↦ rw (deref_live q net cu' there) (
          rw e (
            chan_user_found p ps net cu a (ground (arith, there, h)) h (λ r k. u r (ground arith))))
    ]

-- A nick that is on a channel joins it again: with well-linked pointers, and no space in the nick's
-- name, nothing is thrown and no deleted object is read, no list changes, and no object but the
-- nick's own, whose status has exactly the flags that are asked for.
pub join-again :
    (fl : ChatFlags) (p : ℕ) (cu : ChanUser) (status : Bits) (net : Net)
    → IsLinked net.links
    → net.heap p ≡ some cu
    → has b' ' (net.nicks cu.nick).nickname ≡ false
    → (s : Bits) × (after : Net) × (join fl cu.nick cu.chan status net ≡ ok (p, after))
      × Restated p s cu net after
      × ((i : ℕ) → bit s i ≡ bit status i)
join-again fl p cu status net v h k =
    let on : mem p (net.channels cu.nick) ≡ true = v.channels_eq p cu.nick ∙ rw h (ground arith) in
    let found : get_chan_user cu.nick cu.chan net ≡ ok (some p) =
      unfold get_chan_user in
      chan_user_found p (net.channels cu.nick) net cu (channels_live net cu.nick v) on h
        (λ q m t. same_object net p cu v h q m t) in
    let off = bits_minus cu.status status in
    let missing = bits_minus status cu.status in
    let (down, r, x) =
      change_mode_lem bits_minus false fl none off p cu.chan net cu h k
        (users_live net cu.chan v) in
    let low = record cu { status = if is_zero off then cu.status else bits_minus cu.status off } in
    let (up, r', y) =
      change_mode_lem bits_or true fl none missing p cu.chan down low (x.heap_eq p ∙ ground arith)
        (rw x.nicks_eq k)
        (rw x.users_eq (
          AllLive-Restated p low.status cu net down (net.users cu.chan) x
            (users_live net cu.chan v))) in
    (
      rejoined cu.status status,
      up,
      unfold join in rw (found) (rw (deref_live p net cu h) (rw (r, r'))),
      unfold rejoined in Restated-trans p low.status _ cu net down up x y,
      bit-rejoined cu.status status,
    )
  where
    same_object :
        (net : Net) (p : ℕ) (cu : ChanUser)
        → IsLinked net.links
        → net.heap p ≡ some cu
        → (q : ℕ) → mem q (net.channels cu.nick) ≡ true
        → on_chan cu.chan (net.heap q) ≡ true
        → p ≡ q
    same_object net p cu v h q m t =
        let (b, e, c) = live_of cu.chan (net.heap q) t in
        v.unique p q cu b h e (sym c) (ground (arith, v.channels_eq q cu.nick, e))
