-- ===== src/Network/Leaving.antt =====
-- `Nick::part` of src/irc/nick.cpp.
use minbif.Prelude.{
  ℕ, ◌⊎◌, codes, ◌≡◌, refl, sym, subst, ◌∙◌, true, false, not, ◌&&◌, List, [], ◌∷◌, Option, none,
  some, arith, mem, ◌==◌, if◌then◌else◌, Bool-cases, Option-cases, inl, inr, Text,
}
use minbif.Result.{Result, ok}
use minbif.Message.{Message, message, add_arg, set_sender, set_receiver, spaced_back}
use minbif.Network.{ChanUser, LinkState, Net, send, set_channels, update, nick_entity, chan_entity}
use minbif.Network.Channels.{del_user, part_loop, part}
use minbif.Network.Links.{nodup, on_chan, on_nick, IsLinked, Unlinked, Unlinked-IsLinked}
use minbif.Network.Deletion.{links-send, deref_live, AllLive, AllLive-mem, Dropped, del_user_lem}

-- the live object behind a pointer that passes a test
pub live_of :
    (c : ℕ) (o : Option ChanUser)
    → on_chan c o ≡ true
    → (cu : ChanUser) × (o ≡ some cu) × (cu.chan ≡ c)
live_of c none h = cc
live_of c (some cu) h = (cu, refl, ground arith)

pub live_on :
    (n : ℕ) (o : Option ChanUser)
    → on_nick n o ≡ true
    → (cu : ChanUser) × (o ≡ some cu) × (cu.nick ≡ n)
live_on n none h = cc
live_on n (some cu) h = (cu, refl, ground arith)

-- Among well-linked pointers, the object of a nick on a channel is the only one.
pub only_one :
    (l : LinkState) (p q : ℕ) (cu : ChanUser)
    → IsLinked l
    → l.heap p ≡ some cu
    → (on_chan cu.chan (l.heap q) && on_nick cu.nick (l.heap q)) ≡ (p == q)
only_one l p q cu v h = elim (Option-cases (l.heap q)) [
  | inl e ↦ ground arith
  | inr (b, e) ↦ ground (arith, v.unique p q cu b h e)
]

-- Dropping a nick from a channel's list unlinks its object, once the nick's own list has lost it.
pub Dropped-Unlinked :
    (l l' : LinkState) (p : ℕ) (cu : ChanUser) (rest : List ℕ)
    → IsLinked l
    → l.heap p ≡ some cu
    → ((q : ℕ) → mem q rest ≡ (mem q (l.channels cu.nick) && not (p == q)))
    → nodup rest ≡ true
    → Dropped cu.nick cu.chan (record l { channels = update l.channels cu.nick rest }) l'
    → Unlinked p l l'
Dropped-Unlinked l l' p cu rest v h r d s = record {
  heap_eq = λ q. ground (arith, s.heap_eq q, only_one l p q cu v h, v.users_eq q cu.chan);
  next_eq = s.next_eq;
  users_eq = λ q c. ground (
    arith,
    s.users_eq c,
    s.kept_mem q,
    only_one l p q cu v h,
    v.users_eq q cu.chan,
    v.users_eq q c,
  );
  channels_eq =
      λ q n. ground (arith, s.channels_eq n, r q, v.channels_eq q n, only_one l p q cu v h);
  users_nodup = λ c. ground (arith, s.users_eq c, s.kept_nodup, v.users_nodup c);
  channels_nodup = λ n. ground (arith, s.channels_eq n, v.channels_nodup n, d);
}

-- The live objects of a channel's list, and of a nick's.
pub users_live : (net : Net) (c : ℕ) → IsLinked net.links → AllLive net (net.users c)
users_live net c v =
    AllLive-mem (net.users c) net
      λ q h. let (cu, e, k) = live_of c (net.heap q) (sym (v.users_eq q c) ∙ h) in (cu, e)

pub channels_live : (net : Net) (n : ℕ) → IsLinked net.links → AllLive net (net.channels n)
channels_live net n v =
    AllLive-mem (net.channels n) net
      λ q h. let (cu, e, k) = live_on n (net.heap q) (sym (v.channels_eq q n) ∙ h) in (cu, e)

-- What the search of `part` comes to: no object of the channel, or the one that it takes out.
pub record Found (c : ℕ) (ps : List ℕ) (l : LinkState) (p : ℕ) (rest : List ℕ) : Type 0 where
  pub cu : ChanUser
  pub there : l.heap p ≡ some cu
  pub chan : cu.chan ≡ c
  pub listed : mem p ps ≡ true
  pub rest_mem : (q : ℕ) → mem q rest ≡ (mem q ps && not (p == q))
  pub rest_nodup : nodup rest ≡ true

abbrev pub Absent : ℕ → List ℕ → LinkState → Type 0
Absent c ps l = (q : ℕ) → mem q ps ≡ true → on_chan c (l.heap q) ≡ false

abbrev PartsTo : ℕ → List ℕ → Net → Result (Option (ℕ × List ℕ)) → Type 0
PartsTo c ps net r =
    (r ≡ ok none) × Absent c ps net.links
    ⊎ ((p : ℕ) × (rest : List ℕ) × (r ≡ ok (some (p, rest))) × Found c ps net.links p rest)

pub Absent-cons :
    (c p : ℕ) (ps : List ℕ) (l : LinkState) (cu : ChanUser)
    → l.heap p ≡ some cu
    → (cu.chan == c) ≡ false
    → Absent c ps l
    → Absent c (p ∷ ps) l
Absent-cons c p ps l cu h e a q k = ground (arith, a q)

part_loop_lem :
    (c : ℕ) (ps : List ℕ) (net : Net)
    → nodup ps ≡ true
    → AllLive net ps
    → PartsTo c ps net (part_loop c ps net)
unfolding part_loop
part_loop_lem c [] net d a = inl (refl, λ q h. cc)
part_loop_lem c (p ∷ ps) net d ((cu, there), a) =
    let out : mem p ps ≡ false = ground arith in
    let rest_ok : nodup ps ≡ true = ground arith in
    elim (Bool-cases (cu.chan == c)) [
      | inl e ↦ inr (
        p,
        ps,
        rw (deref_live p net cu there) (rw e),
        record {
          cu = cu;
          there = there;
          chan = ground arith;
          listed = ground arith;
          rest_mem = λ q. ground arith;
          rest_nodup = rest_ok;
        },
      )
      | inr e ↦ elim (part_loop_lem c ps net rest_ok a) [
        | inl (r, f) ↦
            inl (
              rw (deref_live p net cu there) (rw (e, r)),
              Absent-cons c p ps net.links cu there e f,
            )
        | inr (q, rest, r, f) ↦ inr (
          q,
          p ∷ rest,
          rw (deref_live p net cu there) (rw (e, r)),
          record {
            cu = f.cu;
            there = f.there;
            chan = f.chan;
            listed = ground (arith, f.listed);
            rest_mem = λ k. ground (arith, f.rest_mem k, f.listed);
            rest_nodup = ground (arith, f.rest_mem p, f.rest_nodup);
          },
        )
      ]
    ]

-- taking an object off its nick and its channel
module _ (net : Net) (n c p : ℕ) (m : Message) (rest : List ℕ) (v : IsLinked net.links)
    (f : Found c (net.channels n) net.links p rest) where
  pub found_nick : f.cu.nick ≡ n
  found_nick = ground (arith, v.channels_eq p n, f.listed, f.there)

  pub taken_off :
      (sent : Net)
      → sent.links ≡ record net.links { channels = update net.channels n rest }
      → (after : Net) × (del_user n c m sent ≡ ok after) × Unlinked p net.links after.links
  taken_off sent e =
      let nd : nodup (sent.users c) ≡ true = rw e (v.users_nodup c) in
      let live : AllLive sent (sent.users c) = AllLive-mem (sent.users c) sent λ q h.
        let (cu, e', k) = live_of c (sent.heap q) (rw e (sym (v.users_eq q c) ∙ (rw e at h))) in
        (cu, e') in
      let (after, r, s) = del_user_lem n c m sent nd live in
      (
        after,
        r,
        Dropped-Unlinked net.links after.links p f.cu rest v f.there
            (λ q. rw found_nick (f.rest_mem q)) f.rest_nodup
            (rw (found_nick, f.chan) (subst (λ (l : LinkState). Dropped n c l after.links) e s)),
      )

part_message : ℕ → ℕ → Text → Net → Message
part_message n c text net =
    record (set_receiver (chan_entity c net)
      (set_sender (nick_entity n net) (message (codes "PART")))) { args = text ∷ [] }

pub Unlinked-heap :
    (l l' : LinkState) (p n c : ℕ) (cu : ChanUser)
    → IsLinked l
    → Unlinked p l l'
    → l.heap p ≡ some cu
    → cu.nick ≡ n
    → cu.chan ≡ c
    → (q : ℕ)
    → l'.heap q ≡ (if on_nick n (l.heap q) && on_chan c (l.heap q) then none else l.heap q)
Unlinked-heap l l' p n c cu v u h en ec q = ground (arith, u.heap_eq q, only_one l p q cu v h)

-- Parting with well-linked pointers reads no deleted object and throws nothing. It deletes the
-- object of the nick on the channel, if there is one, and no other, and leaves the pointers
-- well-linked, so that neither list holds it.
pub part-IsLinked :
    (n c : ℕ) (text : Text) (net : Net)
    → IsLinked net.links
    → (after : Net) × (part n c text net ≡ ok after)
      × IsLinked after.links
      × ((q : ℕ)
          → after.heap q
            ≡ (if on_nick n (net.heap q) && on_chan c (net.heap q) then none else net.heap q))
unfolding part add_arg spaced_back
part-IsLinked n c text net v =
    elim (part_loop_lem c (net.channels n) net (v.channels_nodup n) (channels_live net n v)) [
      | inl (r, a) ↦ (net, rw r, v, λ q. ground (arith, a q, v.channels_eq q n))
      | inr (p, rest, r, f) ↦
          let m = part_message n c text net in
          let sent = send n m (set_channels n rest net) in
          let e : sent.links ≡ record net.links { channels = update net.channels n rest } =
            unfold set_channels in links-send n m (set_channels n rest net) in
          let (after, d, u) = taken_off net n c p m rest v f sent e in
          (
            after,
            rw r (unfold part_message in d),
            Unlinked-IsLinked v u,
            Unlinked-heap net.links after.links p n c f.cu v u f.there
                (found_nick net n c p m rest v f) f.chan,
          )
    ]
