-- ===== src/Network/Kicking.antt =====
-- `Nick::kicked` of src/irc/nick.cpp.
use minbif.Prelude.{
  ℕ, ◌≡◌, refl, ap, sym, ◌∙◌, true, false, ◌&&◌, ◌||◌, List, [], ◌∷◌, ◌++◌, append_assoc,
  append-nil, none, some, Text, codes, mem, any-append, has, ◌==◌, subst, if◌then◌else◌, arith,
  Bool-cases, inl, inr,
}
use minbif.Result.{Result, ok, ◌>>=◌}
use minbif.Message.{Entity, Message, message, add_arg, spaced_back, set_sender, set_receiver}
use minbif.Network.{ChanUser, LinkState, Net, deref, set_channels, chan_entity}
use minbif.Network.Channels.{del_user}
use minbif.Network.Links.{nodup, on_chan, on_nick, IsLinked, Unlinked, Unlinked-IsLinked}
use minbif.Network.Deletion.{deref_live, AllLive, AllLive-mem}
use minbif.Network.Leaving.{live_on, Absent, Found, taken_off, Unlinked-heap}

-- The loop of `kicked`; kept are the pointers that it has passed.
unfoldable pub kicked_loop : ℕ → ℕ → Entity → Text → List ℕ → List ℕ → Net → Result Net
kicked_loop n c from text kept [] net = ok net
kicked_loop n c from text kept (p ∷ ps) net = do
  cu ← deref p net
  if cu.chan == c
      then (do
        m ←
            add_arg (net.nicks n).nickname
              (set_receiver (chan_entity c net) (set_sender from (message (codes "KICK"))))
        m ← add_arg text m
        gone ← del_user n c m (set_channels n (kept ++ ps) net)
        kicked_loop n c from text kept ps gone)
      else kicked_loop n c from text (kept ++ p ∷ []) ps net

unfoldable pub kicked : ℕ → ℕ → Entity → Text → Net → Result Net
kicked n c from text net = kicked_loop n c from text [] (net.channels n) net

abbrev kick_message : ℕ → ℕ → Entity → Text → Net → Message
kick_message n c from text net =
    record (set_receiver (chan_entity c net) (set_sender from (message (codes "KICK")))) {
      args = (net.nicks n).nickname ∷ text ∷ [];
    }

nodup-middle :
    (kept : List ℕ) (p : ℕ) (ps : List ℕ)
    → nodup (kept ++ p ∷ ps) ≡ true
    → (nodup (kept ++ ps) ≡ true) × (mem p (kept ++ ps) ≡ false)
nodup-middle [] p ps h = (ground arith, ground arith)
nodup-middle (k ∷ kept) p ps h =
    let (d, o) = nodup-middle kept p ps (ground arith) in
    let split = any-append (λ (y : ℕ). y == k) kept (p ∷ ps) in
    let split' = any-append (λ (y : ℕ). y == k) kept ps in
    (ground (arith, d, split, split'), ground (arith, o, split))

mem-middle :
    (q : ℕ) (kept : List ℕ) (p : ℕ) (ps : List ℕ)
    → mem q (kept ++ p ∷ ps) ≡ (p == q || mem q (kept ++ ps))
mem-middle q [] p ps = refl
mem-middle q (k ∷ kept) p ps = ground (arith, mem-middle q kept p ps)

middle-Found :
    (c p : ℕ) (kept ps : List ℕ) (l : LinkState) (cu : ChanUser)
    → nodup (kept ++ p ∷ ps) ≡ true
    → l.heap p ≡ some cu
    → cu.chan ≡ c
    → Found c (kept ++ p ∷ ps) l p (kept ++ ps)
middle-Found c p kept ps l cu d h e =
    let (rest, out) = nodup-middle kept p ps d in
    record {
      cu = cu;
      there = h;
      chan = e;
      listed = mem-middle p kept p ps ∙ ground arith;
      rest_mem = λ q. ground (arith, mem-middle q kept p ps, out);
      rest_nodup = rest;
    }

-- where nobody is on the channel, nobody is kicked
kicked-Absent :
    (n c : ℕ) (from : Entity) (text : Text) (kept ps : List ℕ) (net : Net)
    → AllLive net ps
    → Absent c ps net.links
    → kicked_loop n c from text kept ps net ≡ ok net
unfolding kicked_loop
kicked-Absent n c from text kept [] net a f = refl
kicked-Absent n c from text kept (p ∷ ps) net ((cu, there), a) f =
    let off : (cu.chan == c) ≡ false = ground (arith, f p, there) in
    rw (deref_live p net cu there) (
      rw off
        (kicked-Absent n c from text (kept ++ p ∷ []) ps net a (λ q m. f q (ground (arith, m)))))

-- The pointers behind the one that was taken off are live, and none is of the channel.
rest_lem :
    (n c p : ℕ) (kept ps : List ℕ) (net after : Net)
    → IsLinked net.links
    → net.channels n ≡ kept ++ p ∷ ps
    → Unlinked p net.links after.links
    → ((q : ℕ)
        → after.heap q
          ≡ (if on_nick n (net.heap q) && on_chan c (net.heap q) then none else net.heap q))
    → AllLive after ps × Absent c ps after.links
rest_lem n c p kept ps net after v e u hp =
    let (d, out) = nodup-middle kept p ps (ap nodup (sym e) ∙ v.channels_nodup n) in
    let listed : (q : ℕ) → mem q ps ≡ true → on_nick n (net.heap q) ≡ true = λ q m.
      sym (v.channels_eq q n)
      ∙ ap (mem q) e
      ∙ mem-middle q kept p ps
      ∙ ground (arith, any-append (λ (y : ℕ). y == q) kept ps) in
    let other : (q : ℕ) → mem q ps ≡ true → (p == q) ≡ false =
      λ q m. ground (arith, out, any-append (λ (y : ℕ). y == q) kept ps) in
    (
      AllLive-mem ps after λ q m.
          let (cu, h, k) =
            live_on n (after.heap q) (ground (arith, u.heap_eq q, listed q m, other q m)) in
          (cu, h),
      λ q m. ground (arith, hp q, listed q m),
    )

kicked_loop_lem :
    (n c : ℕ) (from : Entity) (text : Text) (kept ps : List ℕ) (net : Net)
    → IsLinked net.links
    → has b' ' (net.nicks n).nickname ≡ false
    → net.channels n ≡ kept ++ ps
    → Absent c kept net.links
    → (after : Net) × (kicked_loop n c from text kept ps net ≡ ok after)
      × IsLinked after.links
      × ((q : ℕ)
          → after.heap q
            ≡ (if on_nick n (net.heap q) && on_chan c (net.heap q) then none else net.heap q))
unfolding kicked_loop add_arg spaced_back
kicked_loop_lem n c from text kept [] net v k e a =
    (net, refl, v, λ q. ground (arith, a q, v.channels_eq q n, ap (mem q) (e ∙ append-nil kept)))
kicked_loop_lem n c from text kept (p ∷ ps) net v k e a =
    let on : on_nick n (net.heap p) ≡ true =
      sym (v.channels_eq p n) ∙ ap (mem p) e ∙ mem-middle p kept p ps ∙ ground arith in
    let (cu, there, en) = live_on n (net.heap p) on in
    elim (Bool-cases (cu.chan == c)) [
      | inl t ↦
          let f =
            subst (λ x. Found c x net.links p (kept ++ ps)) (sym e)
              (middle-Found c p kept ps net.links cu (ap nodup (sym e) ∙ v.channels_nodup n) there
                (ground arith)) in
          let m = kick_message n c from text net in
          let (after, r, u) =
            taken_off net n c p m (kept ++ ps) v f (set_channels n (kept ++ ps) net)
              (unfold set_channels in refl) in
          let hp = Unlinked-heap net.links after.links p n c cu v u there en (ground arith) in
          let (live, gone) = rest_lem n c p kept ps net after v e u hp in
          (
            after,
            rw (deref_live p net cu there) (
                rw (t, k)
                  (ap (λ x. x >>= λ g. kicked_loop n c from text kept ps g) r
                    ∙ kicked-Absent n c from text kept ps after live gone)),
            Unlinked-IsLinked {l' = after.links} v u,
            hp,
          )
      | inr t ↦ rw (deref_live p net cu there) (
          rw t (
            kicked_loop_lem n c from text (kept ++ p ∷ []) ps net v k
              (e ∙ sym (append_assoc kept (p ∷ []) ps))
              (λ q m. ground (arith, a q, there, any-append (λ (y : ℕ). y == q) kept (p ∷ [])))))
    ]

pub kicked-IsLinked :
    (n c : ℕ) (from : Entity) (text : Text) (net : Net)
    → IsLinked net.links
    → has b' ' (net.nicks n).nickname ≡ false
    → (after : Net) × (kicked n c from text net ≡ ok after)
      × IsLinked after.links
      × ((q : ℕ)
          → after.heap q
            ≡ (if on_nick n (net.heap q) && on_chan c (net.heap q) then none else net.heap q))
unfolding kicked
kicked-IsLinked n c from text net v k =
    kicked_loop_lem n c from text [] (net.channels n) net v k refl (λ q m. absurd (cc))
