-- ===== src/Network/Quitting.antt =====
-- `Nick::quit` of src/irc/nick.cpp.
use minbif.Prelude.{
  ℕ, codes, ◌≡◌, refl, ap, sym, ◌∙◌, true, List, [], ◌∷◌, ◌++◌, none, some, arith, mem,
  if◌then◌else◌, Bool-cases, inl, inr, Text,
}
use minbif.Result.{ok}
use minbif.Message.{Message, message, add_arg, set_sender, spaced_back}
use minbif.Network.{ChanUser, LinkState, Net, send, set_channels, update, nick_entity}
use minbif.Network.Channels.{del_user, tell_loop, quit_loop, quit}
use minbif.Network.Links.{nodup, on_nick, IsLinked, Unlinked, Unlinked-IsLinked}
use minbif.Network.Deletion.{links-send, deref_live, AllLive, AllLive-links, Dropped, del_user_lem}
use minbif.Network.Leaving.{live_on, Dropped-Unlinked, users_live, Found}

-- The messages of `quit` change no pointer.
tell_loop_lem :
    (m : Message) (told ps : List ℕ) (net : Net)
    → AllLive net ps
    → (told' : List ℕ) × (after : Net) × (tell_loop m told ps net ≡ ok (told', after))
      × (after.links ≡ net.links)
unfolding tell_loop
tell_loop_lem m told [] net a = (told, net, refl, refl)
tell_loop_lem m told (p ∷ ps) net ((cu, there), a) = elim (Bool-cases (mem cu.nick told)) [
  | inl e ↦
      let (t, after, r, s) = tell_loop_lem m told ps net a in
      (t, after, rw (deref_live p net cu there) (rw (e, r)), s)
  | inr e ↦
      let sent = send cu.nick m net in
      let same = links-send cu.nick m net in
      let (t, after, r, s) =
        tell_loop_lem m (told ++ cu.nick ∷ []) ps sent (AllLive-links ps net sent same a) in
      (t, after, rw (deref_live p net cu there) (rw (e, r)), s ∙ same)
]

-- the first pointer of a nick's list, as `part` would find it
first-Found :
    (net : Net) (n p : ℕ) (ps : List ℕ) (cu : ChanUser)
    → IsLinked net.links
    → net.channels n ≡ p ∷ ps
    → net.heap p ≡ some cu
    → Found cu.chan (net.channels n) net.links p ps
first-Found net n p ps cu v e h = record {
  cu = cu;
  there = h;
  chan = refl;
  listed = rw e (ground arith);
  rest_mem = λ q. rw e (ground (arith, (rw e at (v.channels_nodup n))));
  rest_nodup = ground (arith, (rw e at (v.channels_nodup n)));
}

-- `quit` takes the object off the nick's list behind `delUser`, and `part` before it.
Dropped-late :
    (l l' : LinkState) (n c : ℕ) (rest : List ℕ)
    → Dropped n c l l'
    → Dropped n c
        (record l { channels = update l.channels n rest })
        (record l' { channels = update l'.channels n rest })
Dropped-late l l' n c rest s = record {
  kept = s.kept;
  kept_mem = s.kept_mem;
  kept_nodup = s.kept_nodup;
  heap_eq = s.heap_eq;
  users_eq = s.users_eq;
  channels_eq = λ k. ground (arith, s.channels_eq k);
  next_eq = s.next_eq;
}

-- One round of `quit`: the nick's first object is gone and nothing else.
quit_round :
    (net : Net) (n p : ℕ) (ps told : List ℕ) (m : Message) (cu : ChanUser)
    → IsLinked net.links
    → net.channels n ≡ p ∷ ps
    → net.heap p ≡ some cu
    → cu.nick ≡ n
    → (told' : List ℕ) × (heard gone : Net) × (tell_loop m told (net.users cu.chan) net
        ≡ ok (told', heard))
      × (del_user n cu.chan (message []) heard ≡ ok gone)
      × Unlinked p net.links (set_channels n ps gone).links
unfolding set_channels
quit_round net n p ps told m cu v e h en =
    let (told', heard, r, same) =
      tell_loop_lem m told (net.users cu.chan) net (users_live net cu.chan v) in
    let nd : nodup (heard.users cu.chan) ≡ true = rw same (v.users_nodup cu.chan) in
    let live : AllLive heard (heard.users cu.chan) =
      rw same (AllLive-links (net.users cu.chan) net heard same (users_live net cu.chan v)) in
    let (gone, d, s) = del_user_lem n cu.chan (message []) heard nd live in
    let f = first-Found net n p ps cu v e h in
    let s' : Dropped n cu.chan net.links gone.links = rw same at s in
    (
      told',
      heard,
      gone,
      r,
      d,
      Dropped-Unlinked net.links (set_channels n ps gone).links p cu ps v h
          (λ q. rw en (f.rest_mem q)) f.rest_nodup
          (rw en (Dropped-late net.links gone.links n cu.chan ps s')),
    )

quit_loop_lem :
    (n : ℕ) (m : Message) (told ps : List ℕ) (net : Net)
    → IsLinked net.links
    → net.channels n ≡ ps
    → (after : Net) × (quit_loop n m told ps net ≡ ok after)
      × IsLinked after.links
      × ((q : ℕ) → after.heap q ≡ (if on_nick n (net.heap q) then none else net.heap q))
unfolding quit_loop
quit_loop_lem n m told [] net v e =
    (net, refl, v, λ q. ground (arith, v.channels_eq q n, ap (mem q) e))
quit_loop_lem n m told (p ∷ ps) net v e =
    let (cu, h, en) = live_on n (net.heap p) (sym (v.channels_eq p n) ∙ rw e (ground arith)) in
    let (told', heard, gone, r, d, u) = quit_round net n p ps told m cu v e h en in
    let off : (set_channels n ps gone).channels n ≡ ps = unfold set_channels in ground arith in
    let (after, r', v', hp) =
      quit_loop_lem n m told' ps (set_channels n ps gone) (Unlinked-IsLinked v u) off in
    (
      after,
      rw (deref_live p net cu h) (rw (r, d, r')),
      v',
      λ q. ground (arith, hp q, u.heap_eq q, h, en),
    )

-- Quitting with well-linked pointers reads no deleted object and throws nothing. It deletes the
-- objects of the nick, on all its channels, and no other, and leaves the pointers well-linked.
pub quit-IsLinked :
    (n : ℕ) (text : Text) (net : Net)
    → IsLinked net.links
    → (after : Net) × (quit n text net ≡ ok after)
      × IsLinked after.links
      × ((q : ℕ) → after.heap q ≡ (if on_nick n (net.heap q) then none else net.heap q))
unfolding quit add_arg spaced_back
quit-IsLinked n text net v =
    let m = record (set_sender (nick_entity n net) (message (codes "QUIT"))) { args = text ∷ [] } in
    quit_loop_lem n m [] (net.channels n) net v refl
