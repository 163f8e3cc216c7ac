-- ===== src/Network/Deletion.antt =====
-- `Channel::delUser` of src/irc/channel.cpp on well-linked pointers.
use minbif.Prelude.{
  ℕ, ◌≡◌, refl, ap, true, false, not, ◌&&◌, List, [], ◌∷◌, none, some, arith, mem, ◌==◌,
  if◌then◌else◌, Bool-cases, inl, inr, is_empty,
}
use minbif.Result.{Result, ok}
use minbif.Message.{Message}
use minbif.Network.{ChanUser, LinkState, Net, send, deref, free, set_users, update}
use minbif.Network.Channels.{del_loop, del_user}
use minbif.Network.Links.{nodup, on_nick}

pub links-send : (n : ℕ) (m : Message) (net : Net) → (send n m net).links ≡ net.links
unfolding send
links-send n m net = refl

pub deref_live : (p : ℕ) (net : Net) (cu : ChanUser) → net.heap p ≡ some cu → deref p net ≡ ok cu
unfolding deref
deref_live p net cu h = rw (h, deref)

-- the object behind a pointer that some list holds
abbrev pub Live : Net → ℕ → Type 0
Live net p = (cu : ChanUser) × (net.heap p ≡ some cu)

abbrev pub AllLive : Net → List ℕ → Type 0
AllLive net [] = Unit
AllLive net (p ∷ ps) = Live net p × AllLive net ps

-- The outcome of the loop over ps: who stays, and the heap without those who go.
pub record Deleted (n : ℕ) (ps kept : List ℕ) (l l' : LinkState) : Type 0 where
  pub kept_mem : (q : ℕ) → mem q kept ≡ (mem q ps && not (on_nick n (l.heap q)))
  pub kept_nodup : nodup kept ≡ true
  pub heap_eq : (q : ℕ) → l'.heap q ≡ (if mem q ps && on_nick n (l.heap q) then none else l.heap q)
  pub users_eq : l'.users ≡ l.users
  pub channels_eq : l'.channels ≡ l.channels
  pub next_eq : l'.next ≡ l.next

AllLive-free :
    (p : ℕ) (ps : List ℕ) (net : Net) → mem p ps ≡ false → AllLive net ps → AllLive (free p net) ps
unfolding free
AllLive-free p [] net h a = tt
AllLive-free p (q ∷ ps) net h a =
    ((a.0.0, ground (arith, a.0.1)), AllLive-free p ps net (ground arith) a.1)

pub AllLive-links :
    (ps : List ℕ) (net net' : Net) → net'.links ≡ net.links → AllLive net ps → AllLive net' ps
AllLive-links [] net net' e a = tt
AllLive-links (p ∷ ps) net net' e a = ((a.0.0, rw e a.0.1), AllLive-links ps net net' e a.1)

-- the first pointer's object is freed
Deleted-gone :
    (n p : ℕ) (ps kept : List ℕ) (l l' : LinkState)
    → on_nick n (l.heap p) ≡ true
    → mem p ps ≡ false
    → Deleted n ps kept (record l { heap = update l.heap p none }) l'
    → Deleted n (p ∷ ps) kept l l'
Deleted-gone n p ps kept l l' h out s = record {
  kept_mem = λ q. ground (arith, s.kept_mem q);
  kept_nodup = s.kept_nodup;
  heap_eq = λ q. ground (arith, s.heap_eq q);
  users_eq = s.users_eq;
  channels_eq = s.channels_eq;
  next_eq = s.next_eq;
}

-- the first pointer stays
Deleted-stay :
    (n p : ℕ) (ps kept : List ℕ) (l l' : LinkState)
    → on_nick n (l.heap p) ≡ false
    → mem p ps ≡ false
    → Deleted n ps kept l l'
    → Deleted n (p ∷ ps) (p ∷ kept) l l'
Deleted-stay n p ps kept l l' h out s = record {
  kept_mem = λ q. ground (arith, s.kept_mem q);
  kept_nodup = ground (arith, s.kept_mem p, s.kept_nodup);
  heap_eq = λ q. ground (arith, s.heap_eq q);
  users_eq = s.users_eq;
  channels_eq = s.channels_eq;
  next_eq = s.next_eq;
}

abbrev DeletesTo : ℕ → List ℕ → Net → Result (List ℕ × Net) → Type 0
DeletesTo n ps net r =
    (kept : List ℕ) × (after : Net) × (r ≡ ok (kept, after))
    × Deleted n ps kept net.links after.links

-- the state after a user who stays has been told
told : Message → ℕ → Net → Net
told m n net = if is_empty m.cmd then net else send n m net

told-links : (m : Message) (n : ℕ) (net : Net) → (told m n net).links ≡ net.links
unfolding told
told-links m n net = ground (arith, links-send n m net)

module _ (n : ℕ) (m : Message) (p : ℕ) (ps : List ℕ) (net : Net) (cu : ChanUser)
    (there : net.heap p ≡ some cu) (out : mem p ps ≡ false) where
  DeletesTo-gone :
      (cu.nick == n) ≡ true
      → DeletesTo n ps (free p net) (del_loop n m ps (free p net))
      → DeletesTo n (p ∷ ps) net (del_loop n m (p ∷ ps) net)
  unfolding del_loop free
  DeletesTo-gone e (kept, after, r, s) = (
    kept,
    after,
    rw (deref_live p net cu there) (rw e r),
    Deleted-gone n p ps kept net.links after.links (rw there e) out s,
  )

  DeletesTo-stay :
      (cu.nick == n) ≡ false
      → DeletesTo n ps (told m cu.nick net) (del_loop n m ps (told m cu.nick net))
      → DeletesTo n (p ∷ ps) net (del_loop n m (p ∷ ps) net)
  unfolding del_loop told
  DeletesTo-stay e (kept, after, r, s) = (
    p ∷ kept,
    after,
    rw (deref_live p net cu there) (rw e (rw r)),
    Deleted-stay n p ps kept net.links after.links (rw there e) out
        (rw (told-links m cu.nick net) at s),
  )

del_loop_lem :
    (n : ℕ) (m : Message) (ps : List ℕ) (net : Net)
    → nodup ps ≡ true
    → AllLive net ps
    → DeletesTo n ps net (del_loop n m ps net)
unfolding del_loop
del_loop_lem n m [] net d a = (
  [],
  net,
  refl,
  record {
    kept_mem = λ q. refl;
    kept_nodup = refl;
    heap_eq = λ q. refl;
    users_eq = refl;
    channels_eq = refl;
    next_eq = refl;
  },
)
del_loop_lem n m (p ∷ ps) net d ((cu, there), a) =
    let out : mem p ps ≡ false = ground arith in
    let rest : nodup ps ≡ true = ground arith in
    elim (Bool-cases (cu.nick == n)) [
      | inl e ↦
          DeletesTo-gone n m p ps net cu there out e
            (del_loop_lem n m ps (free p net) rest (AllLive-free p ps net out a))
      | inr e ↦ DeletesTo-stay n m p ps net cu there out e (
          del_loop_lem n m ps (told m cu.nick net) rest
            (AllLive-links ps net (told m cu.nick net) (told-links m cu.nick net) a))
    ]

pub AllLive-mem :
    (ps : List ℕ) (net : Net) → ((q : ℕ) → mem q ps ≡ true → Live net q) → AllLive net ps
AllLive-mem [] net h = tt
AllLive-mem (p ∷ ps) net h = (h p (ground arith), AllLive-mem ps net (λ q e. h q (ground arith)))

-- The outcome of `delUser`.
pub record Dropped (n c : ℕ) (l l' : LinkState) : Type 0 where
  pub kept : List ℕ
  pub kept_mem : (q : ℕ) → mem q kept ≡ (mem q (l.users c) && not (on_nick n (l.heap q)))
  pub kept_nodup : nodup kept ≡ true
  pub heap_eq :
      (q : ℕ) → l'.heap q ≡ (if mem q (l.users c) && on_nick n (l.heap q) then none else l.heap q)
  pub users_eq : (d : ℕ) → l'.users d ≡ (if c == d then kept else l.users d)
  pub channels_eq : (k : ℕ) → l'.channels k ≡ l.channels k
  pub next_eq : l'.next ≡ l.next

pub del_user_lem :
    (n c : ℕ) (m : Message) (net : Net)
    → nodup (net.users c) ≡ true
    → AllLive net (net.users c)
    → (after : Net) × (del_user n c m net ≡ ok after) × Dropped n c net.links after.links
unfolding del_user set_users
del_user_lem n c m net d a =
    let (kept, after, r, s) = del_loop_lem n m (net.users c) net d a in
    (
      set_users c kept after,
      rw r,
      record {
        kept = kept;
        kept_mem = s.kept_mem;
        kept_nodup = s.kept_nodup;
        heap_eq = s.heap_eq;
        users_eq = λ d. ground (arith, ap (λ (f : ℕ → List ℕ). f d) s.users_eq);
        channels_eq = λ k. ap (λ (f : ℕ → List ℕ). f k) s.channels_eq;
        next_eq = s.next_eq;
      },
    )
