-- ===== src/Network/Joining.antt =====
-- `Nick::join` of src/irc/nick.cpp and `Channel::addUser` of src/irc/channel.cpp.
use minbif.Prelude.{
  ℕ, codes, ◌≡◌, refl, ap, sym, ◌∙◌, true, false, not, ◌&&◌, List, [], ◌∷◌, ◌++◌, none, some, arith,
  ◌==◌, if◌then◌else◌, Bool-cases, inl, inr, is_empty, Text, has,
}
use minbif.Result.{Result, ok}
use minbif.Bits.{Bits, is_zero}
use minbif.Message.{Message, message, add_arg, set_sender, set_receiver, spaced_back}
use minbif.Modes.{ChatFlags, get_prefix, get_mode_message}
use minbif.Modes.Letters.{get_mode_message_args}
use minbif.Network.{
  LinkState, Net, send, allocate, set_users, set_channels, nick_entity, chan_entity,
}
use minbif.Network.Channels.{
  join_loop, names_loop, send_names, send_topic, add_user, chan_user_loop, get_chan_user, join,
  reply,
}
use minbif.Network.Links.{on_chan, on_nick, IsLinked, Linked, Linked-IsLinked}
use minbif.Network.Deletion.{deref_live, AllLive, AllLive-mem, AllLive-links}
use minbif.Network.Leaving.{live_of, channels_live, Absent}

-- Only messages were sent.
pub record Quiet (a b : Net) : Type 0 where
  pub links_eq : b.links ≡ a.links
  pub nicks_eq : b.nicks ≡ a.nicks
  pub chan_name_eq : b.chan_name ≡ a.chan_name

pub Quiet-refl : (a : Net) → Quiet a a
Quiet-refl a = record { links_eq = refl; nicks_eq = refl; chan_name_eq = refl }

pub Quiet-trans : {a b c : Net} → Quiet a b → Quiet b c → Quiet a c
Quiet-trans q r = record {
  links_eq = r.links_eq ∙ q.links_eq;
  nicks_eq = r.nicks_eq ∙ q.nicks_eq;
  chan_name_eq = r.chan_name_eq ∙ q.chan_name_eq;
}

pub Quiet-send : (n : ℕ) (m : Message) (net : Net) → Quiet net (send n m net)
unfolding send
Quiet-send n m net = record { links_eq = refl; nicks_eq = refl; chan_name_eq = refl }

abbrev pub NickOk : ℕ → Net → Type 0
NickOk n net = has b' ' (net.nicks n).nickname ≡ false

abbrev pub ChanOk : ℕ → Net → Type 0
ChanOk c net = has b' ' (net.chan_name c) ≡ false

-- a computation that only sends
abbrev pub Sends : Net → Result Net → Type 0
Sends net r = (after : Net) × (r ≡ ok after) × Quiet net after

pub Sends-later : {a b : Net} {r : Result Net} → Quiet a b → Sends b r → Sends a r
Sends-later q (after, e, s) = (after, e, Quiet-trans q s)

mode_message :
    (fl : ChatFlags) (name : Text) (status : Bits)
    → has b' ' name ≡ false
    → (m : Message) × (get_mode_message fl name status true [] ≡ ok m)
mode_message fl name status k = (_, get_mode_message_args fl name status true [] k)

module _ (fl : ChatFlags) (n c : ℕ) (status : Bits) where
  join_loop_lem :
      (ps : List ℕ) (net : Net)
      → NickOk n net
      → AllLive net ps
      → Sends net (join_loop fl n c status ps net)
  unfolding join_loop
  join_loop_lem [] net k a = (net, refl, Quiet-refl net)
  join_loop_lem (p ∷ ps) net k ((cu, there), a) =
      let joined =
        set_receiver (chan_entity c net)
          (set_sender (nick_entity n net) (message (codes "JOIN"))) in
      let told = send cu.nick joined net in
      let q = Quiet-send cu.nick joined net in
      elim (Bool-cases (not (is_zero status) && not (cu.nick == n))) [
        | inl e ↦
            let (mm, r) = mode_message fl (net.nicks n).nickname status k in
            let moded = set_receiver (chan_entity c net) (set_sender net.irc mm) in
            let q' = Quiet-trans q (Quiet-send cu.nick moded told) in
            rw (deref_live p net cu there) (
              rw (e, r)
                (Sends-later q' (
                  join_loop_lem ps (send cu.nick moded told) (rw q'.nicks_eq k)
                    (AllLive-links ps net (send cu.nick moded told) q'.links_eq a))))
        | inr e ↦ rw (deref_live p net cu there) (
            rw e (
              Sends-later q
                (join_loop_lem ps told (rw q.nicks_eq k) (AllLive-links ps net told q.links_eq a))))
      ]

  names_loop_lem :
      (ps : List ℕ) (net : Net) → AllLive net ps → (t : Text) × (names_loop fl ps net ≡ ok t)
  unfolding names_loop
  names_loop_lem [] net a = ([], refl)
  names_loop_lem (p ∷ ps) net ((cu, there), a) =
      let (t, r) = names_loop_lem ps net a in
      (
        get_prefix fl cu.status ++ ((net.nicks cu.nick).nickname ++ (b' ' ∷ t)),
        rw (deref_live p net cu there) (rw r),
      )

  send_names_lem :
      (net : Net) → ChanOk c net → AllLive net (net.users c) → Sends net (send_names fl c n net)
  unfolding send_names add_arg spaced_back
  send_names_lem net k a =
      let (t, r) = names_loop_lem (net.users c) net a in
      rw (r, k) (_, refl, Quiet-trans (Quiet-send n _ net) (Quiet-send n _ _))

  send_topic_lem : (net : Net) → ChanOk c net → Sends net (send_topic c n net)
  unfolding send_topic add_arg spaced_back
  send_topic_lem net k = elim (Bool-cases (is_empty (net.topic c))) [
    | inl e ↦ (net, rw e, Quiet-refl net)
    | inr e ↦
        let m = record (reply (codes "332") n net) { args = net.chan_name c ∷ net.topic c ∷ [] } in
        (send n m net, rw (e, k), Quiet-send n m net)
  ]

-- Making the object and listing it on the channel.
listed : ℕ → ℕ → Bits → Net → Net
listed n c status net =
    set_users c (net.users c ++ net.next ∷ [])
      (allocate (record { nick = n; chan = c; status = status }) net)

listed-Linked :
    (n c : ℕ) (status : Bits) (net : Net)
    → Linked net.next n c net.links
        (set_channels n (net.channels n ++ net.next ∷ []) (listed n c status net)).links
unfolding listed set_users allocate set_channels
listed-Linked n c status net = record {
  made = record { nick = n; chan = c; status = status };
  made_nick = refl;
  made_chan = refl;
  heap_eq = λ q. refl;
  next_eq = refl;
  new = refl;
  users_eq = λ d. refl;
  channels_eq = λ m. refl;
}

-- the search of `getChanUser` when the nick is not on the channel
chan_user_none :
    (c : ℕ) (ps : List ℕ) (net : Net)
    → AllLive net ps
    → Absent c ps net.links
    → chan_user_loop c ps net ≡ ok none
unfolding chan_user_loop
chan_user_none c [] net a off = refl
chan_user_none c (p ∷ ps) net ((cu, there), a) off =
    let e : (cu.chan == c) ≡ false = ground (arith, off p) in
    rw (deref_live p net cu there) (rw e (chan_user_none c ps net a (λ q h. off q (ground arith))))

-- The nick has no object of the channel.
abbrev pub NotOn : ℕ → ℕ → Net → Type 0
NotOn n c net = (q : ℕ) → (on_nick n (net.heap q) && on_chan c (net.heap q)) ≡ false

module _ (fl : ChatFlags) (n c : ℕ) (status : Bits) (net : Net) (v : IsLinked net.links)
    (off : NotOn n c net) where
  with_user : Net
  with_user = set_channels n (net.channels n ++ net.next ∷ []) (listed n c status net)

  with_user-IsLinked : IsLinked with_user.links
  unfolding with_user
  with_user-IsLinked =
      Linked-IsLinked v (listed-Linked n c status net) λ q a h ec en. ground (arith, off q, h)

  listed_live : AllLive (listed n c status net) ((listed n c status net).users c)
  unfolding listed set_users allocate with_user set_channels
  listed_live = AllLive-mem _ (listed n c status net) λ q h.
      let (cu, e, k) =
        live_of c ((listed n c status net).heap q) (sym (with_user-IsLinked.users_eq q c) ∙ h) in
      (cu, e)

  add_user_lem :
      NickOk n net
      → ChanOk c net
      → (after : Net) × (add_user fl n c status net ≡ ok (net.next, after))
        × Quiet (listed n c status net) after
  unfolding add_user listed set_users allocate
  add_user_lem kn kc =
      let made = listed n c status net in
      let (told, r, q) = join_loop_lem fl n c status (made.users c) made kn listed_live in
      let (topical, r', q') = send_topic_lem fl n c status told (rw q.chan_name_eq kc) in
      let q'' = Quiet-trans q q' in
      let live : AllLive topical (topical.users c) =
        rw q''.links_eq (AllLive-links (made.users c) made topical q''.links_eq listed_live) in
      let (named, t, u) = send_names_lem fl n c status topical (rw q''.chan_name_eq kc) live in
      (named, rw (r, r', t), Quiet-trans q'' u)

  not_found : get_chan_user n c net ≡ ok none
  unfolding get_chan_user
  not_found =
      chan_user_none c (net.channels n) net (channels_live net n v)
        λ q h. ground (arith, off q, v.channels_eq q n)

  join_new :
      NickOk n net
      → ChanOk c net
      → (after : Net) × (join fl n c status net ≡ ok (net.next, after))
        × (after.links ≡ with_user.links)
        × (after.nicks ≡ net.nicks)
        × (after.chan_name ≡ net.chan_name)
  unfolding join with_user set_channels listed set_users allocate
  join_new kn kc =
      let (after, r, q) = add_user_lem kn kc in
      let final = set_channels n (after.channels n ++ net.next ∷ []) after in
      (final, rw (not_found, r), rw q.links_eq, q.nicks_eq, q.chan_name_eq)

  -- A nick that is not on the channel joins it: with well-linked pointers, and no space in the
  -- names of the nick and the channel, nothing is thrown and no deleted object is read; the one new
  -- object has the nick, the channel and the status, every other is as it was, and the pointers are
  -- well-linked.
  pub join-IsLinked :
      has b' ' (net.nicks n).nickname ≡ false
      → has b' ' (net.chan_name c) ≡ false
      → (after : Net) × (join fl n c status net ≡ ok (net.next, after))
        × IsLinked after.links
        × ((q : ℕ)
            → after.heap q ≡ (
                if net.next == q
                then some (record { nick = n; chan = c; status = status })
                else net.heap q))
  join-IsLinked kn kc =
      let (after, r, same, kept, named) = join_new kn kc in
      (
        after,
        r,
        rw same with_user-IsLinked,
        λ k.
            ap (λ (l : LinkState). l.heap k) same
            ∙ (unfold with_user set_channels listed set_users allocate in refl),
      )

  -- The same, with what else stays.
  pub join_new-IsLinked :
      NickOk n net
      → ChanOk c net
      → (p : ℕ) × (after : Net) × (join fl n c status net ≡ ok (p, after))
        × IsLinked after.links
        × (after.nicks ≡ net.nicks)
        × (after.chan_name ≡ net.chan_name)
  join_new-IsLinked kn kc =
      let (after, r, same, kept, named) = join_new kn kc in
      (net.next, after, r, rw same with_user-IsLinked, kept, named)
