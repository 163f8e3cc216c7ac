-- ===== src/Chat/Joining.antt =====
-- What JOIN keeps (src/irc/cmds_channels.cpp).
use minbif.Prelude.{
  ℕ, suc, ◌≡◌, refl, ap, Bool, true, false, not, ◌||◌, List, [], ◌∷◌, none, some, Text, codes,
  is_empty, first, has, length, ltb, ◌==◌, if◌then◌else◌, arith, Option-cases, inl, inr, all,
}
use minbif.Result.{Result, ok, ◌>>=◌}
use minbif.Bits.{single}
use minbif.Message.{behind_first, Message, add_arg, get_arg, spaced_back}
use minbif.Token.{tokens, stringtok}
use minbif.Modes.{ChatFlags}
use minbif.Network.{send}
use minbif.Network.Channels.{join, reply}
use minbif.Network.Links.{IsLinked}
use minbif.Network.Joining.{NickOk, ChanOk}
use minbif.Network.Rejoining.{join_any-IsLinked}
use minbif.Irc.{add_args}
use minbif.Chat.Joins.{Accounts, ask, join_account, join_remote, join_targets, m_join}
use minbif.Token.Free.{tokens_free}
use minbif.Chat.{
  Chat, Request, enqueue_join, check_join, is_chan_name, get_channel, answer, no_such_channel,
}

-- What JOIN relies on and keeps: the pointers are linked, and the names have no space.
pub record IsJoinable (s : Chat) : Type 0 where
  pub links : IsLinked s.net.links
  pub nick : NickOk s.user s.net
  pub chans : (c : ℕ) → ChanOk c s.net

-- While an account joins a chat, the session is called back only in ways that keep IsJoinable.
abbrev pub KeepsJoinable : Accounts → Type 0
KeepsJoinable v =
    (accid conv param : Text) (s : Chat)
    → IsJoinable s
    → IsJoinable (v.join_chat accid conv param s).1

abbrev pub Joins : Result Chat → Type 0
Joins r = (after : Chat) × (r ≡ ok after) × IsJoinable after

abbrev pub JoinsLeft : Result (Text × Chat) → Type 0
JoinsLeft r = (left : Text) × (after : Chat) × (r ≡ ok (left, after)) × IsJoinable after

choose : {A : Type 0} (P : A → Type 0) (b : Bool) {x y : A} → P x → P y → P (if b then x else y)
choose P true hx hy = hx
choose P false hx hy = hy

no_such_channel-Joins :
    (name : Text) (s : Chat) → has b' ' name ≡ false → IsJoinable s → Joins (no_such_channel name s)
unfolding no_such_channel answer add_args add_arg spaced_back send
no_such_channel-Joins name s h j =
    let m = record (reply (codes "403") s.user s.net) {
      args = name ∷ codes "No such channel" ∷ [];
    } in
    (
      record s { net = send s.user m s.net },
      rw h refl,
      record { links = j.links; nick = j.nick; chans = j.chans },
    )

asked-JoinsLeft :
    (left : Text) (r : Request) (s : Chat) → IsJoinable s → JoinsLeft (ok (left, ask r s))
asked-JoinsLeft left r s j =
    (left, ask r s, refl, record { links = j.links; nick = j.nick; chans = j.chans })

refused-JoinsLeft :
    (left name : Text) (s : Chat)
    → has b' ' name ≡ false
    → IsJoinable s
    → JoinsLeft (no_such_channel name s >>= λ s'. ok (left, s'))
refused-JoinsLeft left name s h j =
    let (refused, r, k) = no_such_channel-Joins name s h j in
    (left, refused, ap (λ x. x >>= λ s'. ok (left, s')) r, k)

join_account-JoinsLeft :
    (v : Accounts) (w : KeepsJoinable v) (name parameters : Text) (s : Chat)
    → has b' ' name ≡ false
    → IsJoinable s
    → JoinsLeft (join_account v name parameters s)
unfolding join_account
join_account-JoinsLeft v w name parameters s h j =
    let left = (stringtok (codes ",") parameters).1 in
    let no = refused-JoinsLeft left name s h j in
    let accid = (stringtok (codes ":") (behind_first name)).1 in
    let conv = v.url_decode (stringtok (codes ":") (behind_first name)).0 in
    let param = v.url_decode (stringtok (codes ",") parameters).0 in
    choose JoinsLeft (is_empty accid || is_empty conv) no (
      choose JoinsLeft (not (v.is_valid accid)) no (
        choose JoinsLeft (not (v.is_connected accid))
          (asked-JoinsLeft left (enqueue_join accid conv) s j)
          (let t = (v.join_chat accid conv param s).1 in
            let k = w accid conv param s j in
            choose JoinsLeft (not (v.join_chat accid conv param s).0)
              (refused-JoinsLeft left name t h k) (asked-JoinsLeft left (check_join name) t k))))

join_remote-JoinsLeft :
    (v : Accounts) (w : KeepsJoinable v) (name parameters : Text) (s : Chat)
    → has b' ' name ≡ false
    → IsJoinable s
    → JoinsLeft (join_remote v name parameters s)
unfolding join_remote
join_remote-JoinsLeft v w name parameters s h j = elim (Option-cases (get_channel name s)) [
  | inl e ↦ rw (join_remote, e) (join_account-JoinsLeft v w name parameters s h j)
  | inr (c, e) ↦ rw (join_remote, e) (parameters, s, refl, j)
]

-- a step, and what follows it
Joins-bind :
    (r : Result Chat) (f : Chat → Result Chat)
    → Joins r
    → ((s : Chat) → IsJoinable s → Joins (f s))
    → Joins (r >>= f)
Joins-bind r f (s, e, j) k = rw e (k s j)

JoinsLeft-bind :
    (r : Result (Text × Chat)) (f : Text → Chat → Result Chat)
    → JoinsLeft r
    → ((left : Text) (s : Chat) → IsJoinable s → Joins (f left s))
    → Joins (r >>= λ x. f x.0 x.1)
JoinsLeft-bind r f (left, s, e, j) k = rw e (k left s j)

join_here-Joins :
    (fl : ChatFlags) (c : ℕ) (s : Chat) (f : Chat → Result Chat)
    → IsJoinable s
    → ((s' : Chat) → IsJoinable s' → Joins (f s'))
    → Joins (join fl s.user c (single fl.op) s.net >>= λ r. f (record s { net = r.1 }))
join_here-Joins fl c s f j k =
    let (p, net, r, v, kept, named) =
      join_any-IsLinked fl s.user c (single fl.op) s.net j.links j.nick (j.chans c) in
    let after =
      k (record s { net = net })
        (record { links = v; nick = rw kept j.nick; chans = λ d. rw named (j.chans d) }) in
    rw r after

join_targets-Joins :
    (fl : ChatFlags) (v : Accounts) (w : KeepsJoinable v) (names : List Text) (parameters : Text)
    (s : Chat)
    → all (λ n. not (has b' ' n)) names ≡ true
    → IsJoinable s
    → Joins (join_targets fl v names parameters s)
unfolding join_targets
join_targets-Joins fl v w [] parameters s h j = (s, refl, j)
join_targets-Joins fl v w (name ∷ names) parameters s h j =
    let clean : has b' ' name ≡ false = ground arith in
    let rest : all (λ n. not (has b' ' n)) names ≡ true = ground arith in
    let no =
      Joins-bind (no_such_channel name s) (join_targets fl v names parameters)
        (no_such_channel-Joins name s clean j)
        (λ s' j'. join_targets-Joins fl v w names parameters s' rest j') in
    let next = join_targets fl v names parameters in
    let here : Joins (elim (get_channel name s) [
      | none ↦ (no_such_channel name s >>= next)
      | some c ↦ (do
        (p, net) ← join fl s.user c (single fl.op) s.net
        next (record s { net = net }))
    ]) =
      elim (Option-cases (get_channel name s)) [
        | inl e ↦ rw e no
        | inr (c, e) ↦ rw e (
            join_here-Joins fl c s next j
              (λ s' j'. join_targets-Joins fl v w names parameters s' rest j'))
      ] in
    let remote =
      JoinsLeft-bind (join_remote v name parameters s) (join_targets fl v names)
        (join_remote-JoinsLeft v w name parameters s clean j)
        (λ left s' j'. join_targets-Joins fl v w names left s' rest j') in
    choose Joins (not (is_chan_name name)) no (choose Joins (first name == b'&') here remote)

-- On a session whose pointers between nicks and channels are linked, and where neither the name of the
-- user nor that of a channel has a space, a JOIN whose list of channels has no space returns, whatever
-- the list means, and leaves such a session, if joinChat of an account leaves one whenever libpurple
-- calls back.
pub m_join-Joins :
    (fl : ChatFlags) (v : Accounts) (w : KeepsJoinable v) (m : Message) (names : Text)
    (rest : List Text) (s : Chat)
    → m.args ≡ names ∷ rest
    → has b' ' names ≡ false
    → IsJoinable s
    → Joins (m_join fl v m s)
unfolding m_join get_arg
m_join-Joins fl v w m names [] s e h j = rw e (
    join_targets-Joins fl v w (tokens (codes ",") names) [] s (tokens_free (codes ",") b' ' names h)
      j)
m_join-Joins fl v w m names (a ∷ rest) s e h j =
    let two : ltb 1 (suc (suc (length rest))) ≡ true = ground arith in
    rw (e, two)
      (join_targets-Joins fl v w (tokens (codes ",") names) a s
        (tokens_free (codes ",") b' ' names h) j)
