-- ===== src/Chat/Joins.antt =====
-- JOIN with its check one second later, and LIST (src/irc/cmds_channels.cpp).
use minbif.Prelude.{
  ℕ, Bool, not, ◌||◌, List, [], ◌∷◌, ◌++◌, none, some, Text, codes, is_empty, first, length, ltb,
  ◌==◌, if◌then◌else◌,
}
use minbif.Result.{Result, ok, ◌>>=◌}
use minbif.Bits.{single}
use minbif.Message.{behind_first, Message, get_arg}
use minbif.Token.{tokens, stringtok}
use minbif.Modes.{ChatFlags}
use minbif.Network.Channels.{join}
use minbif.Chat.{
  Chat, Request, enqueue_join, check_join, room_list, is_chan_name, get_channel, answer,
  no_such_channel,
}

-- What libpurple knows of accounts, by the name that stands in a channel's name.
pub record Accounts : Type 0 where
  pub is_valid : Text → Bool
  pub is_connected : Text → Bool
  -- joinChat, during which libpurple may call the session back
  pub join_chat : Text → Text → Text → Chat → Bool × Chat
  pub url_decode : Text → Text

abbrev pub ask : Request → Chat → Chat
ask r s = record s { asked = s.asked ++ r ∷ [] }

-- The part of JOIN for a channel of an account that is not there yet.
unfoldable pub join_account : Accounts → Text → Text → Chat → Result (Text × Chat)
unfolding stringtok
join_account v name parameters s =
    let (conv, accid) = stringtok (codes ":") (behind_first name) in
    let (param, left) = stringtok (codes ",") parameters in
    let refused = no_such_channel name s >>= λ s'. ok (left, s') in
    if is_empty accid || is_empty (v.url_decode conv)
    then refused
    else if not (v.is_valid accid)
    then refused
    else if not (v.is_connected accid)
    then ok (left, ask (enqueue_join accid (v.url_decode conv)) s)
    else (let (joins, s) = v.join_chat accid (v.url_decode conv) (v.url_decode param) s in
        if not joins
        then (no_such_channel name s >>= λ s'. ok (left, s'))
        else ok (left, ask (check_join name) s))

-- The part of JOIN for a channel of an account, with what is left of the parameters.
unfoldable pub join_remote : Accounts → Text → Text → Chat → Result (Text × Chat)
join_remote v name parameters s = elim (get_channel name s) [
  | some c ↦ ok (parameters, s)
  | none ↦ join_account v name parameters s
]

-- The loop of IRC::m_join over the channels.
unfoldable pub join_targets : ChatFlags → Accounts → List Text → Text → Chat → Result Chat
join_targets fl v [] parameters s = ok s
join_targets fl v (name ∷ names) parameters s =
    if not (is_chan_name name)
    then (no_such_channel name s >>= join_targets fl v names parameters)
    else if first name == b'&'
    then elim (get_channel name s) [
      | none ↦ (no_such_channel name s >>= join_targets fl v names parameters)
      | some c ↦ (do
        (p, net) ← join fl s.user c (single fl.op) s.net
        join_targets fl v names parameters (record s { net = net }))
    ]
    else (do (left, after) ← join_remote v name parameters s; join_targets fl v names left after)

unfoldable pub m_join : ChatFlags → Accounts → Message → Chat → Result Chat
m_join fl v m s = do
  names ← get_arg 0 m
  parameters ← (if ltb 1 (length m.args) then get_arg 1 m else ok [])
  join_targets fl v (tokens (codes ",") names) parameters s

-- IRC::check_channel_join
unfoldable pub check_channel_join : Text → Chat → Result Chat
check_channel_join name s = elim (get_channel name s) [
  | none ↦ no_such_channel name s
  | some c ↦ ok s
]

-- The loop of IRC::m_list over the channels; t2s prints a number.
unfoldable pub list_loop : (ℕ → Text) → List (Text × ℕ) → Chat → Result Chat
list_loop t2s [] s = ok s
list_loop t2s ((key, c) ∷ cs) s =
    answer (codes "322") (s.net.chan_name c ∷ t2s (length (s.net.users c)) ∷ []) s
    >>= list_loop t2s cs

unfoldable pub m_list : (ℕ → Text) → Accounts → Message → Chat → Result Chat
m_list t2s v m s = elim m.args [
  | [] ↦ (do
    s ← answer (codes "321") (codes "Channel" ∷ codes "Users  Name" ∷ []) s
    s ← list_loop t2s s.channels s
    answer (codes "323") (codes "End of /LIST" ∷ []) s)
  | a ∷ args ↦
      if not (v.is_valid a) || not (v.is_connected a)
      then answer (codes "323") (codes "End of /LIST" ∷ []) s
      else ok (ask (room_list a) s)
]
