-- ===== src/Chat.antt =====
-- src/irc/cmds_channels.cpp: the handlers that act on nicks and channels. A session's nicks, channels
-- and maps stand together; what buddies, conversations and libpurple answer is a record.

pub mod Moderation
pub mod Targets
pub mod Joins
pub mod Joining
pub mod Privmsg
pub mod Queries
use minbif.Prelude.{
  ℕ, ◌+◌, ◌≡◌, Bool, true, false, not, ◌&&◌, ◌||◌, List, [], ◌∷◌, ◌++◌, Option, none, some, Text,
  codes, is_empty, first, has, length, ltb, ◌==◌, if◌then◌else◌,
}
use minbif.Result.{Result, ok, err, ◌>>=◌}
use minbif.Bits.{Bits, single}
use minbif.Message.{Entity, Message, message, add_arg, get_arg, set_sender, set_receiver}
use minbif.Token.{tokens}
use minbif.Nick.{NickInfo, is_valid_nickname, set_nickname}
use minbif.Modes.{ChatFlags}
use minbif.Network.{Net, send, nick_entity, chan_entity}
use minbif.Network.Channels.{reply, broadcast, send_names, get_chan_user, set_topic}
use minbif.Network.Channels
use minbif.Irc.{add_args}
use minbif.Registry.{Registry, find, get_nick, rename_nick}

-- What libpurple and the event loop are asked to do.
pub data Request : Type 0 where
  remove_buddy : ℕ → Request
  set_alias : ℕ → Text → Request
  enqueue_join : Text → Text → Request
  check_join : Text → Request
  room_list : Text → Request

pub record Chat : Type 0 where
  pub net : Net
  pub registry : Registry
  -- IRC::channels
  pub channels : List (Text × ℕ)
  -- IRC::user
  pub user : ℕ
  pub asked : List Request

-- The virtual methods of the nicks and channels that are there.
pub record Peers : Type 0 where
  pub is_online : ℕ → Bool
  pub is_away : ℕ → Bool
  pub away_message : ℕ → Text
  -- dynamic_cast<Buddy*>, and dynamic_cast<RemoteServer*> of its server
  pub is_buddy : ℕ → Bool
  pub is_remote : ℕ → Bool
  -- Channel::kick, with the two ChanUser objects, and Channel::invite
  pub kick : ℕ → ℕ → ℕ → Text → Net → Result Net
  pub invite : ℕ → Text → Bool
  -- Channel::showBanList and Channel::processBan
  pub show_bans : ℕ → Net → Result Net
  pub process_ban : ℕ → Text → Bool → Net → Result Net
  -- Nick::getServer
  pub server_of : ℕ → Entity

-- Channel::isChanName
unfoldable pub is_chan_name : Text → Bool
is_chan_name name =
    not (is_empty name) && (not (has b' ' name) && (first name == b'&' || first name == b'#'))

-- IRC::getChannel
unfoldable pub get_channel : Text → Chat → Option ℕ
get_channel name s = find name s.channels

-- user->send(Message(cmd).setSender(this).setReceiver(user).addArg...)
unfoldable pub answer : Text → List Text → Chat → Result Chat
answer cmd args s = do
  m ← add_args args (reply cmd s.user s.net)
  ok (record s { net = send s.user m s.net })

unfoldable pub no_such_channel : Text → Chat → Result Chat
no_such_channel name s = answer (codes "403") (name ∷ codes "No such channel" ∷ []) s

-- The loop of IRC::m_privmsg over the targets, with the message that is relayed.
unfoldable pub privmsg_loop : Peers → Text → List Text → Message → Chat → Result Chat
privmsg_loop v text [] relayed s = ok s
privmsg_loop v text (t ∷ ts) relayed s = do
  m ← add_arg text (set_sender (nick_entity s.user s.net) relayed)
  if is_chan_name t
      then elim (get_channel t s) [
        | none ↦ answer (codes "403") (t ∷ codes "No suck channel" ∷ []) s
        | some c ↦ (do
          let m = set_receiver (chan_entity c s.net) m
          net ← broadcast m (some s.user) c s.net
          privmsg_loop v text ts m (record s { net = net }))
      ]
      else elim (get_nick t false s.registry) [
        | none ↦ answer (codes "401") (t ∷ codes "No suck nick" ∷ []) s
        | some n ↦ (do
          let m = set_receiver (nick_entity n s.net) m
          let told = record s { net = send n m s.net }
          after ←
              (if v.is_away n
                then answer (codes "301") ((told.net.nicks n).nickname ∷ v.away_message n ∷ []) told
                else ok told)
          privmsg_loop v text ts m after)
      ]

unfoldable pub m_privmsg : Peers → Message → Chat → Result Chat
m_privmsg v m s = do
  targets ← get_arg 0 m
  text ← get_arg 1 m
  privmsg_loop v text (tokens (codes ",") targets) (message m.cmd) s

unfoldable pub m_part : Message → Chat → Result Chat
m_part m s = do
  name ← get_arg 0 m
  reason ← (if ltb 1 (length m.args) then get_arg 1 m else ok [])
  elim (get_channel name s) [
    | none ↦ no_such_channel name s
    | some c ↦ (do net ← Channels.part s.user c reason s.net; ok (record s { net = net }))
  ]

unfoldable pub m_names : ChatFlags → Message → Chat → Result Chat
m_names fl m s = do
  name ← get_arg 0 m
  elim (get_channel name s) [
    | none ↦ no_such_channel name s
    | some c ↦ (do net ← send_names fl c s.user s.net; ok (record s { net = net }))
  ]

-- Channel::setTopic always succeeds.
unfoldable pub m_topic : Message → Chat → Result Chat
m_topic m s = do
  name ← get_arg 0 m
  elim (get_channel name s) [
    | none ↦ no_such_channel name s
    | some c ↦
        if ltb (length m.args) 2
        then (if is_empty (s.net.topic c)
            then answer (codes "331") (s.net.chan_name c ∷ codes "No topic set." ∷ []) s
            else answer (codes "332") (s.net.chan_name c ∷ s.net.topic c ∷ []) s)
        else (do
          topic ← get_arg 1 m
          net ← set_topic (some (nick_entity s.user s.net)) topic c s.net
          ok (record s { net = net }))
  ]

-- the loop of IRC::m_ison over the arguments
unfoldable pub ison_loop : Peers → List Text → Text → Chat → Text
ison_loop v [] list s = list
ison_loop v (a ∷ args) list s =
    ison_loop v args
      (elim (get_nick a false s.registry) [
        | none ↦ list
        | some n ↦
            if v.is_online n
            then (if is_empty list then [] else list ++ b' ' ∷ []) ++ (s.net.nicks n).nickname
            else list
      ])
      s

unfoldable pub m_ison : Peers → Message → Chat → Result Chat
m_ison v m s = answer (codes "303") (ison_loop v m.args [] s ∷ []) s

unfoldable pub m_whowas : Message → Chat → Result Chat
m_whowas m s = do
  name ← get_arg 0 m
  s ← answer (codes "406") (name ∷ codes "Nick does not exist" ∷ []) s
  answer (codes "369") (name ∷ codes "End of WHOWAS" ∷ []) s

unfoldable pub m_invite : Peers → Message → Chat → Result Chat
m_invite v m s = do
  nick ← get_arg 0 m
  name ← get_arg 1 m
  elim (get_channel name s) [
    | none ↦ no_such_channel name s
    | some c ↦
        if v.invite c nick then answer (codes "341") (nick ∷ s.net.chan_name c ∷ []) s else ok s
  ]
