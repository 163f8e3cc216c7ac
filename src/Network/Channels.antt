-- ===== src/Network/Channels.antt =====
-- The operations of `Channel` (src/irc/channel.cpp) and of `Nick` on channels (src/irc/nick.cpp).
use minbif.Prelude.{
  ℕ, Bool, true, false, not, ◌&&◌, List, [], ◌∷◌, ◌++◌, Option, none, some, Text, codes, is_empty,
  mem, ◌==◌, if◌then◌else◌, text_eq,
}
use minbif.Result.{Result, ok, ◌>>=◌}
use minbif.Bits.{Bits, bits_or, bits_minus, is_zero}
use minbif.Message.{Entity, Message, message, add_arg, set_sender, set_receiver}
use minbif.Token.{upto}
use minbif.Modes.{ChatFlags, get_prefix, get_mode_message}
use minbif.Network.{
  Net, send, deref, allocate, free, write, set_users, set_channels, nick_entity, chan_entity,
}

-- the loop of Channel::broadcast
unfoldable pub broadcast_loop : Message → Option ℕ → List ℕ → Net → Result Net
broadcast_loop m butone [] net = ok net
broadcast_loop m butone (p ∷ ps) net = do
  cu ← deref p net
  broadcast_loop m butone ps
      (if elim butone [ none ↦ false | some n ↦ cu.nick == n ] then net else send cu.nick m net)

unfoldable pub broadcast : Message → Option ℕ → ℕ → Net → Result Net
broadcast m butone c net = broadcast_loop m butone (net.users c) net

-- the loop of Channel::sendNames
unfoldable pub names_loop : ChatFlags → List ℕ → Net → Result Text
names_loop fl [] net = ok []
names_loop fl (p ∷ ps) net = do
  cu ← deref p net
  names ← names_loop fl ps net
  ok (get_prefix fl cu.status ++ ((net.nicks cu.nick).nickname ++ (b' ' ∷ names)))

-- Message(cmd).setSender(irc).setReceiver(nick)
abbrev pub reply : Text → ℕ → Net → Message
reply cmd n net = set_receiver (nick_entity n net) (set_sender net.irc (message cmd))

unfoldable pub send_names : ChatFlags → ℕ → ℕ → Net → Result Net
send_names fl c n net = do
  names ← names_loop fl (net.users c) net
  m ← add_arg (codes "=") (reply (codes "353") n net)
  m ← add_arg (net.chan_name c) m
  m ← add_arg names m
  e ← add_arg (net.chan_name c) (reply (codes "366") n net)
  e ← add_arg (codes "End of /NAMES list") e
  ok (send n e (send n m net))

-- the loop of Channel::addUser
unfoldable pub join_loop : ChatFlags → ℕ → ℕ → Bits → List ℕ → Net → Result Net
join_loop fl n c status [] net = ok net
join_loop fl n c status (p ∷ ps) net = do
  cu ← deref p net
  let joined =
      set_receiver (chan_entity c net) (set_sender (nick_entity n net) (message (codes "JOIN")))
  let told = send cu.nick joined net
  if not (is_zero status) && not (cu.nick == n)
      then (do
        m ← get_mode_message fl (net.nicks n).nickname status true []
        join_loop fl n c status ps
            (send cu.nick (set_receiver (chan_entity c net) (set_sender net.irc m)) told))
      else join_loop fl n c status ps told

unfoldable pub send_topic : ℕ → ℕ → Net → Result Net
send_topic c n net = if is_empty (net.topic c) then ok net else do
  m ← add_arg (net.chan_name c) (reply (codes "332") n net)
  m ← add_arg (net.topic c) m
  ok (send n m net)

-- Channel::addUser, with the new object
unfoldable pub add_user : ChatFlags → ℕ → ℕ → Bits → Net → Result (ℕ × Net)
add_user fl n c status net =
    let p = net.next in
    let made = allocate (record { nick = n; chan = c; status = status }) net in
    let listed = set_users c (net.users c ++ p ∷ []) made in
    do
      told ← join_loop fl n c status (listed.users c) listed
      topical ← send_topic c n told
      named ← send_names fl c n topical
      ok (p, named)

-- The loop of Channel::delUser, with the pointers that stay.
unfoldable pub del_loop : ℕ → Message → List ℕ → Net → Result (List ℕ × Net)
del_loop n m [] net = ok ([], net)
del_loop n m (p ∷ ps) net = do
  cu ← deref p net
  if cu.nick == n then del_loop n m ps (free p net) else (do
    (kept, after) ← del_loop n m ps (if is_empty m.cmd then net else send cu.nick m net)
    ok (p ∷ kept, after))

unfoldable pub del_user : ℕ → ℕ → Message → Net → Result Net
del_user n c m net = do (kept, after) ← del_loop n m (net.users c) net; ok (set_users c kept after)

-- the loop of Nick::getChanUser
unfoldable pub chan_user_loop : ℕ → List ℕ → Net → Result (Option ℕ)
chan_user_loop c [] net = ok none
chan_user_loop c (p ∷ ps) net = do
  cu ← deref p net
  if cu.chan == c then ok (some p) else chan_user_loop c ps net

unfoldable pub get_chan_user : ℕ → ℕ → Net → Result (Option ℕ)
get_chan_user n c net = chan_user_loop c (net.channels n) net

-- Channel::setMode and Channel::delMode; a sender that is NULL stands for the server
unfoldable pub change_mode :
    (Bits → Bits → Bits) → Bool → ChatFlags → Option Entity → Bits → ℕ → ℕ → Net → Result Net
change_mode change adding fl sender modes p c net = if is_zero modes then ok net else do
  cu ← deref p net
  let status = change cu.status modes
  let changed = write p (record cu { status = status }) net
  m ← get_mode_message fl (net.nicks cu.nick).nickname status adding modes
  broadcast
      (set_receiver (chan_entity c net)
        (set_sender (elim sender [ none ↦ net.irc | some e ↦ e ]) m))
      none c changed

abbrev pub set_mode : ChatFlags → Option Entity → Bits → ℕ → ℕ → Net → Result Net
set_mode = change_mode bits_or true

abbrev pub del_mode : ChatFlags → Option Entity → Bits → ℕ → ℕ → Net → Result Net
del_mode = change_mode bits_minus false

-- Nick::join
unfoldable pub join : ChatFlags → ℕ → ℕ → Bits → Net → Result (ℕ × Net)
join fl n c status net = do
  o ← get_chan_user n c net
  elim o [
    | none ↦ (do
      (p, after) ← add_user fl n c status net
      ok (p, set_channels n (after.channels n ++ p ∷ []) after))
    | some p ↦ (do
      cu ← deref p net
      let last = cu.status
      down ← del_mode fl none (bits_minus last status) p c net
      up ← set_mode fl none (bits_minus status last) p c down
      ok (p, up))
  ]

-- Channel::setTopic
unfoldable pub set_topic : Option Entity → Text → ℕ → Net → Result Net
set_topic sender t c net =
    let new_topic = upto (codes "\n") t in
    if text_eq (net.topic c) new_topic then ok net else do
      let titled = record net { topic = λ d. if c == d then new_topic else net.topic d }
      m ← add_arg new_topic (
          set_receiver (chan_entity c net)
            (set_sender (elim sender [ none ↦ net.irc | some e ↦ e ]) (message (codes "TOPIC"))))
      broadcast m none c titled

-- The search of Nick::part: the first pointer to the channel, and the others.
unfoldable pub part_loop : ℕ → List ℕ → Net → Result (Option (ℕ × List ℕ))
part_loop c [] net = ok none
part_loop c (p ∷ ps) net = do
  cu ← deref p net
  if cu.chan == c then ok (some (p, ps)) else (do
    found ← part_loop c ps net
    ok (elim found [ none ↦ none | some (q, rest) ↦ some (q, p ∷ rest) ]))

-- Nick::part
unfoldable pub part : ℕ → ℕ → Text → Net → Result Net
part n c text net = do
  m ←
      add_arg text
        (set_receiver (chan_entity c net) (set_sender (nick_entity n net) (message (codes "PART"))))
  found ← part_loop c (net.channels n) net
  elim found [
    | none ↦ ok net
    | some (p, rest) ↦ del_user n c m (send n m (set_channels n rest net))
  ]

-- The inner loop of Nick::quit: who has been told.
unfoldable pub tell_loop : Message → List ℕ → List ℕ → Net → Result (List ℕ × Net)
tell_loop m sended [] net = ok (sended, net)
tell_loop m sended (p ∷ ps) net = do
  cu ← deref p net
  if mem cu.nick sended
      then tell_loop m sended ps net
      else tell_loop m (sended ++ cu.nick ∷ []) ps (send cu.nick m net)

-- the loop of Nick::quit over the channels
unfoldable pub quit_loop : ℕ → Message → List ℕ → List ℕ → Net → Result Net
quit_loop n m sended [] net = ok net
quit_loop n m sended (p ∷ ps) net = do
  cu ← deref p net
  (told, after) ← tell_loop m sended (net.users cu.chan) net
  gone ← del_user n cu.chan (message []) after
  quit_loop n m told ps (set_channels n ps gone)

unfoldable pub quit : ℕ → Text → Net → Result Net
quit n text net = do
  m ← add_arg text (set_sender (nick_entity n net) (message (codes "QUIT")))
  quit_loop n m [] (net.channels n) net

-- the loop of Nick::removeChanUser
unfoldable pub remove : ℕ → List ℕ → List ℕ
remove p [] = []
remove p (q ∷ qs) = if q == p then remove p qs else q ∷ remove p qs

-- the loop of Channel::~Channel
unfoldable pub close_loop : ℕ → List ℕ → Net → Result Net
close_loop c [] net = ok net
close_loop c (p ∷ ps) net = do
  cu ← deref p net
  let m =
      set_receiver (chan_entity c net)
        (set_sender (nick_entity cu.nick net) (message (codes "PART")))
  let told = send cu.nick m net
  let unlinked = set_channels cu.nick (remove p (told.channels cu.nick)) told
  close_loop c ps (free p unlinked)

-- Channel::~Channel
unfoldable pub close : ℕ → Net → Result Net
close c net = do after ← close_loop c (net.users c) net; ok (set_users c [] after)
