-- ===== src/Chat/Moderation.antt =====
-- src/irc/cmds_channels.cpp and src/irc/cmds.cpp: KICK, KILL, SVSNICK and MODE, with `getChanUser` and
-- `m_mode` of src/irc/channel.cpp.
use minbif.Prelude.{
  ℕ, Bool, true, false, not, List, [], ◌∷◌, ◌++◌, Option, none, some, Text, codes, is_empty, length,
  ltb, text_eq, ◌==◌, if◌then◌else◌,
}
use minbif.Result.{Result, ok, ◌>>=◌}
use minbif.Message.{Message, message, add_arg, get_arg, set_sender, set_receiver, strlower}
use minbif.Token.{tokens}
use minbif.Nick.{is_valid_nickname, set_nickname}
use minbif.Network.{Net, send, deref, nick_entity}
use minbif.Network.Channels.{get_chan_user, quit}
use minbif.Registry.{get_nick, rename_nick}
use minbif.Irc.{add_args}
use minbif.Chat.{
  Chat, Peers, remove_buddy, set_alias, is_chan_name, get_channel, answer, no_such_channel,
}

-- The loop of Channel::getChanUser; name is in lower case.
unfoldable pub named_loop : Text → List ℕ → Net → Result (Option ℕ)
named_loop name [] net = ok none
named_loop name (p ∷ ps) net = do
  cu ← deref p net
  if text_eq (strlower (net.nicks cu.nick).nickname) name
      then ok (some p)
      else named_loop name ps net

-- Channel::getChanUser
unfoldable pub get_chan_user_named : ℕ → Text → Net → Result (Option ℕ)
get_chan_user_named c name net = named_loop (strlower name) (net.users c) net

-- IRC::notice to the user
unfoldable pub notice_loop : List Text → Chat → Result Chat
notice_loop [] s = ok s
notice_loop (t ∷ ts) s = answer (codes "NOTICE") (t ∷ []) s >>= notice_loop ts

unfoldable pub notice : Text → Chat → Result Chat
notice msg s = notice_loop (tokens (codes "\n\r") msg) s

unfoldable pub m_kick : Peers → Message → Chat → Result Chat
m_kick v m s = do
  name ← get_arg 0 m
  elim (get_channel name s) [
    | none ↦ no_such_channel name s
    | some c ↦ (do
      mine ← get_chan_user s.user c s.net
      elim mine [
        | none ↦
            answer (codes "442") (s.net.chan_name c ∷ codes "You're not on that channel" ∷ []) s
        | some p ↦ (do
          nick ← get_arg 1 m
          theirs ← get_chan_user_named c nick s.net
          elim theirs [
            | none ↦ answer (codes "401") (nick ∷ codes "No such nick" ∷ []) s
            | some q ↦ (do
              reason ← (if ltb 2 (length m.args) then get_arg 2 m else ok [])
              net ← v.kick c p q reason s.net
              ok (record s { net = net }))
          ])
      ])
  ]

unfoldable pub m_kill : Peers → Message → Chat → Result Chat
m_kill v m s = do
  name ← get_arg 0 m
  elim (get_nick name false s.registry) [
    | none ↦ answer (codes "401") (name ∷ codes "No such nick" ∷ []) s
    | some n ↦
        let nick = (s.net.nicks n).nickname in
        if not (v.is_buddy n)
        then answer (codes "481") (codes "Permission denied: you can only kill a buddy" ∷ []) s
        else if not (v.is_remote n)
        then notice (nick ++ codes " is not on a remote server") s
        else (do
          more ← (if ltb 1 (length m.args) then get_arg 1 m else ok [])
          let reason =
              codes "Removed from buddy list" ++ (if is_empty more then [] else codes ": " ++ more)
          s ← notice (codes "Received KILL message for " ++ (nick ++ (codes ": " ++ reason))) s
          net ←
              quit n
                (codes "Killed by "
                  ++ ((s.net.nicks s.user).nickname ++ (codes " (" ++ (reason ++ codes ")"))))
                s.net
          ok (record s { net = net; asked = s.asked ++ remove_buddy n ∷ [] }))
  ]

-- renameNick, on the map and on the nick
unfoldable pub rename : ℕ → Text → Chat → Chat
rename n newnick s = record s {
  registry = rename_nick n newnick s.registry;
  net = record s.net {
    nicks = λ k. if n == k then set_nickname newnick (s.net.nicks k) else s.net.nicks k;
  };
}

unfoldable pub m_svsnick : Peers → Message → Chat → Result Chat
m_svsnick v m s = do
  name ← get_arg 0 m
  elim (get_nick name false s.registry) [
    | none ↦ answer (codes "401") (name ∷ codes "No such nick" ∷ []) s
    | some n ↦
        if not (v.is_buddy n)
        then answer (codes "481")
            (codes "Permission denied: you can only change buddy nickname" ∷ []) s
        else (do
          newnick ← get_arg 1 m
          if not (is_valid_nickname newnick)
              then answer (codes "432") (codes "This nick contains invalid characters" ∷ []) s
              else if elim (get_nick newnick false s.registry) [
                | none ↦ false
                | some k ↦ not (k == n)
              ]
              then answer (codes "433") (newnick ∷ codes "Nickname is already in use" ∷ []) s
              else (do
                told ← add_arg newnick (set_sender (nick_entity n s.net) (message (codes "NICK")))
                let renamed = rename n newnick (record s { net = send s.user told s.net })
                ok (record renamed { asked = renamed.asked ++ set_alias n newnick ∷ [] })))
  ]

-- The loop of Channel::m_mode over the letters, with the arguments that are left.
unfoldable pub mode_loop : Peers → ℕ → Text → List Text → Bool → Net → Result Net
mode_loop v c [] args add net = ok net
mode_loop v c (x ∷ xs) args add net =
    if x == b'+'
    then mode_loop v c xs args true net
    else if x == b'-'
    then mode_loop v c xs args false net
    else if x == b'b'
    then elim args [
      | [] ↦ (v.show_bans c net >>= mode_loop v c xs [] add)
      | a ∷ rest ↦ (v.process_ban c a add net >>= mode_loop v c xs rest add)
    ]
    else mode_loop v c xs args add net

-- Channel::m_mode
unfoldable pub channel_mode : Peers → ℕ → List Text → Chat → Result Chat
channel_mode v c [] s = do
  s ← answer (codes "324") (s.net.chan_name c ∷ codes "+" ∷ []) s
  answer (codes "329") (s.net.chan_name c ∷ codes "1212313" ∷ []) s
channel_mode v c (modes ∷ args) s = do
  net ← mode_loop v c modes args true s.net
  ok (record s { net = net })

-- User::m_mode, with User::getModes, and Nick::m_mode
unfoldable pub nick_mode : Peers → Bool → ℕ → List Text → Chat → Result Chat
nick_mode v is_oper n args s =
    let from = λ (cmd : Text).
      set_receiver (nick_entity s.user s.net) (set_sender (v.server_of n) (message cmd)) in
    if n == s.user
    then elim args [
      | [] ↦ (do
        m ← add_arg (codes "+" ++ (if is_oper then codes "o" else [])) (from (codes "221"))
        ok (record s { net = send s.user m s.net }))
      | a ∷ r ↦ ok s
    ]
    else (do
      m ← add_arg (codes "Permission Denied: Insufficient privileges") (from (codes "481"))
      ok (record s { net = send s.user m s.net }))

-- message.getArg(i) for each i from 1 on
unfoldable pub behind_target : List Text → List Text
behind_target [] = []
behind_target (a ∷ args) = args

-- IRC::m_mode; is_oper is user->hasFlag(OPER)
unfoldable pub m_mode : Peers → Bool → Message → Chat → Result Chat
m_mode v is_oper m s = do
  target ← get_arg 0 m
  relayed ← add_args (behind_target m.args) (set_sender (nick_entity s.user s.net) (message m.cmd))
  if is_chan_name target
      then elim (get_channel target s) [
        | none ↦ answer (codes "403") (target ∷ codes "No suck channel" ∷ []) s
        | some c ↦ channel_mode v c relayed.args s
      ]
      else elim (get_nick target false s.registry) [
        | none ↦ answer (codes "401") (target ∷ codes "No suck nick" ∷ []) s
        | some n ↦ nick_mode v is_oper n relayed.args s
      ]
