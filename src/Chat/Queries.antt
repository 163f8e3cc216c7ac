-- ===== src/Chat/Queries.antt =====
-- src/irc/cmds_channels.cpp: WHO, WHOIS and CMD.
use minbif.Prelude.{
  ℕ, zero, suc, Bool, true, false, not, ◌&&◌, ◌||◌, List, [], ◌∷◌, ◌++◌, Option, none, some, Text,
  codes, is_empty, first, length, ltb, text_eq, ◌==◌, if◌then◌else◌,
}
use minbif.Result.{Result, ok, err, out_of_range, ◌>>=◌}
use minbif.Message.{Message, get_arg}
use minbif.Token.{tokens}
use minbif.Registry.{get_nick}
use minbif.Network.{Net, deref}
use minbif.Network.Channels.{get_chan_user}
use minbif.Chat.{Chat, Peers, is_chan_name, get_channel, answer}

-- CacaImage::getIRCBuffer: the lines, CacaError, or CacaNotLoaded
pub data Icon : Type 0 where
  drawn : Text → Icon
  no_icon : Icon
  not_loaded : Icon

-- PURPLE_CMD_STATUS_*, and any other number
pub data CommandStatus : Type 0 where
  status_ok : CommandStatus
  not_found : CommandStatus
  wrong_args : CommandStatus
  failed : CommandStatus
  wrong_type : CommandStatus
  wrong_prpl : CommandStatus
  other_status : CommandStatus

-- What WHO, WHOIS and CMD ask of nicks, servers, the configuration and libpurple.
pub record Profiles : Type 0 where
  -- getServer()->getServerName() and getServerInfo()
  pub server_name : ℕ → Text
  pub server_info : ℕ → Text
  pub status_message : ℕ → Bool → Text
  pub is_oper : ℕ → Bool
  pub fnmatch : Text → Text → Bool
  pub icon : ℕ → ℕ → Icon
  pub icon_path : ℕ → Text
  -- irc/buddy_icons_url, im->getUserPath() and im->getUsername()
  pub icons_url : Text
  pub user_path : Text
  pub username : Text
  pub retrieve_info : ℕ → Bool
  pub channel_command : ℕ → Text → CommandStatus
  pub nick_command : ℕ → Text → CommandStatus

-- strchr("+-", c), which finds the end of the text for 0
unfoldable pub is_sign : ℕ → Bool
is_sign c = c == 0 || c == b'+' || c == b'-'

-- the loop over the letters of a flag argument: WHO_STATUS is set or not
unfoldable pub who_flags : Text → Bool → Bool → Bool
who_flags [] add status = status
who_flags (c ∷ cs) add status =
    if c == b'+'
    then who_flags cs true status
    else if c == b'-'
    then who_flags cs false status
    else who_flags cs add (if c == b's' then add else status)

-- The loop over the arguments: WHO_STATUS, and the last argument that is no flag.
unfoldable pub who_args : List Text → Bool → Text → Bool × Text
who_args [] status arg = (status, arg)
who_args (a ∷ rest) status arg =
    if is_sign (first a)
    then who_args rest (who_flags a true status) arg
    else who_args rest status a

unfoldable pub begins : Text → Text → Bool
begins [] s = true
begins (p ∷ ps) [] = false
begins (p ∷ ps) (c ∷ cs) = p == c && begins ps cs

-- s.find(p) != npos
unfoldable pub contains : Text → Text → Bool
contains p [] = is_empty p
contains p (c ∷ cs) = begins p (c ∷ cs) || contains p cs

-- The channel to show for a nick, none when the nick is passed over.
unfoldable pub who_channel : Profiles → Text → Option ℕ → ℕ → Net → Result (Option Text)
who_channel v arg chan n net =
    if is_empty arg
      || (text_eq arg (codes "*")
          || (text_eq arg (codes "0")
              || (contains arg (v.server_name n) || v.fnmatch arg (net.nicks n).nickname)))
    then elim (net.channels n) [
      | [] ↦ ok (some (codes "*"))
      | p ∷ ps ↦ (do cu ← deref p net; ok (some (net.chan_name cu.chan)))
    ]
    else elim chan [
      | none ↦ ok none
      | some c ↦ (do on ← get_chan_user n c net; ok (elim on [ none ↦ none | some p ↦ some arg ]))
    ]

-- The loop of IRC::m_who over the nicks.
unfoldable pub who_loop :
    Profiles → Peers → Text → Bool → Option ℕ → List (Text × ℕ) → Chat → Result Chat
who_loop v w arg status chan [] s = ok s
who_loop v w arg status chan ((key, n) ∷ ns) s = do
  shown ← who_channel v arg chan n s.net
  s ← elim shown [
    | none ↦ ok s
    | some name ↦
        answer (codes "352")
          (name
            ∷ (s.net.nicks n).identname
            ∷ (s.net.nicks n).hostname
            ∷ v.server_name n
            ∷ (s.net.nicks n).nickname
            ∷ (if w.is_away n then codes "G" else codes "H")
            ∷ (codes "0 " ++ (if status then v.status_message n true else (s.net.nicks n).realname))
            ∷ [])
          s
  ]
  who_loop v w arg status chan ns s

unfoldable pub m_who : Profiles → Peers → Message → Chat → Result Chat
m_who v w m s = do
  let (status, arg) = who_args m.args false []
  let open_search = is_empty arg || not (is_chan_name arg)
  let chan = if open_search then none else get_channel arg s
  s ←
      (if open_search || (elim chan [ none ↦ false | some c ↦ true ])
        then who_loop v w arg status chan s.registry.users s
        else ok s)
  answer (codes "315") ((if is_empty arg then codes "**" else arg) ∷ codes "End of /WHO list" ∷ [])
      s

-- The names of the channels of a nick, one space between them.
unfoldable pub whois_channels : List ℕ → Text → Net → Result Text
whois_channels [] chans net = ok chans
whois_channels (p ∷ ps) chans net = do
  cu ← deref p net
  whois_channels ps (chans ++ ((if is_empty chans then [] else codes " ") ++ net.chan_name cu.chan))
      net

-- RPL_WHOISACTUALLY of the nick for each line
unfoldable pub whois_lines : Text → List Text → Chat → Result Chat
whois_lines nick [] s = ok s
whois_lines nick (l ∷ ls) s = answer (codes "320") (nick ∷ l ∷ []) s >>= whois_lines nick ls

-- s.substr(k)
unfoldable pub behind_count : ℕ → Text → Result Text
behind_count zero s = ok s
behind_count (suc k) [] = err out_of_range
behind_count (suc k) (c ∷ cs) = behind_count k cs

-- The icon and its address.
unfoldable pub whois_icon : Profiles → ℕ → Text → Bool → Chat → Result Chat
whois_icon v n nick extended s = do
  s ← elim (v.icon n (if extended then 15 else 10)) [
    | drawn buf ↦ whois_lines nick (codes "Icon:" ∷ tokens (codes "\r\n") buf) s
    | no_icon ↦ whois_lines nick (codes "No icon" ∷ []) s
    | not_loaded ↦ whois_lines nick (codes "libcaca and imlib2 are required to display icon" ∷ []) s
  ]
  if not (text_eq v.icons_url (codes " ")) && not (is_empty (v.icon_path n))
      then (do
        path ← behind_count (length v.user_path) (v.icon_path n)
        whois_lines nick ((codes "Icon URL: " ++ (v.icons_url ++ (v.username ++ path))) ∷ []) s)
      else ok s

-- RPL_WHOISCHANNELS, RPL_WHOISSERVER, RPL_AWAY, the status, and RPL_WHOISOPERATOR
unfoldable pub whois_state : Profiles → Peers → ℕ → Text → Chat → Result Chat
whois_state v w n nick s = do
  chans ← whois_channels (s.net.channels n) [] s.net
  s ← (if is_empty chans then ok s else answer (codes "319") (nick ∷ chans ∷ []) s)
  s ← answer (codes "312") (nick ∷ v.server_name n ∷ v.server_info n ∷ []) s
  s ← (if w.is_away n then answer (codes "301") (nick ∷ w.away_message n ∷ []) s else ok s)
  s ←
      (if is_empty (v.status_message n false)
        then ok s
        else whois_lines nick (v.status_message n false ∷ []) s)
  if v.is_oper n then answer (codes "313") (nick ∷ codes "is an IRC Operator" ∷ []) s else ok s

unfoldable pub m_whois : Profiles → Peers → Message → Chat → Result Chat
m_whois v w m s = do
  name ← get_arg 0 m
  elim (get_nick name false s.registry) [
    | none ↦ answer (codes "401") (name ∷ codes "Nick does not exist" ∷ []) s
    | some n ↦ (do
      let i = s.net.nicks n
      let extended = ltb 1 (length m.args)
      s ←
          answer (codes "311") (i.nickname ∷ i.identname ∷ i.hostname ∷ codes "*" ∷ i.realname ∷ [])
            s
      s ← whois_state v w n i.nickname s
      s ← whois_icon v n i.nickname extended s
      if not extended || not (v.retrieve_info n)
          then answer (codes "318") (i.nickname ∷ codes "End of /WHOIS list" ∷ []) s
          else ok s)
  ]

-- the arguments behind the target, one space between them
unfoldable pub command_text : List Text → Text → Text
command_text [] cmd = cmd
command_text (a ∷ rest) cmd =
    command_text rest (cmd ++ ((if is_empty cmd then [] else codes " ") ++ a))

-- The answer to what the command gave.
unfoldable pub command_answer : CommandStatus → Message → Chat → Result Chat
command_answer status_ok m s = ok s
command_answer other_status m s = ok s
command_answer not_found m s = do
  name ← get_arg 1 m
  answer (codes "421") (name ∷ codes "Unknown command" ∷ []) s
command_answer wrong_args m s = do
  name ← get_arg 1 m
  answer (codes "461") (name ∷ codes "Not enough parameters" ∷ []) s
command_answer failed m s = do
  name ← get_arg 1 m
  answer (codes "461") (name ∷ codes "Command failed." ∷ []) s
command_answer wrong_type m s =
    answer (codes "481")
      (codes "Permission Denied: This command doesn't work on this kind of target" ∷ []) s
command_answer wrong_prpl m s =
    answer (codes "481")
      (codes "Permission Denied: That command doesn't work on this protocol." ∷ []) s

-- message.getArgs() from the second on
unfoldable pub behind_first_arg : List Text → List Text
behind_first_arg [] = []
behind_first_arg (a ∷ rest) = rest

unfoldable pub m_cmd : Profiles → Message → Chat → Result Chat
m_cmd v m s = do
  target ← get_arg 0 m
  let cmd = command_text (behind_first_arg m.args) []
  if is_chan_name target
      then elim (get_channel target s) [
        | none ↦ answer (codes "403") (target ∷ codes "No suck channel" ∷ []) s
        | some c ↦ command_answer (v.channel_command c cmd) m s
      ]
      else elim (get_nick target false s.registry) [
        | none ↦ answer (codes "401") (target ∷ codes "No suck nick" ∷ []) s
        | some n ↦ command_answer (v.nick_command n cmd) m s
      ]
