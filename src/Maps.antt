-- ===== src/Maps.antt =====
-- src/irc/cmds_accounts.cpp: CONNECT, SQUIT and MAP with its map_commands. The session is the one of Irc;
-- the instant messaging side is behind a record, whose calls may reach the session too.
pub mod Commands
pub mod Dispatch
pub mod Abbreviations
pub mod Arguments
pub mod Errors
pub mod Targets
use minbif.Prelude.{
  ℕ, ◌≡◌, Bool, true, false, not, ◌&&◌, ◌||◌, List, [], ◌∷◌, ◌++◌, Option, none, some, Text, codes,
  is_empty, text_eq, first, length, ltb, ◌==◌, if◌then◌else◌,
}
use minbif.Result.{Result}
use minbif.Irc.{Session}
use minbif.Accounts.{Protocol, map_set, substr}
use minbif.Options.{OptionType, AccountOption, Options, new_option, set_value}

-- The libpurple side of what a command has in hand: an Account, by its values at that time.
pub record View : Type 0 where
  pub address : ℕ
  pub id : Text
  pub username : Text
  pub servername : Text

-- The state: the session, and the rest behind libpurple.
pub record State (M : Type 0) : Type 0 where
  pub session : Session
  pub rest : M

-- What a command of MAP gives: false, or true with the account that it added.
abbrev pub Ends : Type 0 → Type 0
Ends M = Result (Option (Option View) × State M)

-- What addAccount comes to: an account, or OptionError with its reason.
pub data Added : Type 0 where
  added : View → Added
  option_error : Text → Added

-- The calls of im::IM, im::Account, im::Protocol, Server and User that the map_commands make.
pub record Im (M : Type 0) : Type 0 where
  pub accounts_list : State M → List View × State M
  pub account_named : Text → State M → Option View × State M
  pub get_protocol : Text → State M → Option Protocol
  pub protocol_options : Protocol → State M → Options
  pub add_account : Protocol → Text → Options → Bool → State M → Added × State M
  pub del_account : View → State M → State M
  pub connect : View → State M → State M
  pub disconnect : View → State M → State M
  -- user->join of the status channel, when the account has one
  pub join_status_channel : View → State M → State M
  pub is_connected : View → State M → Bool
  pub is_connecting : View → State M → Bool
  pub account_options : View → State M → Options × State M
  -- the reason, if it throws OptionError
  pub set_options : View → Options → State M → Option Text × State M
  pub get_commands_list : View → State M → List Text
  pub call_command : View → Text → State M → Bool × State M
  -- getServer of a name, with t2s of its online nicks and of its nicks
  pub get_server : Text → State M → Option (Text × Text)
  -- purple_url_decode
  pub url_decode : Text → Text
  -- getValueInt and then t2s
  pub int_text : Text → Text
  -- the order of std::string
  pub less : Text → Text → Bool

-- options.find(name)
unfoldable pub find_option : Text → Options → Option AccountOption
find_option name [] = none
find_option name ((k, o) ∷ r) =
    let rest = find_option name r in if text_eq k name then some o else rest

-- it->second.setValue(value) for the iterator of a name
unfoldable pub set_found : Text → Text → Options → Options
set_found name value [] = []
set_found name value ((k, o) ∷ r) =
    let rest = set_found name value r in
    if text_eq k name then (k, set_value value o) ∷ r else (k, o) ∷ rest

-- options[name].getValue(), where a name that is missing has an option with no value
unfoldable pub value_at : Text → Options → Text
unfolding find_option
value_at name options = elim (find_option name options) [ none ↦ [] | some o ↦ o.value ]

-- options[name].setValue(value)
unfoldable pub set_at : (Text → Text → Bool) → Text → Text → Options → Options
unfolding find_option set_found map_set new_option
set_at less name value options = elim (find_option name options) [
  | none ↦ map_set less name (new_option OptionType.none_type [] [] value) options
  | some o ↦ set_found name value options
]

-- whether an option takes no value: its type is BOOL or SERVER_ALIASES
unfoldable pub takes_no_value : OptionType → Bool
takes_no_value OptionType.bool_type = true
takes_no_value OptionType.server_aliases = true
takes_no_value _ = false

-- What an argument of `map add` does: it sets the username or an option, it names an option that
-- needs a value, or it is refused.
pub data Argument : Type 0 where
  goes_on : Text → Options → Argument
  needs_value : Text → Argument
  refused : Text → Argument

-- An argument that is_start with '-'.
unfoldable pub read_flag : Text → Text → Options → Argument
unfolding substr find_option set_found takes_no_value
read_flag username s options =
    let negated = first (substr 1 s) == b'!' in
    let name = substr (if negated then 2 else 1) s in
    elim (find_option name options) [
      | none ↦ refused (codes "Error: Option '" ++ (s ++ codes "' does not exist"))
      | some o ↦
          if takes_no_value o.type
          then goes_on username
              (set_found name (if negated then codes "false" else codes "true") options)
          else needs_value name
    ]

unfoldable pub read_argument :
    (Text → Text) → (Text → Text → Bool) → Text → Options → Text → Argument
unfolding read_flag value_at set_at
read_argument decode less username options s =
    if is_empty username
    then goes_on (decode s) options
    else if first s == b'-'
    then read_flag username s options
    else if is_empty (value_at (codes "password") options)
    then goes_on username (set_at less (codes "password") s options)
    else goes_on username (set_at less (codes "status_channel") s options)

-- What the arguments come to: a username with options, or an error.
pub data AddReading : Type 0 where
  account_of : Text → Options → AddReading
  rejected : Text → AddReading

-- The loop of m_map_registeradd over the arguments from the third on.
unfoldable pub read_arguments :
    (Text → Text) → (Text → Text → Bool) → Text → Options → List Text → AddReading
unfolding read_argument set_found
read_arguments decode less username options [] = account_of username options
read_arguments decode less username options (s ∷ []) =
    elim (read_argument decode less username options s) [
      | goes_on u o ↦ account_of u o
      | needs_value name ↦ rejected (codes "Error: Option '" ++ (s ++ codes "' needs a value"))
      | refused e ↦ rejected e
    ]
read_arguments decode less username options (s ∷ value ∷ args) =
    elim (read_argument decode less username options s) [
      | goes_on u o ↦ read_arguments decode less u o (value ∷ args)
      | needs_value name ↦ read_arguments decode less username (set_found name value options) args
      | refused e ↦ rejected e
    ]

-- The choices of a list, with '|' between them.
unfoldable pub join_with : ℕ → Text → List Text → Text
join_with sep s [] = s
join_with sep s (w ∷ ws) = join_with sep ((if is_empty s then s else s ++ sep ∷ []) ++ w) ws

-- what the usage says of an option between "[-" and "]"
unfoldable pub describe : AccountOption → Text
unfolding join_with
describe o = elim o.type [
  | OptionType.server_aliases ↦ codes "[!]" ++ o.name
  | OptionType.bool_type ↦ codes "[!]" ++ o.name
  | OptionType.acc_id ↦ o.name ++ codes " value"
  | OptionType.status_channel ↦ o.name ++ codes " value"
  | OptionType.password_type ↦ o.name ++ codes " value"
  | OptionType.str_type ↦ o.name ++ codes " value"
  | OptionType.str_list_type ↦ o.name ++ (codes " [" ++ (join_with b'|' [] o.choices ++ codes "]"))
  | OptionType.int_type ↦ o.name ++ codes " int"
  | OptionType.none_type ↦ []
]

-- The loop that shows the options.
unfoldable pub usage_loop : Text → Options → Text
unfolding describe
usage_loop s [] = s
usage_loop s ((k, o) ∷ r) =
    usage_loop
      ((if is_empty s then s else s ++ b' ' ∷ []) ++ (codes "[-" ++ (describe o ++ codes "]"))) r
