-- ===== src/Options/Store.antt =====
-- getOptions and setOptions of src/im/account.cpp, and what they call there. The account of libpurple,
-- the other accounts and the status channel are behind a record.
pub mod Kept
pub mod Shown
use minbif.Prelude.{
  ◌≡◌, Bool, true, false, not, ◌&&◌, ◌||◌, List, [], ◌∷◌, ◌++◌, map, Text, codes, is_empty, text_eq,
  first, ◌==◌, if◌then◌else◌,
}
use minbif.Config.{ℤ}
use minbif.Chat.{is_chan_name}
use minbif.Options.{
  OptionType, AccountOption, Options, Numbers, get_value_bool, get_value_int, set_value,
  true_or_false,
}

-- The account in a state: purple_account_get_string and the others, with their defaults; the strings
-- and flags that are minbif's own; and what setOptions asks of the rest of the program.
pub record Store (S : Type 0) : Type 0 where
  pub read_string : Text → Text → S → Text
  pub store_string : Text → Text → S → S
  pub read_int : Text → ℤ → S → ℤ
  pub store_int : Text → ℤ → S → S
  pub read_bool : Text → Bool → S → Bool
  pub store_bool : Text → Bool → S → S
  -- p2s of the password
  pub read_password : S → Text
  pub store_password : Text → S → S
  pub remember_password : Bool → S → S
  -- purple_account_get_ui_string with the default "", and the others of that kind
  pub read_ui_string : Text → S → Text
  pub store_ui_string : Text → Text → S → S
  pub read_ui_bool : Text → Bool → S → Bool
  pub store_ui_bool : Text → Bool → S → S
  pub is_connected : S → Bool
  -- Purple::getNewAccountName(proto, *this)
  pub new_account_name : S → Text
  -- Purple::getIM()->getAccount(value).isValid()
  pub is_account : Text → S → Bool × S
  pub leave_status_channel : S → S
  pub create_status_channel : S → S

-- What setOptions comes to: it returns, or it throws OptionError with a reason.
pub data Storing (S : Type 0) : Type 0 where
  stored : S → Storing S
  refused : Text → S → Storing S

-- Channel::isStatusChannel of a name
unfoldable pub is_status_channel : Text → Bool
is_status_channel name = not (is_empty name) && (first name == b'&')

module _ {S : Type 0} (p : Store S) (n : Numbers) where
  -- Account::getID with calculate_newone
  unfoldable pub account_id : S → Text × S
  account_id s =
      let id = p.read_ui_string (codes "id") s in
      if is_empty id
      then (p.new_account_name s, p.store_ui_string (codes "id") (p.new_account_name s) s)
      else (id, s)

  unfoldable pub has_server_aliases : S → Bool
  has_server_aliases s = p.read_ui_bool (codes "server_aliases") true s

  unfoldable pub set_server_aliases : Bool → S → S
  set_server_aliases b s = p.store_ui_bool (codes "server_aliases") b s

  unfoldable pub get_status_channel_name : S → Text
  get_status_channel_name s = p.read_ui_string (codes "channel") s

  unfoldable pub set_status_channel_name : Text → S → S
  set_status_channel_name c s =
      p.create_status_channel (p.store_ui_string (codes "channel") c (p.leave_status_channel s))

  -- A round of the loop of getOptions.
  unfoldable pub get_option : AccountOption → S → AccountOption × S
  unfolding account_id has_server_aliases get_status_channel_name get_value_bool get_value_int
  get_option o s = elim o.type [
    | OptionType.str_type ↦ (set_value (p.read_string o.name o.value s) o, s)
    | OptionType.str_list_type ↦ (set_value (p.read_string o.name o.value s) o, s)
    | OptionType.int_type ↦ (set_value (n.t2s (p.read_int o.name (get_value_int n o) s)) o, s)
    | OptionType.bool_type ↦
        (set_value (true_or_false (p.read_bool o.name (get_value_bool o) s)) o, s)
    | OptionType.acc_id ↦ let (id, s) = account_id s in (set_value id o, s)
    | OptionType.status_channel ↦ (set_value (get_status_channel_name s) o, s)
    | OptionType.password_type ↦ (set_value (p.read_password s) o, s)
    | OptionType.server_aliases ↦ (set_value (true_or_false (has_server_aliases s)) o, s)
    | OptionType.none_type ↦ (o, s)
  ]

  -- Account::getOptions on the options of its protocol
  unfoldable pub get_account_options : Options → S → Options × S
  unfolding get_option
  get_account_options [] s = ([], s)
  get_account_options ((k, o) ∷ r) s =
      let (o, s) = get_option o s in let (r, s) = get_account_options r s in ((k, o) ∷ r, s)

  -- the case ACCID of setOptions, for an ID that is not the account's
  unfoldable pub set_acc_id : Text → S → Storing S
  set_acc_id value s =
      if p.is_connected s
      then refused (codes "Can't change ID of a connected account") s
      else if is_empty value
      then stored (p.store_ui_string (codes "id") (p.new_account_name s) s)
      else (let (used, s) = p.is_account value s in
          if used
          then refused (codes "This ID is already used.") s
          else stored (p.store_ui_string (codes "id") value s))

  -- the case STATUS_CHANNEL, for a name that is not the account's
  unfoldable pub set_channel : Text → S → Storing S
  unfolding set_status_channel_name is_chan_name is_status_channel
  set_channel value s =
      if not (is_chan_name value) || not (is_status_channel value)
      then refused (b'\'' ∷ value ++ codes "' is not a valid channel name") s
      else stored (set_status_channel_name value s)

  -- the case PASSWORD, for a password that is not the account's
  unfoldable pub set_new_password : Text → S → S
  set_new_password value s =
      if is_empty value
      then p.remember_password false s
      else p.remember_password true (p.store_password value s)

  -- A round of the loop of setOptions.
  unfoldable pub store_option : AccountOption → S → Storing S
  unfolding account_id set_acc_id get_status_channel_name set_channel set_new_password
      set_server_aliases
  store_option o s = elim o.type [
    | OptionType.str_type ↦ stored (p.store_string o.name o.value s)
    | OptionType.str_list_type ↦ stored (p.store_string o.name o.value s)
    | OptionType.int_type ↦ stored (p.store_int o.name (get_value_int n o) s)
    | OptionType.bool_type ↦ stored (p.store_bool o.name (get_value_bool o) s)
    | OptionType.acc_id ↦
        let (id, s) = account_id s in if text_eq id o.value then stored s else set_acc_id o.value s
    | OptionType.status_channel ↦
        if text_eq (get_status_channel_name s) o.value then stored s else set_channel o.value s
    | OptionType.password_type ↦
        if text_eq o.value (p.read_password s)
        then stored s
        else stored (set_new_password o.value s)
    | OptionType.server_aliases ↦ stored (set_server_aliases (get_value_bool o) s)
    | OptionType.none_type ↦ stored s
  ]

  -- Account::setOptions
  unfoldable pub set_account_options : Options → S → Storing S
  unfolding store_option
  set_account_options [] s = stored s
  set_account_options ((k, o) ∷ r) s = elim (store_option o s) [
    | stored s ↦ set_account_options r s
    | refused e s ↦ refused e s
  ]
