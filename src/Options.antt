-- ===== src/Options.antt =====
-- src/im/protocol.h and src/im/protocol.cpp: the options of a protocol; and setOptions and getOptions
-- of src/im/account.cpp, with the account of libpurple behind a record.
pub mod Store
use minbif.Prelude.{
  Bool, ◌||◌, List, [], ◌∷◌, map, Option, none, some, Text, codes, is_empty, text_eq, ◌==◌,
  if◌then◌else◌,
}
use minbif.Config.{ℤ}
use minbif.Message.{to_lower}
use minbif.Accounts.{map_set}

-- Protocol::Option::type_t
pub data OptionType : Type 0 where
  none_type bool_type str_type int_type str_list_type acc_id password_type status_channel
        server_aliases :
      OptionType

-- Protocol::Option
pub record AccountOption : Type 0 where
  pub type : OptionType
  pub name : Text
  pub value : Text
  pub text : Text
  pub choices : List Text

-- Option::Option of a type, name, text and value
unfoldable pub new_option : OptionType → Text → Text → Text → AccountOption
new_option t name text value = record {
  type = t;
  name = name;
  value = value;
  text = text;
  choices = [];
}

-- Option::nameFromText
unfoldable pub name_from_text : Text → Text
name_from_text s = map (λ c. if c == b' ' then b'-' else to_lower c) s

-- PurplePrefType, the types that no option has being one
pub data PrefType : Type 0 where
  pref_boolean pref_string pref_int pref_string_list pref_other : PrefType

-- the type of the other constructor of Option
unfoldable pub type_of_pref : PrefType → OptionType
type_of_pref pref_boolean = bool_type
type_of_pref pref_string = str_type
type_of_pref pref_int = int_type
type_of_pref pref_string_list = str_list_type
type_of_pref pref_other = none_type

-- t2s and s2t for int
pub record Numbers : Type 0 where
  pub t2s : ℤ → Text
  pub s2t : Text → ℤ

unfoldable pub get_value_bool : AccountOption → Bool
get_value_bool o = text_eq o.value (codes "true") || text_eq o.value (codes "1")

unfoldable pub get_value_int : Numbers → AccountOption → ℤ
get_value_int v o = v.s2t o.value

abbrev pub set_value : Text → AccountOption → AccountOption
set_value s o = record o { value = s }

abbrev pub true_or_false : Bool → Text
true_or_false b = if b then codes "true" else codes "false"

-- A PurpleAccountOption, by what libpurple gives for it.
pub record PurpleOption : Type 0 where
  pub pref : PrefType
  pub setting : Text
  pub label : Text
  pub default_bool : Bool
  pub default_string : Option Text
  pub default_list_value : Option Text
  pub list : List Text
  pub default_int : ℤ

-- Protocol::Options, a map by the name
abbrev pub Options : Type 0
Options = List (Text × AccountOption)

-- if(s && *s) opt.setValue(s);
unfoldable pub set_default : Option Text → AccountOption → AccountOption
set_default none o = o
set_default (some s) o = if is_empty s then o else set_value s o

-- A round of the loop of Protocol::getOptions: the option, unless it is not supported.
unfoldable pub read_option : Numbers → PurpleOption → Option AccountOption
unfolding new_option type_of_pref set_default
read_option v p =
    let o = new_option (type_of_pref p.pref) p.setting p.label [] in
    elim p.pref [
      | pref_boolean ↦ some (set_value (true_or_false p.default_bool) o)
      | pref_string ↦ some (set_default p.default_string o)
      | pref_string_list ↦ some (record (set_default p.default_list_value o) { choices = p.list })
      | pref_int ↦ some (set_value (v.t2s p.default_int) o)
      | pref_other ↦ none
    ]

unfoldable pub read_options : Numbers → (Text → Text → Bool) → List PurpleOption → Options → Options
unfolding read_option map_set
read_options v less [] options = options
read_options v less (p ∷ ps) options = elim (read_option v p) [
  | none ↦ read_options v less ps options
  | some o ↦ read_options v less ps (map_set less o.name o options)
]

-- options[name] = Option(type, name, text, value)
unfoldable pub put_option :
    (Text → Text → Bool) → OptionType → Text → Text → Text → Options → Options
unfolding map_set new_option
put_option less t name text value = map_set less name (new_option t name text value)

-- Protocol::getOptions; less is the order of std::string
unfoldable pub get_options : Numbers → (Text → Text → Bool) → List PurpleOption → Options
unfolding read_options put_option
get_options v less ps =
    put_option less server_aliases (codes "server_aliases") (codes "Store aliases server-side")
      (codes "true")
      (put_option less password_type (codes "password") (codes "Account password") [] (
        put_option less status_channel (codes "status_channel") (codes "Status Channel")
          (codes "&minbif")
          (put_option less acc_id (codes "accid") (codes "Account ID") []
            (read_options v less ps []))))
