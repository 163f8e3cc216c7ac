-- ===== src/Tests/Stores.antt =====
-- Tests of the options of an account (src/im/account.cpp).
use minbif.Prelude.{
  refl, ap, Bool, false, [], ◌∷◌, Option, none, some, Text, codes, text_eq, text_eq_refl,
  if◌then◌else◌,
}
use minbif.Config.{pos}
use minbif.Options.{OptionType, AccountOption, Numbers, new_option, set_value}
use minbif.Options.Store.{Store, set_account_options, get_account_options}
use minbif.Options.Store.Kept.{KeepsStrings}
use minbif.Options.Store.Shown.{ShownAt, set_account_options-get_account_options}

-- the strings of the account, and minbif's own
abbrev Strings : Type 0
Strings = (Text → Option Text) × (Text → Option Text)

abbrev look : Text → Text → (Text → Option Text) → Text
look k d f = elim (f k) [ none ↦ d | some v ↦ v ]

abbrev write_text : Text → Text → (Text → Option Text) → Text → Option Text
write_text k v f j = if text_eq k j then some v else f j

abbrev found : Bool → Text → Text → Option Text → Text
found b v d o = elim (if b then some v else o) [ none ↦ d | some x ↦ x ]

abbrev store : Store Strings
store = record {
  read_string = λ k d s. look k d s.0;
  store_string = λ k v s. (write_text k v s.0, s.1);
  read_int = λ k i s. i;
  store_int = λ k i s. s;
  read_bool = λ k b s. b;
  store_bool = λ k b s. s;
  read_password = λ s. [];
  store_password = λ v s. s;
  remember_password = λ b s. s;
  read_ui_string = λ k s. look k [] s.1;
  store_ui_string = λ k v s. (s.0, write_text k v s.1);
  read_ui_bool = λ k b s. b;
  store_ui_bool = λ k b s. s;
  is_connected = λ s. false;
  new_account_name = λ s. codes "jabber";
  is_account = λ v s. (false, s);
  leave_status_channel = λ s. s;
  create_status_channel = λ s. s;
}

store-KeepsStrings : KeepsStrings store
store-KeepsStrings = record {
  by_same_name = λ k d v s. ap (λ b. found b v d (s.0 k)) (text_eq_refl k);
  other_name = λ j k d v s h. ap (λ b. found b v d (s.0 k)) h;
  other_int = λ j k d i s h. refl;
  other_bool = λ j k d b s h. refl;
  by_password = λ k d v s. refl;
  by_remember = λ k d b s. refl;
  by_ui_string = λ j k d v s. refl;
  by_ui_bool = λ j k d b s. refl;
  by_account = λ k d v s. refl;
  by_leave = λ k d s. refl;
  by_create = λ k d s. refl;
}

abbrev numbers : Numbers
numbers = record { t2s = λ i. []; s2t = λ s. pos 0 }

abbrev host : AccountOption
host = new_option OptionType.str_type (codes "host") (codes "Host") (codes "example.org")

abbrev channel : AccountOption
channel = new_option OptionType.status_channel (codes "status_channel") [] (codes "&work")

abbrev empty : Strings
empty = (λ k. none, λ k. none)

abbrev after : Strings
after = (
  write_text (codes "host") (codes "example.org") empty.0,
  write_text (codes "channel") (codes "&work") empty.1,
)

-- what the protocol has: the ID stands first
abbrev own_id : AccountOption
own_id = new_option OptionType.acc_id (codes "id") [] []

set_account_options-get_account_options_example :
    ShownAt store numbers 1
      (codes "host", host)
      (get_account_options store numbers
        ((codes "id", own_id) ∷ (codes "host", set_value (codes "localhost") host) ∷ [])
        after).0
unfolding new_option set_account_options
set_account_options-get_account_options_example =
    set_account_options-get_account_options store numbers store-KeepsStrings []
      ((codes "status_channel", channel) ∷ []) (codes "host") host empty after refl refl refl
      (codes "localhost") ((codes "id", own_id) ∷ []) []
