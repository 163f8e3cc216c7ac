-- ===== src/Tests/Accounts.antt =====
-- Tests of the accounts: their IDs (src/im/purple.cpp), MAP and CONNECT (src/irc/cmds_accounts.cpp),
-- the settings (src/irc/settings.cpp) and the kinds of log lines (src/core/log.cpp).
use minbif.Prelude.{
  ℕ, zero, suc, ◌≡◌, refl, ap, Bool, ◌&&◌, true, false, List, [], ◌∷◌, none, some, Text, codes, ◌<◌,
  length, arith, text_eq, text_eq_refl, if◌then◌else◌,
}
use minbif.Result.{ok}
use minbif.Bits.{bit}
use minbif.Config.{ℤ, pos, negsuc}
use minbif.Log.{new_log, w_err, format_logged_flags, set_logged_flags}
use minbif.Log.Levels.{has_name, set_logged_flags-format_logged_flags}
use minbif.Accounts.{Ints, Protocol, Account, numbered, scan, get_new_account_name}
use minbif.Accounts.NewName.{IsPrinted, has_id, get_new_account_name-has_id}
use minbif.Message.{Message, message, get_arg}
use minbif.Options.{OptionType, new_option, Numbers}
use minbif.Maps.{View, State, Im, option_error}
use minbif.Maps.Commands.{m_connect, m_squit, m_map_registeradd}
use minbif.Maps.Errors.{Ended, m_map_registeradd-Ended}
use minbif.Maps.Targets.{Picks, told_unless, connect_all, disconnect_all, m_connect-targets}
use minbif.Settings
use minbif.Settings.Booleans.{IsKept, Switched, set_value-Switched}
use minbif.Tests.Sessions.{server, session}

set_logged_flags-format_logged_flags_example :
    bit (set_logged_flags (format_logged_flags new_log) true new_log).logged_flags w_err
    ≡ (bit new_log.logged_flags w_err && has_name w_err)
set_logged_flags-format_logged_flags_example =
    set_logged_flags-format_logged_flags new_log new_log true w_err

default_names : format_logged_flags new_log ≡ codes "INFO ERR WARNING DESYNCH "
unfolding format_logged_flags new_log
default_names = refl

-- a number as that many strokes
abbrev strokes : ℕ → Text
strokes zero = []
strokes (suc n) = b'i' ∷ strokes n

abbrev unary : Ints
unary = record { t2s = strokes; s2t = length }

length-strokes : (n : ℕ) → length (strokes n) ≡ n
length-strokes zero = refl
length-strokes (suc n) = ap (λ x. suc x) (length-strokes n)

unary-IsPrinted : IsPrinted unary
unary-IsPrinted = record { some_text = λ n h. refl; reads_back = λ n h. length-strokes (suc n) }

abbrev jabber : Protocol
jabber = record { purple_id = codes "prpl-jabber"; proto_id = codes "jabber" }

abbrev account : ℕ → Text → Account
account k id = record {
  address = k;
  username = codes "bob";
  proto = some jabber;
  id = id;
  channel = codes "&minbif";
}

abbrev accounts : List Account
accounts = account 1 (codes "jabberi") ∷ account 2 (codes "jabber") ∷ []

get_new_account_name-has_id_example :
    (n : ℕ) × (get_new_account_name unary jabber 3 accounts ≡ ok (numbered unary jabber n))
    × (has_id jabber 3 (numbered unary jabber n) accounts ≡ false)
    × ((j : ℕ) → j < n → has_id jabber 3 (numbered unary jabber j) accounts ≡ true)
get_new_account_name-has_id_example =
    get_new_account_name-has_id unary unary-IsPrinted jabber 3 accounts (omega arith)

-- a third account gets jabberii
new_name : get_new_account_name unary jabber 3 accounts ≡ ok (codes "jabberii")
unfolding get_new_account_name scan
new_name = refl

abbrev work : View
work = record {
  address = 1;
  id = codes "jabber";
  username = codes "bob";
  servername = codes "bob:jabber";
}

-- What is behind libpurple: what was connected, the last first.
abbrev im : Im (List Text)
im = record {
  accounts_list = λ s. (work ∷ [], s);
  account_named = λ name s. (none, s);
  get_protocol = λ name s. some jabber;
  protocol_options =
      λ p s. (codes "password", new_option OptionType.password_type (codes "password") [] []) ∷ [];
  add_account = λ p u o r s. (option_error (codes "no"), record s { rest = u ∷ s.rest });
  del_account = λ a s. s;
  connect = λ a s. record s { rest = a.id ∷ s.rest };
  disconnect = λ a s. s;
  join_status_channel = λ a s. s;
  is_connected = λ a s. false;
  is_connecting = λ a s. false;
  account_options = λ a s. ([], s);
  set_options = λ a o s. (none, s);
  get_commands_list = λ a s. [];
  call_command = λ a c s. (false, s);
  get_server = λ name s. none;
  url_decode = λ s. s;
  int_text = λ s. s;
  less = λ a b. true;
}

abbrev start : State (List Text)
start = record { session = session; rest = [] }

abbrev call : List Text → Message
call args = record (message (codes "MAP")) { args = args }

m_map_registeradd-Ended_example :
    Ended im server false
      (call (codes "add" ∷ codes "jabber" ∷ codes "bob" ∷ []))
      (codes "port")
      start
      (m_map_registeradd im server false
        (call (codes "add" ∷ codes "jabber" ∷ codes "bob" ∷ []))
        start)
unfolding minbif.Message.Quotes.rebuild_with_quotes minbif.Message.Quotes.rebuild_loop
m_map_registeradd-Ended_example =
    m_map_registeradd-Ended im server false (call (codes "add" ∷ codes "jabber" ∷ codes "bob" ∷ []))
      (call (codes "add" ∷ codes "jabber" ∷ codes "bob" ∷ [])) (codes "port") start refl refl

m_connect-targets_example :
    (picked : List View) × Picks (codes "jabber") (work ∷ []) picked
    × (m_connect im server (call (codes "jabber" ∷ [])) start
        ≡ told_unless im server (codes "jabber") picked (connect_all im server picked start))
    × (m_squit im server (call (codes "jabber" ∷ [])) start
        ≡ told_unless im server (codes "jabber") picked (disconnect_all im server picked start))
unfolding get_arg
m_connect-targets_example =
    m_connect-targets im server (call (codes "jabber" ∷ [])) (codes "jabber") start refl

-- Preferences that are one text, and the numbers and booleans by their names.
abbrev Prefs : Type 0
Prefs = Text × (Text → ℤ) × (Text → Bool)

abbrev write_at : {A : Type 0} → Text → A → (Text → A) → Text → A
write_at k x f j = if text_eq k j then x else f j

abbrev backing : Settings.Backing Prefs
backing = record {
  prefs_get_string = λ k p. p.0;
  prefs_set_string = λ k s p. (s, p.1, p.2);
  prefs_get_int = λ k p. p.1 k;
  prefs_set_int = λ k i p. (p.0, write_at k i p.1, p.2);
  prefs_get_bool = λ k p. p.2 k;
  prefs_set_bool = λ k x p. (p.0, p.1, write_at k x p.2);
  updated_all_buddies = λ p. p;
  auth_password = λ p. [];
  set_auth_password = λ s p. (false, p);
  proxy = λ p. none;
  set_proxy_host = λ s p. p;
  set_proxy_port = λ i p. p;
  set_proxy_username = λ s p. p;
  set_proxy_password = λ s p. p;
}

backing-IsKept : IsKept backing
backing-IsKept = record {
  kept_int = λ k i p. ap (λ c. if c then i else p.1 k) (text_eq_refl k);
  kept_bool = λ k x p. ap (λ c. if c then x else p.2 k) (text_eq_refl k);
  kept_updated = λ k p. refl;
  kept_updated_int = λ k p. refl;
  other_bool = λ j k x p h. ap (λ c. if c then x else p.2 k) h;
  int_by_bool = λ j k x p h. refl;
  bool_by_int = λ j k i p h. refl;
}

abbrev texts : Numbers
texts = record {
  t2s = λ i. elim i [ pos n ↦ strokes n | negsuc n ↦ b'-' ∷ strokes n ];
  s2t = λ s. pos (length s);
}

abbrev prefs : Settings.State Prefs
prefs = record { session = session; b_log = new_log; prefs = ([], λ k. pos 0, λ k. false) }

set_value-Switched_example :
    Switched backing backing-IsKept texts server Settings.voiced_buddies Settings.typing_notice
      (codes "1")
      prefs
      (some true)
set_value-Switched_example =
    set_value-Switched backing backing-IsKept texts server Settings.voiced_buddies
      Settings.typing_notice (codes "1") prefs (some true) refl refl
