-- ===== src/Settings.antt =====
-- src/irc/settings.h and src/irc/settings.cpp, the functions of src/im/im.cpp behind them, and ADMIN of
-- src/irc/cmds.cpp. The preferences of libpurple are asked and set through a record.
pub mod Admin
pub mod Booleans
use minbif.Prelude.{
  ℕ, ◌≡◌, Bool, true, false, not, ◌&&◌, ◌||◌, List, [], ◌∷◌, ◌++◌, Option, none, some, Text, codes,
  is_empty, text_eq, ◌==◌, if◌then◌else◌,
}
use minbif.Result.{Result, ok, ◌>>=◌}
use minbif.Config.{ℤ, pos}
use minbif.Irc.{Server, Session}
use minbif.Irc.Notices.{notice}
use minbif.Log.{Log, format_logged_flags, set_logged_flags}
use minbif.Options.{Numbers, true_or_false}

-- purple_global_proxy_get_info, by what is read from it; a string there may be NULL
pub record Proxy : Type 0 where
  pub host : Option Text
  pub port : ℤ
  pub username : Option Text
  pub password : Option Text

-- libpurple, the account list and the login of the user, in a state.
pub record Backing (P : Type 0) : Type 0 where
  pub prefs_get_string : Text → P → Text
  pub prefs_set_string : Text → Text → P → P
  pub prefs_get_int : Text → P → ℤ
  pub prefs_set_int : Text → ℤ → P → P
  pub prefs_get_bool : Text → P → Bool
  pub prefs_set_bool : Text → Bool → P → P
  -- updatedAllBuddies of each account of getAccountsList
  pub updated_all_buddies : P → P
  -- getPassword and setPassword of getIMAuth()
  pub auth_password : P → Text
  pub set_auth_password : Text → P → Bool × P
  -- none is NULL
  pub proxy : P → Option Proxy
  pub set_proxy_host : Text → P → P
  pub set_proxy_port : ℤ → P → P
  pub set_proxy_username : Text → P → P
  pub set_proxy_password : Text → P → P

pub record State (P : Type 0) : Type 0 where
  pub session : Session
  pub b_log : Log
  pub prefs : P

-- The classes whose value is "true" or "false".
pub data Switch : Type 0 where
  typing_notice accept_no_buddies_messages voiced_buddies server_aliases away_idle : Switch

-- The classes that SETTING declares.
pub data Setting : Type 0 where
  switch : Switch → Setting
  password send_delay minbif_joke log_level proxy_type proxy_host proxy_port proxy_username
        proxy_password :
      Setting

-- s ? s : ""
unfoldable pub p2s : Option Text → Text
p2s none = []
p2s (some s) = s

-- v == "1" || v == "true", and v == "0" || v == "false"
unfoldable pub bool_of_text : Text → Option Bool
bool_of_text v =
    if text_eq v (codes "1") || text_eq v (codes "true")
    then some true
    else if text_eq v (codes "0") || text_eq v (codes "false")
    then some false
    else none

-- the names that SettingProxy takes
unfoldable pub proxy_types : List Text
proxy_types = codes "none" ∷ codes "sock4" ∷ codes "sock5" ∷ codes "http" ∷ codes "envvar" ∷ []

unfoldable pub is_among : Text → List Text → Bool
is_among s [] = false
is_among s (t ∷ ts) = text_eq s t || is_among s ts

-- int to bool
unfoldable pub nonzero : ℤ → Bool
nonzero (pos k) = not (k == 0)
nonzero _ = true

unfoldable pub same_bool : Bool → Bool → Bool
same_bool true b = b
same_bool false b = not b

module _ {P : Type 0} (b : Backing P) (n : Numbers) (v : Server) where
  unfoldable pub has_typing_notice : P → Bool
  unfolding nonzero
  has_typing_notice p = nonzero (b.prefs_get_int (codes "/minbif/typing_notice") p)

  unfoldable pub set_typing_notice : Bool → P → P
  set_typing_notice on p =
      b.prefs_set_int (codes "/minbif/typing_notice") (pos (if on then 1 else 0)) p

  unfoldable pub has_voiced_buddies : P → Bool
  has_voiced_buddies p = b.prefs_get_bool (codes "/minbif/voiced_buddies") p

  -- IM::setVoicedBuddies
  unfoldable pub set_voiced_buddies : Bool → P → P
  unfolding has_voiced_buddies same_bool
  set_voiced_buddies on p =
      if same_bool (has_voiced_buddies p) on
      then p
      else b.updated_all_buddies (b.prefs_set_bool (codes "/minbif/voiced_buddies") on p)

  -- What getValue of a switch reads from im::IM, and what its setValue calls.
  unfoldable pub is_on : Switch → P → Bool
  unfolding has_typing_notice has_voiced_buddies
  is_on typing_notice p = has_typing_notice p
  is_on accept_no_buddies_messages p =
      b.prefs_get_bool (codes "/minbif/accept_nobuddies_messages") p
  is_on voiced_buddies p = has_voiced_buddies p
  is_on server_aliases p = b.prefs_get_bool (codes "/minbif/server_aliases") p
  is_on away_idle p = b.prefs_get_bool (codes "/purple/away/away_when_idle") p

  unfoldable pub turn : Switch → Bool → P → P
  unfolding set_typing_notice set_voiced_buddies
  turn typing_notice on p = set_typing_notice on p
  turn accept_no_buddies_messages on p =
      b.prefs_set_bool (codes "/minbif/accept_nobuddies_messages") on p
  turn voiced_buddies on p = set_voiced_buddies on p
  turn server_aliases on p = b.prefs_set_bool (codes "/minbif/server_aliases") on p
  turn away_idle on p = b.prefs_set_bool (codes "/purple/away/away_when_idle") on p

  -- proxy ? f(proxy) : ""
  unfoldable pub of_proxy : (Proxy → Text) → P → Text
  of_proxy f p = elim (b.proxy p) [ none ↦ [] | some x ↦ f x ]

  -- getValue, which is virtual
  unfoldable pub get_value : Setting → State P → Text
  unfolding is_on of_proxy p2s format_logged_flags
  get_value (switch k) s = true_or_false (is_on k s.prefs)
  get_value password s = b.auth_password s.prefs
  get_value send_delay s = n.t2s (b.prefs_get_int (codes "/minbif/send_delay") s.prefs)
  get_value minbif_joke s = codes "Minbif Is Not Bitlbee Fool"
  get_value log_level s = format_logged_flags s.b_log
  get_value proxy_type s = b.prefs_get_string (codes "/purple/proxy/type") s.prefs
  get_value proxy_host s = of_proxy (λ x. p2s x.host) s.prefs
  get_value proxy_port s = of_proxy (λ x. n.t2s x.port) s.prefs
  get_value proxy_username s = of_proxy (λ x. p2s x.username) s.prefs
  get_value proxy_password s = of_proxy (λ x. p2s x.password) s.prefs

  -- getIRC()->notice(getIRC()->getUser(), ...); return false;
  unfoldable pub refuse : Text → State P → Result (Bool × State P)
  unfolding notice
  refuse text s = do session ← notice v text s.session; ok (false, record s { session = session })

  -- if(proxy) { f(proxy); return true; } else return false;
  unfoldable pub on_proxy : (P → P) → State P → Result (Bool × State P)
  on_proxy f s = elim (b.proxy s.prefs) [
    | none ↦ ok (false, s)
    | some x ↦ ok (true, record s { prefs = f s.prefs })
  ]

  -- setValue, which is virtual
  unfoldable pub set_value : Setting → Text → State P → Result (Bool × State P)
  unfolding bool_of_text turn refuse on_proxy is_among proxy_types set_logged_flags
  set_value (switch k) t s = elim (bool_of_text t) [
    | none ↦ refuse (codes "Value must be 'true' or 'false'") s
    | some on ↦ ok (true, record s { prefs = turn k on s.prefs })
  ]
  set_value password t s =
      let (done, p) = b.set_auth_password t s.prefs in ok (done, record s { prefs = p })
  set_value send_delay t s =
      ok (true, record s { prefs = b.prefs_set_int (codes "/minbif/send_delay") (n.s2t t) s.prefs })
  set_value minbif_joke t s = refuse (codes "Wilmer, I see you!") s
  set_value log_level t s =
      ok (true, record s { b_log = set_logged_flags t s.b_log.to_syslog s.b_log })
  set_value proxy_type t s =
      if is_among t proxy_types
      then ok (true, record s { prefs = b.prefs_set_string (codes "/purple/proxy/type") t s.prefs })
      else refuse (codes "Available values are: none, sock4, sock5, http, envvar") s
  set_value proxy_host t s = on_proxy (b.set_proxy_host t) s
  set_value proxy_port t s = on_proxy (b.set_proxy_port (n.s2t t)) s
  set_value proxy_username t s = on_proxy (b.set_proxy_username t) s
  set_value proxy_password t s = on_proxy (b.set_proxy_password t) s
