-- ===== src/Settings/Admin.antt =====
-- m_admin of src/irc/cmds.cpp: the settings by their keys.
use minbif.Prelude.{
  Bool, true, false, List, [], ◌∷◌, ◌++◌, Option, none, some, Text, codes, text_eq, if◌then◌else◌,
}
use minbif.Result.{Result, ok, ◌>>=◌}
use minbif.Message.{Message}
use minbif.Irc.{Server, reply}
use minbif.Irc.Notices.{notice}
use minbif.Maps.{join_with}
use minbif.Options.{Numbers}
use minbif.Settings.{
  Backing, State, typing_notice, accept_no_buddies_messages, voiced_buddies, server_aliases,
  away_idle, Setting, get_value, set_value,
}

-- A line of the table of m_admin.
pub record Entry : Type 0 where
  pub key : Text
  pub display : Bool
  pub setting : Setting

abbrev pub entry : Text → Bool → Setting → Entry
entry key display setting = record { key = key; display = display; setting = setting }

unfoldable pub settings : List Entry
settings =
    entry (codes "password") true Setting.password
    ∷ entry (codes "typing_notice") true (Setting.switch typing_notice)
    ∷ entry (codes "accept_nobuddies_messages") true (Setting.switch accept_no_buddies_messages)
    ∷ entry (codes "send_delay") true Setting.send_delay
    ∷ entry (codes "voiced_buddies") true (Setting.switch voiced_buddies)
    ∷ entry (codes "server_aliases") true (Setting.switch server_aliases)
    ∷ entry (codes "away_idle") true (Setting.switch away_idle)
    ∷ entry (codes "log_level") true Setting.log_level
    ∷ entry (codes "proxy") true Setting.proxy_type
    ∷ entry (codes "proxy_host") true Setting.proxy_host
    ∷ entry (codes "proxy_port") true Setting.proxy_port
    ∷ entry (codes "proxy_user") true Setting.proxy_username
    ∷ entry (codes "proxy_pass") true Setting.proxy_password
    ∷ entry (codes "minbif") false Setting.minbif_joke
    ∷ []

unfoldable pub find_key : Text → List Entry → Option Entry
find_key key [] = none
find_key key (e ∷ es) = let rest = find_key key es in if text_eq key e.key then some e else rest

module _ {P : Type 0} (b : Backing P) (n : Numbers) (v : Server) where
  -- user->send of the line of a setting
  unfoldable pub show : Entry → State P → Result (State P)
  unfolding get_value
  show e s = do
    session ←
        reply v (codes "256")
          ((codes "- " ++ (e.key ++ (codes " = " ++ get_value b n v e.setting s))) ∷ []) s.session
    ok (record s { session = session })

  unfoldable pub show_loop : List Entry → State P → Result (State P)
  unfolding show
  show_loop [] s = ok s
  show_loop (e ∷ es) s = (if e.display then show e s else ok s) >>= show_loop es

  unfoldable pub m_admin : Message → State P → Result (State P)
  unfolding show_loop settings find_key set_value join_with notice
  m_admin m s = elim m.args [
    | [] ↦ show_loop settings s
    | key ∷ values ↦ elim (find_key key settings) [
      | none ↦ do
        session ← notice v (codes "Key " ++ (key ++ codes " does not exist.")) s.session
        ok (record s { session = session })
      | some e ↦ elim values [
        | [] ↦ show e s
        | w ∷ ws ↦ do (done, s) ← set_value b n v e.setting (join_with b' ' [] (w ∷ ws)) s; show e s
      ]
    ]
  ]
