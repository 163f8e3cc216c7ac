-- ===== src/Maps/Dispatch.antt =====
-- MAP of src/irc/cmds_accounts.cpp: which command is run, and the list of accounts.
use minbif.Prelude.{
  Bool, true, false, not, ◌&&◌, List, [], ◌∷◌, ◌++◌, Option, none, some, Text, codes, length, drop,
  ltb, ◌==◌, if◌then◌else◌,
}
use minbif.Result.{Result, ok, err, undefined, ◌>>=◌}
use minbif.Message.{Message, get_arg}
use minbif.Irc.{Server}
use minbif.Maps.{View, State, Ends, Im}
use minbif.Maps.Commands.{
  tell, send_answer, stop_with, with_account, m_map_registeradd, m_map_edit, m_map_delete,
}

-- the functions of the table of m_map
pub data Command : Type 0 where
  map_register map_add map_edit map_delete map_command map_help : Command

unfoldable pub map_commands : List (Text × Command)
map_commands =
    (codes "register", map_register)
    ∷ (codes "add", map_add)
    ∷ (codes "edit", map_edit)
    ∷ (codes "delete", map_delete)
    ∷ (codes "command", map_command)
    ∷ (codes "cmd", map_command)
    ∷ (codes "help", map_help)
    ∷ []

-- name.find(arg) == 0
unfoldable pub is_start : Text → Text → Bool
is_start [] name = true
is_start (c ∷ arg) [] = false
is_start (c ∷ arg) (d ∷ name) = (c == d) && is_start arg name

unfoldable pub find_map_command : Text → List (Text × Command) → Option Command
unfolding is_start
find_map_command arg [] = none
find_map_command arg ((name, c) ∷ r) =
    let rest = find_map_command arg r in if is_start arg name then some c else rest

unfoldable pub is_nil {ℓ} : {A : Type ℓ} → List A → Bool
is_nil [] = true
is_nil (x ∷ xs) = false

module _ {M : Type 0} (im : Im M) (v : Server) where
  unfoldable pub tell_all : List Text → State M → Result (State M)
  unfolding tell
  tell_all [] s = ok s
  tell_all (t ∷ ts) s = tell im v t s >>= tell_all ts

  -- the loop of m_map_command over the map_commands of an account
  unfoldable pub show_commands : List Text → State M → Ends M
  unfolding tell
  show_commands [] s = ok (none, s)
  show_commands (c ∷ cs) s = tell im v (codes "  " ++ c) s >>= show_commands cs

  -- m_map_command for an account; name is the argument that names it
  unfoldable pub command_account : Text → List Text → View → State M → Ends M
  unfolding tell stop_with show_commands
  command_account name args a s =
      if not (im.is_connected a s)
      then stop_with im v (codes "Error: Account " ++ (name ++ codes " is not connected")) s
      else elim (drop 2 args) [
        | [] ↦
            tell im v (codes "Commands available for " ++ (name ++ codes ":")) s
            >>= show_commands (im.get_commands_list a s)
        | c ∷ cs ↦
            let (known, s) = im.call_command a c s in
            if known
            then ok (none, s)
            else stop_with im v (codes "Command " ++ (c ++ codes " is unknown")) s
      ]

  unfoldable pub m_map_command : Message → State M → Ends M
  unfolding stop_with with_account command_account
  m_map_command m s =
      if ltb (length m.args) 2
      then stop_with im v (codes "Usage: /MAP cmd ACCOUNT [command]") s
      else (do name ← get_arg 1 m; with_account im v name (command_account name m.args) s)

  unfoldable pub help_lines : List Text
  help_lines =
      codes "add PROTO USERNAME PASSWD [CHANNEL] [options]   add an account"
      ∷ codes
          "reg PROTO USERNAME PASSWD [CHANNEL] [options]   add an account and register it on server"
      ∷ codes "edit ACCOUNT [KEY [VALUE]]                      edit an account"
      ∷ codes "cmd ACCOUNT [COMMAND]                           run a command on an account"
      ∷ codes "delete ACCOUNT                                  remove ACCOUNT from your accounts"
      ∷ codes "help                                            display this message"
      ∷ codes "Usage: /MAP add|register|edit|command|delete|help [...]"
      ∷ []

  unfoldable pub m_map_help : State M → Ends M
  unfolding tell_all help_lines
  m_map_help s = do s ← tell_all help_lines s; ok (none, s)

  unfoldable pub run : Command → Message → State M → Ends M
  unfolding m_map_registeradd m_map_edit m_map_delete m_map_command m_map_help
  run map_register m s = m_map_registeradd im v true m s
  run map_add m s = m_map_registeradd im v false m s
  run map_edit m s = m_map_edit im v m s
  run map_delete m s = m_map_delete im v m s
  run map_command m s = m_map_command m s
  run map_help m s = m_map_help s

  -- it->second == added_account, where none is no valid account
  unfoldable pub is_added : Option View → View → Bool
  is_added none a = false
  is_added (some b) a = b.address == a.address

  -- what stands before the name of an account
  unfoldable pub branch : Bool → Option View → View → State M → Text
  unfolding is_added
  branch over new a s =
      (if over then codes "`" else codes "|")
      ++ (if is_added new a
          then codes "-+"
          else if im.is_connecting a s
          then codes "-*"
          else if im.is_connected a s
          then codes "-"
          else codes " ")

  -- The line of an account; its server is dereferenced when it is connected.
  unfoldable pub account_line : Bool → Option View → View → State M → Result Text
  unfolding branch
  account_line over new a s =
      let line = branch over new a s ++ a.servername in
      if im.is_connected a s
      then elim (im.get_server a.servername s) [
        | none ↦ err undefined
        | some (online, nicks) ↦
            ok (line ++ (codes "  [" ++ (online ++ (b'/' ∷ nicks ++ codes "]"))))
      ]
      else ok line

  -- The loop of m_map over the accounts.
  unfoldable pub tree_loop : Option View → List View → State M → Result (State M)
  unfolding account_line send_answer
  tree_loop new [] s = ok s
  tree_loop new (a ∷ r) s = do
    line ← account_line (is_nil r) new a s
    s ← send_answer im v (codes "015") line s
    tree_loop new r s

  -- m_map behind its command
  unfoldable pub show_tree : Option View → State M → Result (State M)
  unfolding send_answer tree_loop
  show_tree new s = do
    s ← send_answer im v (codes "015") v.name s
    let (accounts, s) = im.accounts_list s
    s ← tree_loop new accounts s
    send_answer im v (codes "017") (codes "End of /MAP") s

  unfoldable pub m_map : Message → State M → Result (State M)
  unfolding find_map_command map_commands run m_map_help show_tree
  m_map m s = elim m.args [
    | [] ↦ show_tree none s
    | arg ∷ args ↦ elim (find_map_command arg map_commands) [
      | none ↦ (do (new, s) ← m_map_help s; ok s)
      | some c ↦ run c m s >>= λ (done, s). elim done [ none ↦ ok s | some new ↦ show_tree new s ]
    ]
  ]
