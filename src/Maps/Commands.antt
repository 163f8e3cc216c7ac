-- ===== src/Maps/Commands.antt =====
-- The handlers of src/irc/cmds_accounts.cpp.
use minbif.Prelude.{
  Bool, true, false, not, ◌&&◌, ◌||◌, List, [], ◌∷◌, ◌++◌, Option, none, some, Text, codes, text_eq,
  length, drop, ltb, ◌==◌, if◌then◌else◌,
}
use minbif.Result.{Result, ok, ◌>>=◌}
use minbif.Message.{Message, get_arg}
use minbif.Message.Quotes.{rebuild_with_quotes}
use minbif.Irc.{Server, reply}
use minbif.Irc.Notices.{notice}
use minbif.Options.{OptionType, AccountOption, Options}
use minbif.Accounts.{Protocol}
use minbif.Maps.{
  View, State, Ends, Added, added, option_error, Im, set_found, account_of, rejected, set_found,
  read_arguments, join_with, usage_loop,
}

-- target == "*" || account.getID() == target || account.getServername() == target
unfoldable pub is_target : Text → View → Bool
is_target target a =
    text_eq target (codes "*") || (text_eq a.id target || text_eq a.servername target)

module _ {M : Type 0} (im : Im M) (v : Server) where
  -- notice(user, ...)
  unfoldable pub tell : Text → State M → Result (State M)
  tell text s = do session ← notice v text s.session; ok (record s { session = session })

  -- user->send of a reply with one argument
  unfoldable pub send_answer : Text → Text → State M → Result (State M)
  send_answer cmd text s = do
    session ← reply v cmd (text ∷ []) s.session
    ok (record s { session = session })

  -- The loop of m_connect: whether one was found, and the state.
  unfoldable pub connect_loop : Text → List View → Bool → State M → Bool × State M
  unfolding is_target
  connect_loop target [] found s = (found, s)
  connect_loop target (a ∷ r) found s =
      if is_target target a
      then connect_loop target r true (im.join_status_channel a (im.connect a s))
      else connect_loop target r found s

  unfoldable pub disconnect_loop : Text → List View → Bool → State M → Bool × State M
  unfolding is_target
  disconnect_loop target [] found s = (found, s)
  disconnect_loop target (a ∷ r) found s =
      if is_target target a
      then disconnect_loop target r true (im.disconnect a s)
      else disconnect_loop target r found s

  -- if(!found && target != "*") notice(...)
  unfoldable pub unknown_unless : Bool → Text → State M → Result (State M)
  unfolding tell
  unknown_unless found target s =
      if not found && not (text_eq target (codes "*"))
      then tell (codes "Error: Account " ++ (target ++ codes " is unknown")) s
      else ok s

  unfoldable pub m_connect : Message → State M → Result (State M)
  unfolding connect_loop unknown_unless
  m_connect m s = do
    target ← get_arg 0 m
    let (accounts, s) = im.accounts_list s
    let (found, s) = connect_loop target accounts false s
    unknown_unless found target s

  unfoldable pub m_squit : Message → State M → Result (State M)
  unfolding disconnect_loop unknown_unless
  m_squit m s = do
    target ← get_arg 0 m
    let (accounts, s) = im.accounts_list s
    let (found, s) = disconnect_loop target accounts false s
    unknown_unless found target s

  -- notice(user, ...); return false;
  unfoldable pub stop_with : Text → State M → Ends M
  unfolding tell
  stop_with text s = do s ← tell text s; ok (none, s)

  -- What addAccount comes to: the account, or the reason why there is none.
  unfoldable pub end_add : Added × State M → Ends M
  unfolding stop_with
  end_add (added a, s) = ok (some (some a), s)
  end_add (option_error e, s) = stop_with (codes "Error: " ++ e) s

  -- m_map_registeradd, once the protocol is known
  unfoldable pub add_with : Bool → Protocol → List Text → State M → Ends M
  unfolding stop_with read_arguments usage_loop end_add
  add_with registers p args s =
      let options = im.protocol_options p s in
      if ltb (length args) 3
      then stop_with
          (codes "Usage: /MAP add "
            ++ (p.proto_id ++ (codes " USERNAME " ++ usage_loop [] options)))
          s
      else elim (read_arguments im.url_decode im.less [] options (drop 2 args)) [
        | rejected e ↦ stop_with e s
        | account_of username options ↦ end_add (im.add_account p username options registers s)
      ]

  unfoldable pub m_map_registeradd : Bool → Message → State M → Ends M
  unfolding tell stop_with add_with rebuild_with_quotes
  m_map_registeradd registers m s = do
    m ← rebuild_with_quotes m
    if ltb (length m.args) 2
        then (do
          s ← tell (codes "Usage: /MAP add PROTO USERNAME [OPTIONS]") s
          s ← tell (codes "To display available options: /MAP add PROTO") s
          stop_with (codes "Use '/STATS p' to show all available protocols") s)
        else (do
          name ← get_arg 1 m
          elim (im.get_protocol name s) [
            | none ↦
                stop_with
                  (codes "Error: Protocol "
                    ++ (name ++ codes " is unknown. Try '/STATS p' to list protocols."))
                  s
            | some p ↦ add_with registers p m.args s
          ])

  -- The account that the second argument names, or the notice that there is none.
  unfoldable pub with_account : Text → (View → State M → Ends M) → State M → Ends M
  unfolding stop_with
  with_account name next s =
      let (found, s) = im.account_named name s in
      elim found [
        | none ↦ stop_with (codes "Error: Account " ++ (name ++ codes " is unknown")) s
        | some a ↦ next a s
      ]

  unfoldable pub shown_value : OptionType → Text → Text
  shown_value OptionType.password_type value = codes "*******"
  shown_value _ value = value

  -- The loop that shows the options of an account, with no password.
  unfoldable pub show_options : Options → State M → Ends M
  unfolding tell shown_value
  show_options [] s = ok (none, s)
  show_options ((k, o) ∷ r) s =
      tell (o.name ++ (codes " = " ++ shown_value o.type o.value)) s >>= show_options r

  -- the first option whose own name is the one given, with its key
  unfoldable pub named_option : Text → Options → Option (Text × AccountOption)
  named_option name [] = none
  named_option name ((k, o) ∷ r) =
      let rest = named_option name r in if text_eq o.name name then some (k, o) else rest

  -- if(value is not "true" or "false" and the option is a BOOL)
  unfoldable pub bad_bool : OptionType → Text → Bool
  bad_bool OptionType.bool_type value =
      not (text_eq value (codes "true")) && not (text_eq value (codes "false"))
  bad_bool _ value = false

  unfoldable pub edited_value : OptionType → Text → Text
  edited_value OptionType.int_type value = im.int_text value
  edited_value _ value = value

  -- m_map_edit with a value for the option at a key
  unfoldable pub edit_option : View → Options → Text → AccountOption → Text → State M → Ends M
  unfolding tell stop_with bad_bool set_found edited_value
  edit_option a options key o value s =
      if bad_bool o.type value
      then stop_with
          (codes "Error: Option '" ++ (o.name ++ codes "' is a boolean ('true' or 'false')")) s
      else (do
        s ← tell (o.name ++ (codes " = " ++ edited_value o.type value)) s
        let (raised, s) = im.set_options a (set_found key value options) s
        elim raised [ none ↦ ok (none, s) | some e ↦ stop_with (codes "Error: " ++ e) s ])

  -- m_map_edit for an account
  unfoldable pub edit_account : List Text → View → State M → Ends M
  unfolding tell stop_with show_options named_option edit_option join_with
  edit_account args a s =
      let (options, s) = im.account_options a s in
      elim (drop 2 args) [
        | [] ↦
            tell (codes "-- Parameters of account " ++ (a.servername ++ codes " --")) s
            >>= show_options options
        | key ∷ values ↦ elim (named_option key options) [
          | none ↦ stop_with (codes "Key " ++ (key ++ codes " does not exist.")) s
          | some (k, o) ↦ elim values [
            | [] ↦ stop_with (o.name ++ (codes " = " ++ o.value)) s
            | w ∷ ws ↦ edit_option a options k o (join_with b' ' [] (w ∷ ws)) s
          ]
        ]
      ]

  unfoldable pub m_map_edit : Message → State M → Ends M
  unfolding stop_with with_account edit_account
  m_map_edit m s =
      if ltb (length m.args) 2
      then stop_with (codes "Usage: /MAP edit ACCOUNT [KEY [VALUE]]") s
      else (do name ← get_arg 1 m; with_account name (edit_account m.args) s)

  -- m_map_delete for an account
  unfoldable pub delete_account : View → State M → Ends M
  unfolding tell
  delete_account a s = do
    s ← tell (codes "Removing account " ++ a.username) s
    ok (some none, im.del_account a s)

  unfoldable pub m_map_delete : Message → State M → Ends M
  unfolding stop_with with_account delete_account
  m_map_delete m s =
      if not (length m.args == 2)
      then stop_with (codes "Usage: /MAP delete ACCOUNT") s
      else (do name ← get_arg 1 m; with_account name delete_account s)
