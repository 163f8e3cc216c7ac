-- ===== src/Bans/Members.antt =====
-- src/irc/status_channel.cpp: the accounts of a channel with buddies, and who comes and goes. An
-- account is known by its ID.
use minbif.Prelude.{
  ◌≡◌, Bool, true, false, not, List, [], ◌∷◌, ◌++◌, Option, none, some, Text, codes, is_empty,
  text_eq, text_eq_refl, any, if◌then◌else◌, arith,
}
use minbif.Token.{stringtok}

-- StatusChannel::addAccount
unfoldable pub add_account : Text → List Text → List Text
add_account a accounts = accounts ++ a ∷ []

-- StatusChannel::removeAccount
unfoldable pub remove_account : Text → List Text → List Text
remove_account a [] = []
remove_account a (b ∷ r) = let rest = remove_account a r in if text_eq b a then r else b ∷ rest

-- What invite does: addBuddy of an account, with the name, or ERR_NOSUCHCHANNEL.
pub data Invited : Type 0 where
  buddy_added : Text → Text → Invited
  no_channel_found : Text → Invited

unfoldable pub invited : Option Text → Text → Text → Invited
invited none username nickname = no_channel_found nickname
invited (some a) username nickname = buddy_added a username

-- StatusChannel::invite, with getAccount and getAccountFromChannel of im::IM
unfoldable pub invite : (Text → Option Text) → Option Text → Text → Invited
unfolding invited
invite get_account account_from_channel nickname =
    let (username, acc) = stringtok (codes ":") nickname in
    invited (if is_empty acc then account_from_channel else get_account acc) username nickname

-- What kick does: it tells the one who kicks, or calls kicked, with the reason, and removeBuddy.
pub data Kicked : Type 0 where
  not_a_buddy : Kicked
  not_remote : Kicked
  removed : Text → Kicked

-- StatusChannel::kick, of a nick that is a Buddy, or not, and whose server is a RemoteServer, or not
unfoldable pub kick : Bool → Bool → Text → Kicked
kick is_buddy is_remote message =
    if not is_buddy
    then not_a_buddy
    else if not is_remote
    then not_remote
    else if is_empty message
    then removed (codes "Removed from buddy list")
    else removed (codes "Removed from buddy list" ++ codes ": " ++ message)

-- setStatus of every account with the topic
unfoldable pub status_loop : Text → List Text → List (Text × Text)
status_loop message [] = []
status_loop message (a ∷ accounts) = (a, message) ∷ status_loop message accounts

-- StatusChannel::setTopic, with the result of Channel::setTopic
unfoldable pub set_topic : Bool → List Text → Text → Bool × List (Text × Text)
unfolding status_loop
set_topic done accounts message = if done then (true, status_loop message accounts) else (false, [])

-- An account that was not on the channel is off it again after addAccount and removeAccount, and the
-- others stay in their order.
pub remove_account-add_account :
    (a : Text) (accounts : List Text)
    → any (λ b. text_eq b a) accounts ≡ false
    → remove_account a (add_account a accounts) ≡ accounts
unfolding remove_account add_account
remove_account-add_account a [] h = ground (arith, text_eq_refl a)
remove_account-add_account a (b ∷ r) h = ground (arith, remove_account-add_account a r)
