-- ===== src/Bans.antt =====
-- src/irc/status_channel.cpp: the bans of a channel with the buddies of some accounts. A nick or an
-- account is known here by the ID of the account, and what deny and allow of im::Account do is an
-- argument.
pub mod Masks
pub mod Matching
pub mod Members
use minbif.Prelude.{
  ◌≡◌, Bool, true, false, List, [], ◌∷◌, ◌++◌, Option, none, some, Text, codes, is_empty, text_eq,
  has, if◌then◌else◌,
}
use minbif.Token.{stringtok}

-- StatusChannel::getMaskFromName
unfoldable pub get_mask_from_name : Text → Text → Text
get_mask_from_name name id =
    let ban = codes "*!" ++ name in if has b'@' ban then ban ++ b':' ∷ id else ban ++ b'@' ∷ id

-- the lines of showBanList before its end: the mask, and getServername of the account
unfoldable pub deny_lines : Text → Text → List Text → List (Text × Text)
unfolding get_mask_from_name
deny_lines id servername [] = []
deny_lines id servername (name ∷ r) =
    (get_mask_from_name name id, servername) ∷ deny_lines id servername r

-- The pattern and the ID that processBan reads from a mask.
unfoldable pub split_mask : Text → Text × Text
split_mask mask =
    let (pattern, id) = stringtok (codes ":") mask in
    if is_empty id then stringtok (codes "@") pattern else (pattern, id)

-- if (pattern.find('!') != string::npos) stringtok(pattern, "!");
unfoldable pub behind_bang : Text → Text
behind_bang pattern = if has b'!' pattern then (stringtok (codes "!") pattern).1 else pattern

-- the account with the ID, or the only one
unfoldable pub find_account : Text → List Text → Option Text
find_account id [] = none
find_account id (a ∷ r) = let rest = find_account id r in if text_eq a id then some a else rest

unfoldable pub account_or_only : Option Text → List Text → Option Text
account_or_only (some a) accounts = some a
account_or_only none [] = none
account_or_only none (a ∷ []) = some a
account_or_only none (a ∷ b ∷ r) = none

unfoldable pub account_for : Text → List Text → Option Text
unfolding find_account account_or_only
account_for id accounts = account_or_only (find_account id accounts) accounts

-- What processBan sends: the arguments of MODE, to the channel, or of ERR_NOSUCHNICK, to the nick.
pub data Notice : Type 0 where
  mode : Text → Text → Notice
  no_such_nick : Text → Text → Notice

-- deny, or allow, of the account with an ID, on a name
module _ {S : Type 0} (apply : Bool → Text → Text → S → Bool × S) where
  abbrev pub mode_of : Bool → Text
  mode_of add = if add then codes "+b" else codes "-b"

  -- if ((acc.*func)(name)) broadcast(...)
  unfoldable pub ban : Bool → Text → Text → S → List Notice × S
  unfolding get_mask_from_name
  ban add id name s =
      let (done, s) = apply add id name s in
      (if done then mode (mode_of add) (get_mask_from_name name id) ∷ [] else [], s)

  -- the loop over the nicks that match, none of which need be a Buddy
  unfoldable pub ban_nicks : Bool → List (Option (Text × Text)) → S → List Notice × S
  unfolding ban
  ban_nicks add [] s = ([], s)
  ban_nicks add (none ∷ r) s = ban_nicks add r s
  ban_nicks add (some (id, name) ∷ r) s =
      let (first, s) = ban add id name s in let (rest, s) = ban_nicks add r s in (first ++ rest, s)

  -- what processBan does when no nick matches, with the account, the pattern and the ID of the mask
  unfoldable pub ban_masked : Bool → Option Text → Text × Text → S → List Notice × S
  unfolding ban behind_bang
  ban_masked add none (pattern, id) s = (
    no_such_nick (if is_empty id then pattern else id) (
          if is_empty id
          then codes "Please sufix mask with ':accountID'"
          else codes "No such account")
        ∷ [],
    s,
  )
  ban_masked add (some a) (pattern, id) s = ban add a (behind_bang pattern) s

  -- StatusChannel::processBan; the nicks are those of matchNick
  unfoldable pub process_ban :
      Bool → List (Option (Text × Text)) → List Text → Text → S → List Notice × S
  unfolding ban_nicks split_mask ban_masked account_for
  process_ban add (n ∷ nicks) accounts mask s = ban_nicks add (n ∷ nicks) s
  process_ban add [] accounts mask s =
      let m = split_mask mask in ban_masked add (account_for m.1 accounts) m s
