-- ===== src/Tests/Bans.antt =====
-- Tests of the bans of a channel with buddies (src/irc/status_channel.cpp).
use minbif.Prelude.{
  ◌≡◌, refl, Bool, true, false, List, [], ◌∷◌, none, some, Text, codes, text_eq, if◌then◌else◌,
}
use minbif.Bans.{mode, no_such_nick, get_mask_from_name, deny_lines, process_ban}
use minbif.Bans.Matching.{match_nick}
use minbif.Bans.Members.{
  buddy_added, no_channel_found, invite, removed, kick, remove_account, set_topic,
}
use minbif.Bans.Masks.{process_ban-get_mask_from_name}

-- An account that keeps what it is told, and denies all but itself.
abbrev tell : Bool → Text → Text → List Text → Bool × List Text
tell add id name told = (not_itself id name, name ∷ told)
  where
    not_itself : Text → Text → Bool
    not_itself i n = if text_eq i n then false else true

abbrev accounts : List Text
accounts = codes "jabber0" ∷ codes "msn0" ∷ []

process_ban-get_mask_from_name_example :
    process_ban tell true [] accounts (get_mask_from_name (codes "ann@host.org") (codes "msn0")) []
    ≡ (mode (codes "+b") (codes "*!ann@host.org:msn0") ∷ [], codes "ann@host.org" ∷ [])
unfolding get_mask_from_name
process_ban-get_mask_from_name_example =
    process_ban-get_mask_from_name tell true accounts (codes "ann@host.org") (codes "msn0") [] refl
      refl

-- a name without an @, as the list shows it
shown :
    deny_lines (codes "msn0") (codes "srv") (codes "bob" ∷ [])
    ≡ (codes "*!bob@msn0", codes "srv") ∷ []
unfolding deny_lines
shown = refl

-- With two accounts a mask has to name one.
unclear :
    process_ban tell true [] accounts (codes "*!bob") []
    ≡ (no_such_nick (codes "*!bob") (codes "Please sufix mask with ':accountID'") ∷ [], [])
unfolding process_ban minbif.Token.stringtok
unclear = refl

-- Nicks that are no buddies are passed over.
matched :
    process_ban tell true (none ∷ some (codes "msn0", codes "bob") ∷ []) accounts (codes "b*") []
    ≡ (mode (codes "+b") (codes "*!bob@msn0") ∷ [], codes "bob" ∷ [])
unfolding process_ban
matched = refl

-- the nicks that a pattern means, with a comparison of texts for fnmatch
meant :
    match_nick text_eq
      (λ n. if text_eq (n ∷ []) (7 ∷ []) then codes "*!bob@*" else [])
      (codes "*!bob")
      ((codes "al", 6) ∷ (codes "bob", 7) ∷ [])
    ≡ 7 ∷ []
unfolding match_nick
meant = refl

asked :
    invite (λ a. some a) none (codes "bob@host:msn0")
    ≡ buddy_added (codes "msn0") (codes "bob@host")
unfolding invite minbif.Token.stringtok
asked = refl

nowhere : invite (λ a. some a) none (codes "bob") ≡ no_channel_found (codes "bob")
unfolding invite minbif.Token.stringtok
nowhere = refl

kicked_test : kick true true (codes "bye") ≡ removed (codes "Removed from buddy list: bye")
unfolding kick
kicked_test = refl

topic_test :
    set_topic true accounts (codes "away")
    ≡ (true, (codes "jabber0", codes "away") ∷ (codes "msn0", codes "away") ∷ [])
unfolding set_topic
topic_test = refl

gone : remove_account (codes "jabber0") accounts ≡ codes "msn0" ∷ []
unfolding remove_account
gone = refl
