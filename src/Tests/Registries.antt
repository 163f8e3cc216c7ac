-- ===== src/Tests/Registries.antt =====
-- Tests of the maps of nicks and servers (src/irc/irc.cpp, src/irc/server.cpp).
use minbif.Prelude.{◌≡◌, refl, [], ◌∷◌, false, true, some, codes, mem, text_eq, if◌then◌else◌}
use minbif.Registry.{
  Registry, find, erase, rename_nick, nick_loop, get_nick, remove_nick, remove_server,
}
use minbif.Registry.Names.{remove_nick-rename_nick}
use minbif.Registry.Servers.{remove_server_cleaned}

-- bob and carl are on server 1, dave is on server 2.
abbrev pub registry : Registry
registry = record {
  users = (codes "bob", 10) ∷ (codes "carl", 11) ∷ (codes "dave", 12) ∷ [];
  servers = (codes "one", 1) ∷ (codes "two", 2) ∷ [];
  dccs = [];
  members = λ v. if text_eq (v ∷ []) (1 ∷ []) then 10 ∷ 11 ∷ [] else 12 ∷ [];
  server_of = λ n. if text_eq (n ∷ []) (12 ∷ []) then 2 else 1;
  name_of = λ n. codes "bob";
  deleted = [];
}

get_nick_test : get_nick (codes "BoB") false registry ≡ some 10
unfolding get_nick nick_loop minbif.Message.strlower
get_nick_test = refl

remove_nick-rename_nick_example :
    (mem 10 (remove_nick (codes "al") (rename_nick 10 (codes "al") registry)).deleted ≡ true)
    × (mem 10 ((remove_nick (codes "al") (rename_nick 10 (codes "al") registry)).members 1) ≡ true)
remove_nick-rename_nick_example = remove_nick-rename_nick 10 (codes "al") registry refl

remove_server_cleaned_example :
    remove_server (codes "one") registry
    ≡ some (record registry {
      users = (codes "dave", 12) ∷ [];
      deleted = 10 ∷ 11 ∷ [];
      servers = (codes "two", 2) ∷ [];
    })
unfolding erase
remove_server_cleaned_example = remove_server_cleaned (codes "one") 1 registry (unfold find in refl)
