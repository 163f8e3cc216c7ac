-- ===== src/Registry.antt =====
-- src/irc/irc.cpp and src/irc/server.cpp: the maps of nicks and servers of a session, and the nicks
-- that each server lists. Nicks and servers are numbers. A nick that is deleted goes to a list; the
-- channels that it leaves then are modelled in Network.

pub mod Servers
pub mod Names
use minbif.Prelude.{
  ℕ, zero, suc, ◌+◌, ◌≡◌, Bool, true, false, not, ◌&&◌, ◌||◌, List, [], ◌∷◌, ◌++◌, Option, none,
  some, Text, text_eq, mem, length, ltb, ◌==◌, if◌then◌else◌,
}
use minbif.Message.{strlower}
use minbif.Dcc.{is_none}

-- What a DCC transfer has to do with nicks: an offer is kept when its peer leaves, a download ends.
pub record Transfer : Type 0 where
  pub peer : Option ℕ
  pub finished : Bool
  pub downloads : Bool

pub record Registry : Type 0 where
  pub users : List (Text × ℕ)
  pub servers : List (Text × ℕ)
  pub dccs : List Transfer
  -- Server::users, Nick::getServer and Nick::getNickname
  pub members : ℕ → List ℕ
  pub server_of : ℕ → ℕ
  pub name_of : ℕ → Text
  pub deleted : List ℕ

-- The order of std::string.
abbrev pub text_lt : Text → Text → Bool
text_lt [] [] = false
text_lt [] (y ∷ ys) = true
text_lt (x ∷ xs) [] = false
text_lt (x ∷ xs) (y ∷ ys) =
    let rest = text_lt xs ys in if ltb x y then true else if x == y then rest else false

-- map[key] = value
unfoldable pub put : Text → ℕ → List (Text × ℕ) → List (Text × ℕ)
put k v [] = (k, v) ∷ []
put k v ((j, w) ∷ r) =
    let rest = put k v r in
    if text_eq j k then (k, v) ∷ r else if text_lt k j then (k, v) ∷ (j, w) ∷ r else (j, w) ∷ rest

-- map.find
unfoldable pub find : Text → List (Text × ℕ) → Option ℕ
find k [] = none
find k ((j, w) ∷ r) = if text_eq j k then some w else find k r

-- map.erase
unfoldable pub erase : Text → List (Text × ℕ) → List (Text × ℕ)
erase k [] = []
erase k ((j, w) ∷ r) = if text_eq j k then r else (j, w) ∷ erase k r

abbrev pub set_members : ℕ → List ℕ → Registry → Registry
set_members v ns r = record r { members = λ w. if v == w then ns else r.members w }

-- Server::addNick
unfoldable pub server_add : ℕ → ℕ → Registry → Registry
server_add v n r = set_members v (r.members v ++ n ∷ []) r

-- the loop of Server::removeNick
unfoldable pub drop_first : ℕ → List ℕ → List ℕ
drop_first n [] = []
drop_first n (m ∷ ms) = if m == n then ms else m ∷ drop_first n ms

-- Server::removeNick
unfoldable pub server_remove : ℕ → ℕ → Registry → Registry
server_remove v n r = set_members v (drop_first n (r.members v)) r

-- IRC::addNick
unfoldable pub add_nick : ℕ → Registry → Registry
add_nick n r = server_add (r.server_of n) n (record r { users = put (r.name_of n) n r.users })

-- IRC::renameNick
unfoldable pub rename_nick : ℕ → Text → Registry → Registry
rename_nick n newnick r = add_nick n (record r {
  users = erase (r.name_of n) r.users;
  name_of = λ m. if n == m then newnick else r.name_of m;
})

-- the loop of IRC::getNick
unfoldable pub nick_loop : Bool → Text → List (Text × ℕ) → Option ℕ
nick_loop case_sensitive k [] = none
nick_loop case_sensitive k ((j, w) ∷ r) =
    if text_eq (if case_sensitive then j else strlower j) k
    then some w
    else nick_loop case_sensitive k r

-- IRC::getNick
unfoldable pub get_nick : Text → Bool → Registry → Option ℕ
get_nick nickname case_sensitive r =
    nick_loop case_sensitive (if case_sensitive then nickname else strlower nickname) r.users

-- DCC::setPeer with NULL
unfoldable pub orphan : Transfer → Transfer
orphan t = record t { peer = none; finished = t.finished || t.downloads }

-- the loop of IRC::removeNick over the transfers
unfoldable pub dcc_loop : ℕ → List Transfer → List Transfer
dcc_loop n [] = []
dcc_loop n (t ∷ ts) =
    let rest = dcc_loop n ts in
    if t.finished
    then rest
    else (if elim t.peer [ none ↦ false | some p ↦ p == n ] then orphan t else t) ∷ rest

-- IRC::removeNick
unfoldable pub remove_nick : Text → Registry → Registry
remove_nick nickname r = elim (find nickname r.users) [
  | none ↦ r
  | some n ↦
      let listed = server_remove (r.server_of n) n (record r { dccs = dcc_loop n r.dccs }) in
      record listed { users = erase nickname r.users; deleted = r.deleted ++ n ∷ [] }
]

-- IRC::addServer
unfoldable pub add_server : Text → ℕ → Registry → Registry
add_server name v r = record r { servers = put name v r.servers }

-- The inner loop of IRC::removeServer, to its first nick of the server, with the map without it.
unfoldable pub pull_first : (ℕ → ℕ) → ℕ → List (Text × ℕ) → Option (ℕ × List (Text × ℕ))
pull_first server_of v [] = none
pull_first server_of v ((j, n) ∷ r) =
    let rest = pull_first server_of v r in
    if server_of n == v
    then some (n, r)
    else elim rest [ none ↦ none | some (m, r') ↦ some (m, (j, n) ∷ r') ]

-- The inner loop of IRC::removeServer, which starts again behind each nick it takes off.
unfoldable pub clean_loop : ℕ → ℕ → Registry → Option Registry
clean_loop zero v r = none
clean_loop (suc fuel) v r = elim (pull_first r.server_of v r.users) [
  | none ↦ some r
  | some (n, rest) ↦ clean_loop fuel v (record r { users = rest; deleted = r.deleted ++ n ∷ [] })
]

-- IRC::removeServer; the fuel is one round more than there are nicks.
unfoldable pub remove_server : Text → Registry → Option Registry
remove_server name r = elim (find name r.servers) [
  | none ↦ some r
  | some v ↦ elim (clean_loop (suc (length r.users)) v r) [
    | none ↦ none
    | some s ↦ some (record s { servers = erase name s.servers })
  ]
]
