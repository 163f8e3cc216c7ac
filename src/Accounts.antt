-- ===== src/Accounts.antt =====
-- src/im/purple.cpp, src/im/im.cpp and the IDs of src/im/account.cpp: the accounts of a user, the
-- ID that a new one gets, and how one is found. What libpurple keeps of an account is a record.
pub mod NewName
use minbif.Prelude.{
  ℕ, zero, suc, ◌+◌, ◌%◌, ◌≡◌, Bool, true, false, not, ◌&&◌, ◌||◌, List, [], ◌∷◌, ◌++◌, Option,
  none, some, Text, codes, is_empty, text_eq, length, ◌==◌, if◌then◌else◌,
}
use minbif.Result.{Result, ok, err, stuck, undefined, ◌>>=◌}

-- t2s and s2t for int, which print and read through streams. An int is its 32 bits, as a number, so
-- that those from 2 ^ 31 on stand for the negative ones.
pub record Ints : Type 0 where
  pub t2s : ℕ → Text
  pub s2t : Text → ℕ

-- Protocol, when it is valid: what getPurpleID and getID give.
pub record Protocol : Type 0 where
  pub purple_id : Text
  pub proto_id : Text

-- Account, when it is valid, with the PurpleAccount behind it: its address, its username, the
-- protocol found for it, and the "id" and "channel" that minbif keeps in it.
pub record Account : Type 0 where
  pub address : ℕ
  pub username : Text
  pub proto : Option Protocol
  pub id : Text
  pub channel : Text

-- the text from position n on
unfoldable pub substr : ℕ → Text → Text
substr zero s = s
substr (suc n) [] = []
substr (suc n) (c ∷ cs) = substr n cs

-- i ? t2s(i) : string()
unfoldable pub suffix : Ints → ℕ → Text
suffix v i = if i == 0 then [] else v.t2s i

-- proto.getID() + (i ? t2s(i) : string())
unfoldable pub numbered : Ints → Protocol → ℕ → Text
unfolding suffix
numbered v p i = p.proto_id ++ suffix v i

-- acc == butone || !acc.getProtocol().isValid() || acc.getProtocol() != proto
unfoldable pub passed_over : Protocol → ℕ → Account → Bool
passed_over p butone a =
    (a.address == butone)
    || elim a.proto [ none ↦ true | some q ↦ not (text_eq q.purple_id p.purple_id) ]

-- i + 1 for an int; an overflow has no defined behaviour
unfoldable pub int_suc : ℕ → Result ℕ
int_suc i = if i == 2147483647 then err undefined else ok (suc i % 4294967296)

-- the number behind the one of an ID that is taken
unfoldable pub next_int : Ints → Protocol → ℕ → Text → Result ℕ
unfolding int_suc substr
next_int v p i id = if i == 0 then ok 1 else int_suc (v.s2t (substr (length p.proto_id) id))

-- The round of the loop up to its end (none), or to the account after which it starts again, with
-- the number to go on with.
unfoldable pub scan : Ints → Protocol → ℕ → ℕ → List Account → Option (Result ℕ)
unfolding numbered passed_over next_int
scan v p butone i [] = none
scan v p butone i (a ∷ accs) =
    let rest = scan v p butone i accs in
    if passed_over p butone a
    then rest
    else if text_eq a.id (numbered v p i)
    then some (next_int v p i a.id)
    else rest

unfoldable pub name_loop : Ints → Protocol → ℕ → List Account → ℕ → ℕ → Result Text
unfolding numbered
name_loop v p butone accs zero i = err stuck
name_loop v p butone accs (suc fuel) i = elim (scan v p butone i accs) [
  | none ↦ ok (numbered v p i)
  | some r ↦ (do j ← r; name_loop v p butone accs fuel j)
]

-- Purple::getNewAccountName
unfoldable pub get_new_account_name : Ints → Protocol → ℕ → List Account → Result Text
unfolding name_loop
get_new_account_name v p butone accs = name_loop v p butone accs (suc (length accs)) 0

-- setID on the account at an address
unfoldable pub set_id : ℕ → Text → List Account → List Account
set_id k id [] = []
set_id k id (a ∷ accs) = (if a.address == k then record a { id = id } else a) ∷ set_id k id accs

-- Account::getID, with calculate_newone
unfoldable pub get_id : Ints → Protocol → Account → List Account → Result (Text × List Account)
unfolding get_new_account_name set_id
get_id v p a accs =
    if is_empty a.id
    then (do id ← get_new_account_name v p a.address accs; ok (id, set_id a.address id accs))
    else ok (a.id, accs)

-- m[key] = value on a std::map, whose keys are in the order of `less`
unfoldable pub map_set {ℓ} :
    {A : Type ℓ} → (Text → Text → Bool) → Text → A → List (Text × A) → List (Text × A)
map_set less k v [] = (k, v) ∷ []
map_set less k v ((l, w) ∷ r) =
    let rest = map_set less k v r in
    if text_eq k l then (k, v) ∷ r else if less k l then (k, v) ∷ (l, w) ∷ r else (l, w) ∷ rest

-- The loop of Purple::getAccountsList: the map, and the accounts with the IDs they have then.
unfoldable pub accounts_loop :
    Ints
    → (Text → Text → Bool)
    → List Account
    → List Account
    → List (Text × Account)
    → Result (List (Text × Account) × List Account)
unfolding get_id map_set
accounts_loop v less [] accs m = ok (m, accs)
accounts_loop v less (a ∷ r) accs m = elim a.proto [
  | none ↦ accounts_loop v less r accs m
  | some p ↦ do
    (id, accs) ← get_id v p a accs
    accounts_loop v less r accs (map_set less id (record a { id = id }) m)
]

-- Purple::getAccountsList
unfoldable pub get_accounts_list :
    Ints → (Text → Text → Bool) → List Account → Result (List (Text × Account) × List Account)
unfolding accounts_loop
get_accounts_list v less accs = accounts_loop v less accs accs []

-- Account::getServername
unfoldable pub get_servername : Account → Text
get_servername a = a.username ++ b':' ∷ a.id

-- IM::getAccount on the map
unfoldable pub get_account : Text → List (Text × Account) → Option Account
unfolding get_servername
get_account name [] = none
get_account name ((k, a) ∷ r) =
    let rest = get_account name r in
    if text_eq (get_servername a) name || text_eq a.id name then some a else rest

-- IM::getAccountFromChannel on the map
unfoldable pub get_account_from_channel : Text → List (Text × Account) → Option Account
get_account_from_channel name [] = none
get_account_from_channel name ((k, a) ∷ r) =
    let rest = get_account_from_channel name r in if text_eq a.channel name then some a else rest
