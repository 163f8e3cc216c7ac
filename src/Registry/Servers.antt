-- ===== src/Registry/Servers.antt =====
-- `removeServer` of src/irc/irc.cpp.
use minbif.Prelude.{
  ℕ, zero, suc, ◌<◌, ◌≡◌, refl, sym, ap, ◌∙◌, inl, inr, false, List, [], ◌∷◌, ◌++◌, append_assoc,
  append-nil, Option, none, some, Text, length, ◌==◌, if◌then◌else◌, Bool-cases, arith,
}
use minbif.Registry.{Registry, find, erase, pull_first, clean_loop, remove_server}

module _ (server_of : ℕ → ℕ) (v : ℕ) where
  -- the entries whose nick is on another server, and the nicks that are on this one
  abbrev pub staying : List (Text × ℕ) → List (Text × ℕ)
  staying [] = []
  staying ((j, n) ∷ r) = let rest = staying r in if server_of n == v then rest else (j, n) ∷ rest

  abbrev pub leaving : List (Text × ℕ) → List ℕ
  leaving [] = []
  leaving ((j, n) ∷ r) = let rest = leaving r in if server_of n == v then n ∷ rest else rest

  -- What pull_first has found.
  data Pulled (us : List (Text × ℕ)) : Option (ℕ × List (Text × ℕ)) → Type 0 where
    nobody : staying us ≡ us → leaving us ≡ [] → Pulled us none
    somebody :
        {n : ℕ} {rest : List (Text × ℕ)}
        → staying us ≡ staying rest
        → leaving us ≡ n ∷ leaving rest
        → length us ≡ suc (length rest)
        → Pulled us (some (n, rest))

  Pulled-cons :
      (j : Text) (m : ℕ) (r : List (Text × ℕ)) {o : Option (ℕ × List (Text × ℕ))}
      → (server_of m == v) ≡ false
      → Pulled r o
      → Pulled ((j, m) ∷ r) (elim o [ none ↦ none | some (n, r') ↦ some (n, (j, m) ∷ r') ])
  Pulled-cons j m r e (nobody k l) = nobody (ground (arith, k, e)) (ground (arith, l, e))
  Pulled-cons j m r e (somebody {rest = r'} k l s) =
      somebody (ground (arith, k, e)) (ground (arith, l, e)) (ground (arith, s))

  pull_first-Pulled : (us : List (Text × ℕ)) → Pulled us (pull_first server_of v us)
  unfolding pull_first
  pull_first-Pulled [] = nobody refl refl
  pull_first-Pulled ((j, m) ∷ r) = elim (Bool-cases (server_of m == v)) [
    | inl e ↦ rw (pull_first, e) (somebody (ground (arith, e)) (ground (arith, e)) refl)
    | inr e ↦ rw (pull_first, e) (Pulled-cons j m r e (pull_first-Pulled r))
  ]

clean_loop_found :
    (fuel v n : ℕ) (rest : List (Text × ℕ)) (r : Registry)
    → pull_first r.server_of v r.users ≡ some (n, rest)
    → clean_loop (suc fuel) v r
      ≡ clean_loop fuel v (record r { users = rest; deleted = r.deleted ++ n ∷ [] })
unfolding clean_loop
clean_loop_found fuel v n rest r e = rw (clean_loop, e) refl

clean_loop_done :
    (fuel v : ℕ) (r : Registry)
    → pull_first r.server_of v r.users ≡ none
    → clean_loop (suc fuel) v r ≡ some r
unfolding clean_loop
clean_loop_done fuel v r e = rw (clean_loop, e) refl

-- what the loop comes to
cleaned : ℕ → Registry → Registry
cleaned v r = record r {
  users = staying r.server_of v r.users;
  deleted = r.deleted ++ leaving r.server_of v r.users;
}

same_cleaned :
    (r : Registry) {us us' : List (Text × ℕ)} {ds ds' : List ℕ}
    → us ≡ us'
    → ds ≡ ds'
    → some (record r { users = us; deleted = ds }) ≡ some (record r { users = us'; deleted = ds' })
same_cleaned r p q = λ i. some (record r { users = p i; deleted = q i })

clean_round :
    (fuel v : ℕ) (r : Registry) {o : Option (ℕ × List (Text × ℕ))}
    → ((r' : Registry) → length r'.users < fuel → clean_loop fuel v r' ≡ some (cleaned v r'))
    → length r.users < suc fuel
    → Pulled r.server_of v r.users o
    → pull_first r.server_of v r.users ≡ o
    → clean_loop (suc fuel) v r ≡ some (cleaned v r)
unfolding cleaned
clean_round fuel v r later h (nobody k l) e =
    clean_loop_done fuel v r e
    ∙ same_cleaned r (sym k) (sym (append-nil r.deleted) ∙ ap (λ x. r.deleted ++ x) (sym l))
clean_round fuel v r later h (somebody {n} {rest} k l s) e =
    clean_loop_found fuel v n rest r e
    ∙ later (record r { users = rest; deleted = r.deleted ++ n ∷ [] }) (omega (arith, h, s))
    ∙ same_cleaned r (sym k) (
        append_assoc r.deleted (n ∷ []) (leaving r.server_of v rest)
        ∙ ap (λ x. r.deleted ++ x) (sym l))

clean_loop_lem :
    (fuel v : ℕ) (r : Registry) → length r.users < fuel → clean_loop fuel v r ≡ some (cleaned v r)
clean_loop_lem zero v r h = absurd (omega (arith, h))
clean_loop_lem (suc fuel) v r h =
    clean_round fuel v r (clean_loop_lem fuel v) h (pull_first-Pulled r.server_of v r.users) refl

-- Removing a server that is in the map ends. It deletes the nicks of the map that are on the server, in the map's order,
-- each entry once, leaves the other entries in their order, and takes the server off its map; the
-- transfers and what the other servers list do not change.
pub remove_server_cleaned :
    (name : Text) (v : ℕ) (r : Registry)
    → find name r.servers ≡ some v
    → remove_server name r
      ≡ some (record r {
        users = staying r.server_of v r.users;
        deleted = r.deleted ++ leaving r.server_of v r.users;
        servers = erase name r.servers;
      })
unfolding remove_server cleaned
remove_server_cleaned name v r h =
    rw (remove_server, h, clean_loop_lem (suc (length r.users)) v r (omega arith)) refl
