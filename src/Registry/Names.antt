-- ===== src/Registry/Names.antt =====
-- The map of nicks of src/irc/irc.cpp, and the nicks that servers list.
use minbif.Prelude.{
  ℕ, ◌≡◌, refl, sym, ap, ◌∙◌, Bool, true, false, ◌&&◌, List, [], ◌∷◌, ◌++◌, some, Text, text_eq,
  text_eq_refl, eq_of_text_eq, mem, any-append, ◌==◌, if◌then◌else◌, Bool-cases, inl, inr, arith,
}
use minbif.Registry.{
  Registry, text_lt, put, find, erase, server_add, drop_first, server_remove, add_nick, rename_nick,
  nick_loop, get_nick, remove_nick,
}

-- two tests that do not hold together, in either order
swap_tests :
    {A : Type 0} (a b : Bool) (x y z : A)
    → (a && b) ≡ false
    → (if a then x else if b then y else z) ≡ (if b then y else if a then x else z)
swap_tests false b x y z h = refl
swap_tests true false x y z h = refl
swap_tests true true x y z h = absurd (cc)

apart : (i j k : Text) → text_eq i j ≡ false → (text_eq i k && text_eq j k) ≡ false
apart i j k e = elim (Bool-cases (text_eq j k)) [
  | inl b ↦
      ap (λ x. text_eq i x && text_eq j k) (sym (eq_of_text_eq j k b))
      ∙ ap (λ c. c && text_eq j k) e
  | inr b ↦ ground (arith, b)
]

find-put :
    (k j : Text) (v : ℕ) (m : List (Text × ℕ))
    → find k (put j v m) ≡ (if text_eq j k then some v else find k m)
unfolding find put
find-put k j v [] = refl
find-put k j v ((i, w) ∷ r) = elim (Bool-cases (text_eq i j)) [
  | inl e ↦ rw (put, e) (rw (eq_of_text_eq i j e) (ground arith))
  | inr e ↦ elim (Bool-cases (text_lt j i)) [
    | inl l ↦ rw (put, e, l) refl
    | inr l ↦
        rw (put, e, l)
          (ap (λ o. if text_eq i k then some w else o) (find-put k j v r)
            ∙ swap_tests (text_eq i k) (text_eq j k) (some w) (some v) (find k r) (apart i j k e))
  ]
]

find-erase :
    (k j : Text) (m : List (Text × ℕ)) → text_eq j k ≡ false → find k (erase j m) ≡ find k m
unfolding find erase
find-erase k j [] h = refl
find-erase k j ((i, w) ∷ r) h = elim (Bool-cases (text_eq i j)) [
  | inl e ↦ rw (erase, e) (rw (eq_of_text_eq i j e, h) refl)
  | inr e ↦ rw (erase, e) (ap (λ o. if text_eq i k then some w else o) (find-erase k j r h))
]

nick_loop_lem : (k : Text) (m : List (Text × ℕ)) → nick_loop true k m ≡ find k m
unfolding nick_loop find
nick_loop_lem k [] = refl
nick_loop_lem k ((j, w) ∷ r) = ap (λ o. if text_eq j k then some w else o) (nick_loop_lem k r)

-- the name of a nick that was renamed
renamed : ℕ → Text → Registry → Text
renamed n newnick r = if n == n then newnick else r.name_of n

renamed_lem : (n : ℕ) (newnick : Text) (r : Registry) → renamed n newnick r ≡ newnick
unfolding renamed
renamed_lem n newnick r = ground arith

find-renamed :
    (n : ℕ) (newnick k : Text) (r : Registry) (m : List (Text × ℕ))
    → find k (put (renamed n newnick r) n m) ≡ (if text_eq newnick k then some n else find k m)
find-renamed n newnick k r m =
    find-put k (renamed n newnick r) n m
    ∙ ap (λ x. if text_eq x k then some n else find k m) (renamed_lem n newnick r)

-- After a nick is renamed, its new name finds it, and every name but its old one finds what it found
-- before.
pub get_nick-rename_nick :
    (n : ℕ) (newnick k : Text) (r : Registry)
    → text_eq (r.name_of n) k ≡ false
    → get_nick k true (rename_nick n newnick r)
      ≡ (if text_eq newnick k then some n else get_nick k true r)
unfolding get_nick rename_nick add_nick server_add renamed
get_nick-rename_nick n newnick k r h =
    let others = erase (r.name_of n) r.users in
    nick_loop_lem k (put (renamed n newnick r) n others)
    ∙ find-renamed n newnick k r others
    ∙ ap (λ o. if text_eq newnick k then some n else o)
        (find-erase k (r.name_of n) r.users h ∙ sym (nick_loop_lem k r.users))

mem-drop_first :
    (n : ℕ) (ms : List ℕ) → mem n ms ≡ true → mem n (drop_first n (ms ++ n ∷ [])) ≡ true
unfolding drop_first
mem-drop_first n [] h = absurd (cc)
mem-drop_first n (m ∷ ms) h = elim (Bool-cases (m == n)) [
  | inl e ↦ rw (drop_first, e) (any-append (λ (y : ℕ). y == n) ms (n ∷ []) ∙ ground arith)
  | inr e ↦ rw (drop_first, e) (ground (arith, mem-drop_first n ms))
]

-- A nick that its server lists is renamed and then removed by its new name: it is deleted, and the
-- server still lists it.
pub remove_nick-rename_nick :
    (n : ℕ) (newnick : Text) (r : Registry)
    → mem n (r.members (r.server_of n)) ≡ true
    → (mem n (remove_nick newnick (rename_nick n newnick r)).deleted ≡ true)
      × (mem n ((remove_nick newnick (rename_nick n newnick r)).members (r.server_of n)) ≡ true)
unfolding remove_nick rename_nick add_nick server_add server_remove renamed
remove_nick-rename_nick n newnick r h =
    let others = erase (r.name_of n) r.users in
    let found : find newnick (put (renamed n newnick r) n others) ≡ some n =
      find-renamed n newnick newnick r others
      ∙ ap (λ c. if c then some n else find newnick others) (text_eq_refl newnick) in
    let same_server : (r.server_of n == r.server_of n) ≡ true = ground arith in
    rw (remove_nick, found)
      (
        any-append (λ (y : ℕ). y == n) r.deleted (n ∷ []) ∙ ground arith,
        rw (same_server) (mem-drop_first n (r.members (r.server_of n)) h),
      )
