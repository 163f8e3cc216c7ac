-- ===== src/Bans/Masks.antt =====
-- The masks of src/irc/status_channel.cpp, as the ban list shows them and processBan reads them.
use minbif.Prelude.{
  ◌≡◌, refl, ap, ◌∙◌, Bool, true, false, not, ◌&&◌, List, [], ◌∷◌, ◌++◌, some, Text, codes,
  is_empty, text_eq, eq_of_text_eq, has, any, arith, if◌then◌else◌, Bool-cases, inl, inr,
  all-append, mem,
}
use minbif.Token.Words.{clean, stringtok_word, stringtok-append}
use minbif.Bans.{
  get_mask_from_name, split_mask, behind_bang, find_account, account_or_only, account_for, mode,
  mode_of, ban, ban_masked, process_ban,
}

clean_of_has : (s : Text) → has b'@' s ≡ false → clean (codes "@") s ≡ true
clean_of_has [] h = refl
clean_of_has (c ∷ s) h = ground (arith, clean_of_has s)

-- Neither text has a colon, and the ID is not empty.
abbrev pub is_plain : Text → Text → Bool
is_plain name id = clean (codes ":") name && (clean (codes ":") id && not (is_empty id))

abbrev starred : Text → Text
starred name = codes "*!" ++ name

module _ (name id : Text) (h : is_plain name id ≡ true) where
  whole_clean : clean (codes ":") (starred name ++ b'@' ∷ id) ≡ true
  whole_clean =
      all-append (λ c. not (mem c (codes ":"))) (codes "*!" ++ name) (b'@' ∷ id) ∙ ground (arith, h)

  split_mask-get_mask_from_name : split_mask (get_mask_from_name name id) ≡ (starred name, id)
  unfolding split_mask get_mask_from_name
  split_mask-get_mask_from_name = elim (Bool-cases (has b'@' (starred name))) [
    | inl e ↦
        let cut = stringtok-append (codes ":") (starred name) b':' id (ground arith) refl refl in
        let some_id : is_empty id ≡ false = ground arith in rw e (rw cut (rw some_id refl))
    | inr e ↦
        let whole = stringtok_word (codes ":") (starred name ++ b'@' ∷ id) whole_clean refl in
        let cut =
          stringtok-append (codes "@") (starred name) b'@' id (clean_of_has (starred name) e) refl
            refl in
        rw e (rw whole cut)
  ]

  behind_bang-starred : behind_bang (starred name) ≡ name
  unfolding behind_bang
  behind_bang-starred =
      ap (λ r. r.1) (stringtok-append (codes "!") (codes "*") b'!' name refl refl refl)

find_account_lem :
    (id : Text) (accounts : List Text)
    → any (λ a. text_eq a id) accounts ≡ true
    → find_account id accounts ≡ some id
unfolding find_account
find_account_lem id [] h = cc
find_account_lem id (a ∷ r) h = elim (Bool-cases (text_eq a id)) [
  | inl e ↦ rw e (ap (λ x. some x) (eq_of_text_eq a id e))
  | inr e ↦ rw e (find_account_lem id r (ground arith))
]

account_for_lem :
    (id : Text) (accounts : List Text)
    → any (λ a. text_eq a id) accounts ≡ true
    → account_for id accounts ≡ some id
unfolding account_for account_or_only
account_for_lem id accounts h =
    ap (λ a. account_or_only a accounts) (find_account_lem id accounts h)

module _ {S : Type 0} (apply : Bool → Text → Text → S → Bool × S) where
  -- When no nick matches it, the mask that the ban list shows for a name that an account denies, with no
  -- colon in the name and in the ID, which is not empty, means that account and that name again: -b with
  -- it allows the name, +b denies it, and the channel is told the same mask, if that was done.
  pub process_ban-get_mask_from_name :
      (add : Bool) (accounts : List Text) (name id : Text) (s : S)
      → is_plain name id ≡ true
      → any (λ a. text_eq a id) accounts ≡ true
      → process_ban apply add [] accounts (get_mask_from_name name id) s ≡ (
        (if (apply add id name s).0
            then mode (mode_of apply add) (get_mask_from_name name id) ∷ []
            else []),
        (apply add id name s).1,
      )
  unfolding process_ban ban_masked ban
  process_ban-get_mask_from_name add accounts name id s h k =
      ap (λ m. ban_masked apply add (account_for m.1 accounts) m s)
        (split_mask-get_mask_from_name name id h)
      ∙ ap (λ a. ban_masked apply add a (starred name, id) s) (account_for_lem id accounts k)
      ∙ ap (λ n. ban apply add id n s) (behind_bang-starred name id h)
