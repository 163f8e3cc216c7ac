-- ===== src/Options/Store/Shown.antt =====
-- What getOptions of src/im/account.cpp shows of the strings that setOptions stored.
use minbif.Prelude.{
  ℕ, suc, length, ◌≡◌, refl, ap, ◌∙◌, true, not, [], ◌∷◌, ◌++◌, Text, text_eq, all,
}
use minbif.Options.{OptionType, AccountOption, Options, Numbers, set_value}
use minbif.Options.Store.{Store, stored, set_account_options, get_option, get_account_options}
use minbif.Options.Store.Kept.{
  KeepsStrings, account_id-Keeps, behind-Reads, head-Reads, read_of, is_string,
}

module _ {S : Type 0} (p : Store S) (n : Numbers) where
  get_option-keeps :
      (w : KeepsStrings p) (k d : Text) (t : OptionType) (o : AccountOption) (s : S)
      → p.read_string k d (get_option p n (record o { type = t }) s).1 ≡ p.read_string k d s
  unfolding get_option
  get_option-keeps w k d OptionType.str_type o s = refl
  get_option-keeps w k d OptionType.str_list_type o s = refl
  get_option-keeps w k d OptionType.int_type o s = refl
  get_option-keeps w k d OptionType.bool_type o s = refl
  get_option-keeps w k d OptionType.acc_id o s = account_id-Keeps p n w k d s
  get_option-keeps w k d OptionType.status_channel o s = refl
  get_option-keeps w k d OptionType.password_type o s = refl
  get_option-keeps w k d OptionType.server_aliases o s = refl
  get_option-keeps w k d OptionType.none_type o s = refl

  get_option_whole :
      (t : OptionType) (o : AccountOption) (s : S)
      → is_string t ≡ true
      → (get_option p n (record o { type = t }) s).0
        ≡ set_value (p.read_string o.name o.value s) (record o { type = t })
  unfolding get_option
  get_option_whole OptionType.str_type o s h = refl
  get_option_whole OptionType.str_list_type o s h = refl
  get_option_whole OptionType.none_type o s h = cc
  get_option_whole OptionType.bool_type o s h = cc
  get_option_whole OptionType.int_type o s h = cc
  get_option_whole OptionType.acc_id o s h = cc
  get_option_whole OptionType.password_type o s h = cc
  get_option_whole OptionType.status_channel o s h = cc
  get_option_whole OptionType.server_aliases o s h = cc

  -- What is shown at the place of an option.
  abbrev pub ShownAt : ℕ → Text × AccountOption → Options → Type 0
  ShownAt i q shown = (x : Options) × (y : Options) × (shown ≡ x ++ q ∷ y) × (length x ≡ i)

  get_account_options-ShownAt :
      (w : KeepsStrings p) (before after : Options) (key default : Text) (o : AccountOption) (s : S)
      → is_string o.type ≡ true
      → p.read_string o.name default s ≡ o.value
      → ShownAt
          (length before)
          (key, o)
          (get_account_options p n (before ++ (key, set_value default o) ∷ after) s).0
  unfolding get_account_options
  get_account_options-ShownAt w [] after key default o s h e = (
    [],
    _,
    ap
        (λ q.
          (key, q) ∷ (get_account_options p n after (get_option p n (set_value default o) s).1).0)
        (get_option_whole o.type (set_value default o) s h ∙ ap (λ v. set_value v o) e),
    refl,
  )
  get_account_options-ShownAt w ((j, q) ∷ before) after key default o s h e =
      let t = (get_option p n q s).1 in
      let (x, y, f, l) =
        get_account_options-ShownAt w before after key default o t h
          (get_option-keeps w o.name default q.type q s ∙ e) in
      (
        (j, (get_option p n q s).0) ∷ x,
        y,
        ap (λ r. (j, (get_option p n q s).0) ∷ r) f,
        ap (λ i. suc i) l,
      )

  -- When the account keeps strings and setOptions does not throw, getOptions of the account shows an
  -- option of type STR or STR_LIST at its place with the value that it was given, whatever the default
  -- is that the protocol has for it and whatever options are before and behind it there, if no option
  -- behind it in what was set has the same name.
  pub set_account_options-get_account_options :
      (w : KeepsStrings p) (before after : Options) (key : Text) (o : AccountOption) (s t : S)
      → is_string o.type ≡ true
      → all (λ q. not (text_eq q.1.name o.name)) after ≡ true
      → set_account_options p n (before ++ (key, o) ∷ after) s ≡ stored t
      → (default : Text) (shown_before shown_after : Options)
      → ShownAt
          (length shown_before)
          (key, o)
          (get_account_options p n (shown_before ++ (key, set_value default o) ∷ shown_after) t).0
  set_account_options-get_account_options w before after key o s t h e k default xs ys =
      get_account_options-ShownAt w xs ys key default o t h (
        read_of p n w o.name default o.value _ t
          (behind-Reads p n w o.name default o.value before ((key, o) ∷ after)
            (λ u. head-Reads p n w default key o after u h e) s)
          k)
