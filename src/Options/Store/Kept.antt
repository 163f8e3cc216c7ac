-- ===== src/Options/Store/Kept.antt =====
-- What setOptions of src/im/account.cpp does to the strings that an account keeps.
use minbif.Prelude.{
  ◌≡◌, refl, ap, sym, subst, ◌∙◌, Bool, true, false, not, [], ◌∷◌, ◌++◌, Text, is_empty, text_eq,
  all, arith, if◌then◌else◌, Bool-cases, inl, inr, codes,
}
use minbif.Config.{ℤ}
use minbif.Options.{OptionType, AccountOption, Options, Numbers}
use minbif.Options.Store.{
  Store, Storing, stored, refused, account_id, set_server_aliases, set_status_channel_name,
  set_acc_id, set_channel, set_new_password, store_option, set_account_options,
}

-- The strings of the account are kept: one is what was stored under its name last, and nothing else
-- that setOptions does changes it.
pub record KeepsStrings {S : Type 0} (p : Store S) : Type 0 where
  pub by_same_name : (k d v : Text) (s : S) → p.read_string k d (p.store_string k v s) ≡ v
  pub other_name :
      (j k d v : Text) (s : S)
      → text_eq j k ≡ false
      → p.read_string k d (p.store_string j v s) ≡ p.read_string k d s
  pub other_int :
      (j k d : Text) (i : ℤ) (s : S)
      → text_eq j k ≡ false
      → p.read_string k d (p.store_int j i s) ≡ p.read_string k d s
  pub other_bool :
      (j k d : Text) (b : Bool) (s : S)
      → text_eq j k ≡ false
      → p.read_string k d (p.store_bool j b s) ≡ p.read_string k d s
  pub by_password :
      (k d v : Text) (s : S) → p.read_string k d (p.store_password v s) ≡ p.read_string k d s
  pub by_remember :
      (k d : Text) (b : Bool) (s : S)
      → p.read_string k d (p.remember_password b s) ≡ p.read_string k d s
  pub by_ui_string :
      (j k d v : Text) (s : S) → p.read_string k d (p.store_ui_string j v s) ≡ p.read_string k d s
  pub by_ui_bool :
      (j k d : Text) (b : Bool) (s : S)
      → p.read_string k d (p.store_ui_bool j b s) ≡ p.read_string k d s
  pub by_account :
      (k d v : Text) (s : S) → p.read_string k d (p.is_account v s).1 ≡ p.read_string k d s
  pub by_leave :
      (k d : Text) (s : S) → p.read_string k d (p.leave_status_channel s) ≡ p.read_string k d s
  pub by_create :
      (k d : Text) (s : S) → p.read_string k d (p.create_status_channel s) ≡ p.read_string k d s

module _ {S : Type 0} (p : Store S) (n : Numbers) (w : KeepsStrings p) (k d : Text) where
  -- what is left has the string of s
  data Keeps (s : S) : Storing S → Type 0 where
    returns : (t : S) → p.read_string k d t ≡ p.read_string k d s → Keeps s (stored t)
    throws : (e : Text) (t : S) → p.read_string k d t ≡ p.read_string k d s → Keeps s (refused e t)

  if-Keeps :
      (s : S) (b : Bool) {x y : Storing S} → Keeps s x → Keeps s y → Keeps s (if b then x else y)
  if-Keeps s true l r = l
  if-Keeps s false l r = r

  Keeps_from :
      (s t : S) (x : Storing S) → p.read_string k d t ≡ p.read_string k d s → Keeps t x → Keeps s x
  Keeps_from s t _ e (returns u h) = returns u (h ∙ e)
  Keeps_from s t _ e (throws r u h) = throws r u (h ∙ e)

  pub account_id-Keeps : (s : S) → p.read_string k d (account_id p n s).1 ≡ p.read_string k d s
  unfolding account_id
  account_id-Keeps s = elim (Bool-cases (is_empty (p.read_ui_string (codes "id") s))) [
    | inl e ↦ rw e (w.by_ui_string (codes "id") k d (p.new_account_name s) s)
    | inr e ↦ rw e refl
  ]

  set_acc_id-Keeps : (value : Text) (s : S) → Keeps s (set_acc_id p n value s)
  unfolding set_acc_id
  set_acc_id-Keeps value s =
      let t = (p.is_account value s).1 in
      if-Keeps s (p.is_connected s) (throws _ s refl) (
        if-Keeps s (is_empty value)
          (returns _ (w.by_ui_string (codes "id") k d (p.new_account_name s) s))
          (if-Keeps s (p.is_account value s).0 (throws _ t (w.by_account k d value s))
            (returns _ (w.by_ui_string (codes "id") k d value t ∙ w.by_account k d value s))))

  set_channel-Keeps : (value : Text) (s : S) → Keeps s (set_channel p n value s)
  unfolding set_channel set_status_channel_name
  set_channel-Keeps value s =
      let left = p.leave_status_channel s in
      if-Keeps s _ (throws _ s refl) (
        returns _ (
          w.by_create k d (p.store_ui_string (codes "channel") value left)
          ∙ w.by_ui_string (codes "channel") k d value left
          ∙ w.by_leave k d s))

  set_new_password-Keeps :
      (value : Text) (s : S)
      → p.read_string k d (set_new_password p n value s) ≡ p.read_string k d s
  unfolding set_new_password
  set_new_password-Keeps value s = elim (Bool-cases (is_empty value)) [
    | inl e ↦ rw e (w.by_remember k d false s)
    | inr e ↦ rw e (w.by_remember k d true (p.store_password value s) ∙ w.by_password k d value s)
  ]

  -- storing an option of another name
  type-Keeps :
      (t : OptionType) (o : AccountOption) (s : S)
      → text_eq o.name k ≡ false
      → Keeps s (store_option p n (record o { type = t }) s)
  unfolding store_option set_server_aliases
  type-Keeps OptionType.str_type o s h = returns _ (w.other_name o.name k d o.value s h)
  type-Keeps OptionType.str_list_type o s h = returns _ (w.other_name o.name k d o.value s h)
  type-Keeps OptionType.int_type o s h = returns _ (w.other_int o.name k d _ s h)
  type-Keeps OptionType.bool_type o s h = returns _ (w.other_bool o.name k d _ s h)
  type-Keeps OptionType.acc_id o s h =
      let t = (account_id p n s).1 in
      if-Keeps s (text_eq (account_id p n s).0 o.value) (returns t (account_id-Keeps s)) (
        Keeps_from s t (set_acc_id p n o.value t) (account_id-Keeps s) (set_acc_id-Keeps o.value t))
  type-Keeps OptionType.status_channel o s h =
      if-Keeps s _ (returns s refl) (set_channel-Keeps o.value s)
  type-Keeps OptionType.password_type o s h =
      if-Keeps s _ (returns s refl) (returns _ (set_new_password-Keeps o.value s))
  type-Keeps OptionType.server_aliases o s h = returns _ (w.by_ui_bool _ k d _ s)
  type-Keeps OptionType.none_type o s h = returns s refl

  round-Keeps :
      (s : S) (x : Storing S) (r : Options)
      → Keeps s x
      → ((t : S) → Keeps t (set_account_options p n r t))
      → Keeps s (elim x [ stored t ↦ set_account_options p n r t | refused e t ↦ refused e t ])
  round-Keeps s _ r (returns t h) more = Keeps_from s t _ h (more t)
  round-Keeps s _ r (throws e t h) more = throws e t h

  -- storing options of other names
  set_account_options-Keeps :
      (r : Options) (s : S)
      → all (λ q. not (text_eq q.1.name k)) r ≡ true
      → Keeps s (set_account_options p n r s)
  unfolding set_account_options
  set_account_options-Keeps [] s h = returns s refl
  set_account_options-Keeps ((j, o) ∷ r) s h =
      round-Keeps s (store_option p n o s) r (type-Keeps o.type o s (ground arith))
        λ t. set_account_options-Keeps r t (ground arith)

  -- the string is v, unless OptionError was thrown
  pub data Reads (v : Text) : Storing S → Type 0 where
    reads_it : (t : S) → p.read_string k d t ≡ v → Reads v (stored t)
    is_refused : (e : Text) (t : S) → Reads v (refused e t)

  Reads-Keeps : (v : Text) (s : S) (x : Storing S) → p.read_string k d s ≡ v → Keeps s x → Reads v x
  Reads-Keeps v s _ e (returns t h) = reads_it t (h ∙ e)
  Reads-Keeps v s _ e (throws r t h) = is_refused r t

  round-Reads :
      (v : Text) (x : Storing S) (r : Options)
      → ((t : S) → Reads v (set_account_options p n r t))
      → Reads v (elim x [ stored t ↦ set_account_options p n r t | refused e t ↦ refused e t ])
  round-Reads v (stored t) r more = more t
  round-Reads v (refused e t) r more = is_refused e t

  pub behind-Reads :
      (v : Text) (before r : Options)
      → ((s : S) → Reads v (set_account_options p n r s))
      → (s : S) → Reads v (set_account_options p n (before ++ r) s)
  unfolding set_account_options
  behind-Reads v [] r h s = h s
  behind-Reads v ((j, o) ∷ before) r h s =
      round-Reads v (store_option p n o s) (before ++ r) (behind-Reads v before r h)

-- STR and STR_LIST
abbrev pub is_string : OptionType → Bool
is_string OptionType.str_type = true
is_string OptionType.str_list_type = true
is_string _ = false

module _ {S : Type 0} (p : Store S) (n : Numbers) where
  store_option_string :
      (t : OptionType) (o : AccountOption) (s : S)
      → is_string t ≡ true
      → store_option p n (record o { type = t }) s ≡ stored (p.store_string o.name o.value s)
  unfolding store_option
  store_option_string OptionType.str_type o s h = refl
  store_option_string OptionType.str_list_type o s h = refl
  store_option_string OptionType.none_type o s h = cc
  store_option_string OptionType.bool_type o s h = cc
  store_option_string OptionType.int_type o s h = cc
  store_option_string OptionType.acc_id o s h = cc
  store_option_string OptionType.password_type o s h = cc
  store_option_string OptionType.status_channel o s h = cc
  store_option_string OptionType.server_aliases o s h = cc

  pub head-Reads :
      (w : KeepsStrings p) (d key : Text) (o : AccountOption) (after : Options) (s : S)
      → is_string o.type ≡ true
      → all (λ q. not (text_eq q.1.name o.name)) after ≡ true
      → Reads p n w o.name d o.value (set_account_options p n ((key, o) ∷ after) s)
  unfolding set_account_options
  head-Reads w d key o after s h e =
      let t = p.store_string o.name o.value s in
      let opened : set_account_options p n ((key, o) ∷ after) s ≡ set_account_options p n after t =
        rw (set_account_options, store_option_string o.type o s h) refl in
      subst (Reads p n w o.name d o.value) (sym opened) (
        Reads-Keeps p n w o.name d o.value t (set_account_options p n after t)
          (w.by_same_name o.name d o.value s) (set_account_options-Keeps p n w o.name d after t e))

  left_with : Storing S → S
  left_with (stored s) = s
  left_with (refused e s) = s

  -- what Reads says of a result that is known
  pub read_of :
      (w : KeepsStrings p) (k d v : Text) (x : Storing S) (t : S)
      → Reads p n w k d v x
      → x ≡ stored t
      → p.read_string k d t ≡ v
  unfolding left_with
  read_of w k d v _ t (reads_it u h) e = sym (ap (λ r. p.read_string k d (left_with r)) e) ∙ h
  read_of w k d v _ t (is_refused r u) e = cc
