-- ===== src/Maps/Arguments.antt =====
-- What the arguments of `map add` in src/irc/cmds_accounts.cpp make of the username and the options.
use minbif.Prelude.{
  ◌≡◌, refl, ap, sym, ◌∙◌, Bool, true, false, not, ◌&&◌, ◌||◌, List, [], ◌∷◌, ◌++◌, Option, none,
  some, Text, codes, is_empty, text_eq, eq_of_text_eq, first, any, ◌==◌, if◌then◌else◌, arith,
  Bool-cases, inl, inr, Option-cases,
}
use minbif.Accounts.{map_set, substr}
use minbif.Options.{AccountOption, Options}
use minbif.Maps.{
  find_option, set_found, value_at, set_at, takes_no_value, Argument, goes_on, needs_value, refused,
  read_flag, read_argument, AddReading, account_of, rejected, read_arguments,
}

-- An argument speaks of an option: it is the option's name behind "-" or "-!".
abbrev pub speaks_of : Text → Text → Bool
speaks_of k s = text_eq s (b'-' ∷ k) || text_eq s (b'-' ∷ b'!' ∷ k)

-- No argument speaks of the option, and no argument without a "-" sets it.
abbrev pub is_left : Text → List Text → Bool
is_left k args =
    not (any (speaks_of k) args)
    && (not (text_eq (codes "password") k) && not (text_eq (codes "status_channel") k))

both_left :
    (a b c : Bool)
    → (not (a || b) && c) ≡ true
    → ((not (a || false) && c) ≡ true) × ((not b && c) ≡ true)
both_left true b c h = cc
both_left false true c h = cc
both_left false false c h = (h, h)

is_left_behind :
    (k s : Text) (args : List Text)
    → is_left k (s ∷ args) ≡ true
    → (is_left k (s ∷ []) ≡ true) × (is_left k args ≡ true)
is_left_behind k s args h =
    both_left (speaks_of k s) (any (speaks_of k) args)
      (not (text_eq (codes "password") k) && not (text_eq (codes "status_channel") k)) h

-- the text, or another one if it is empty
abbrev pub or_else : Text → Text → Text
or_else s t = if is_empty s then t else s

-- the first argument that is some text when it is decoded
abbrev pub first_decoded : (Text → Text) → List Text → Text
first_decoded decode [] = []
first_decoded decode (s ∷ args) = let rest = first_decoded decode args in or_else (decode s) rest

or_else-nil : (s : Text) → or_else s [] ≡ s
or_else-nil [] = refl
or_else-nil (c ∷ s) = refl

or_else_assoc : (s t u : Text) → or_else (or_else s t) u ≡ or_else s (or_else t u)
or_else_assoc [] t u = refl
or_else_assoc (c ∷ s) t u = refl

key_apart : (k j l : Text) → text_eq j k ≡ false → text_eq l j ≡ true → text_eq l k ≡ false
key_apart k j l h e = ap (λ x. text_eq x k) (eq_of_text_eq l j e) ∙ h

find_option-set_found :
    (k name value : Text) (options : Options)
    → text_eq name k ≡ false
    → find_option k (set_found name value options) ≡ find_option k options
unfolding find_option set_found
find_option-set_found k name value [] h = refl
find_option-set_found k name value ((j, o) ∷ r) h = elim (Bool-cases (text_eq j name)) [
  | inl e ↦ rw e (rw (key_apart k name j h e) refl)
  | inr e ↦ rw e (ground (arith, find_option-set_found k name value r h))
]

find_option-map_set :
    (less : Text → Text → Bool) (k name : Text) (v : AccountOption) (options : Options)
    → text_eq name k ≡ false
    → find_option k (map_set less name v options) ≡ find_option k options
unfolding find_option map_set
find_option-map_set less k name v [] h = rw h refl
find_option-map_set less k name v ((l, o) ∷ r) h = elim (Bool-cases (text_eq name l)) [
  | inl e ↦
      let same : text_eq l k ≡ false = ap (λ x. text_eq x k) (sym (eq_of_text_eq name l e)) ∙ h in
      rw e (rw h (rw same refl))
  | inr e ↦ elim (Bool-cases (less name l)) [
    | inl d ↦ rw e (rw d (rw h refl))
    | inr d ↦ rw e (rw d (ground (arith, find_option-map_set less k name v r h)))
  ]
]

find_option-set_at :
    (less : Text → Text → Bool) (k name value : Text) (options : Options)
    → text_eq name k ≡ false
    → find_option k (set_at less name value options) ≡ find_option k options
unfolding set_at
find_option-set_at less k name value options h = elim (Option-cases (find_option name options)) [
  | inl e ↦ rw (set_at, e) (find_option-map_set less k name _ options h)
  | inr (o, e) ↦ rw (set_at, e) (find_option-set_found k name value options h)
]

-- the name that a flag gives
flag_name : Text → Text
unfolding substr
flag_name s = substr (if first (substr 1 s) == b'!' then 2 else 1) s

flag_apart :
    (k s : Text)
    → (first s == b'-') ≡ true
    → speaks_of k s ≡ false
    → text_eq (flag_name s) k ≡ false
unfolding flag_name substr
flag_apart k [] f h = cc
flag_apart k (c ∷ []) f h = ground (arith, f, h)
flag_apart k (c ∷ d ∷ cs) f h = elim (Bool-cases (d == b'!')) [
  | inl e ↦ rw e (ground (arith, f, h, e))
  | inr e ↦ rw e (ground (arith, f, h, e))
]

module _ (decode : Text → Text) (less : Text → Text → Bool) (k : Text) where
  -- what an argument comes to, for the username and for the option at k
  data Goes (username : Text) (options : Options) (s : Text) : Argument → Type 0 where
    goes :
        (u : Text) (o : Options)
        → u ≡ or_else username (decode s)
        → find_option k o ≡ find_option k options
        → Goes username options s (goes_on u o)
    needs :
        (name : Text)
        → is_empty username ≡ false
        → text_eq name k ≡ false
        → Goes username options s (needs_value name)
    stops : (e : Text) → Goes username options s (refused e)

  if-Goes :
      (username : Text) (options : Options) (s : Text) (b : Bool) {x y : Argument}
      → (b ≡ true → Goes username options s x)
      → (b ≡ false → Goes username options s y)
      → Goes username options s (if b then x else y)
  if-Goes username options s true l r = l refl
  if-Goes username options s false l r = r refl

  kept : (username s : Text) → is_empty username ≡ false → username ≡ or_else username (decode s)
  kept [] s h = cc
  kept (c ∷ username) s h = refl

  flag-Goes :
      (username : Text) (options : Options) (s : Text) (found : Option AccountOption)
      → is_empty username ≡ false
      → text_eq (flag_name s) k ≡ false
      → Goes username options s (elim found [
        | none ↦ refused (codes "Error: Option '" ++ (s ++ codes "' does not exist"))
        | some o ↦
            if takes_no_value o.type
            then goes_on username (
                set_found
                  (flag_name s)
                  (if first (substr 1 s) == b'!' then codes "false" else codes "true")
                  options)
            else needs_value (flag_name s)
      ])
  flag-Goes username options s none h a = stops _
  flag-Goes username options s (some o) h a =
      if-Goes username options s (takes_no_value o.type)
        (λ e. goes _ _ (kept username s h) (find_option-set_found k (flag_name s) _ options a))
        (λ e. needs (flag_name s) h a)

  read_argument-Goes :
      (username : Text) (options : Options) (s : Text)
      → is_left k (s ∷ []) ≡ true
      → Goes username options s (read_argument decode less username options s)
  unfolding read_argument read_flag flag_name
  read_argument-Goes username options s h =
      if-Goes username options s (is_empty username)
        (λ e. goes _ _ (ap (λ b. if b then decode s else username) (sym e)) refl)
        λ e.
          if-Goes username options s (first s == b'-')
            (λ f.
              flag-Goes username options s (find_option (flag_name s) options) e
                (flag_apart k s f (ground (arith, h))))
            λ f.
              if-Goes username options s (is_empty (value_at (codes "password") options))
                (λ d.
                  goes _ _ (kept username s e)
                    (find_option-set_at less k (codes "password") s options (ground (arith, h))))
                (λ d. goes _ _ (kept username s e) (
                  find_option-set_at less k (codes "status_channel") s options (ground (arith, h))))

  -- what arguments come to: the username, and an option that no argument speaks of
  pub data IsRead (username : Text) (options : Options) (args : List Text)
      : AddReading → Type 0 where
    is_read :
        (u : Text) (o : Options)
        → u ≡ or_else username (first_decoded decode args)
        → find_option k o ≡ find_option k options
        → IsRead username options args (account_of u o)
    is_rejected : (e : Text) → IsRead username options args (rejected e)

  last-IsRead :
      (username : Text) (options : Options) (s : Text) (a : Argument)
      → Goes username options s a
      → IsRead username options (s ∷ []) (elim a [
        | goes_on u o ↦ account_of u o
        | needs_value name ↦ rejected (codes "Error: Option '" ++ (s ++ codes "' needs a value"))
        | refused e ↦ rejected e
      ])
  last-IsRead username options s _ (goes u o e f) =
      is_read u o (e ∙ ap (or_else username) (sym (or_else-nil (decode s)))) f
  last-IsRead username options s _ (needs name e f) = is_rejected _
  last-IsRead username options s _ (stops e) = is_rejected _

  after-IsRead :
      (username : Text) (options : Options) (s : Text) (args : List Text) (u : Text) (o : Options)
      (r : AddReading)
      → u ≡ or_else username (decode s)
      → find_option k o ≡ find_option k options
      → IsRead u o args r
      → IsRead username options (s ∷ args) r
  after-IsRead username options s args u o _ e f (is_read v q g h) =
      is_read v q
        (g
          ∙ ap (λ x. or_else x (first_decoded decode args)) e
          ∙ or_else_assoc username (decode s) (first_decoded decode args))
        (h ∙ f)
  after-IsRead username options s args u o _ e f (is_rejected g) = is_rejected g

  skip-IsRead :
      (username : Text) (options : Options) (s value : Text) (args : List Text) (o : Options)
      (r : AddReading)
      → is_empty username ≡ false
      → find_option k o ≡ find_option k options
      → IsRead username o args r
      → IsRead username options (s ∷ value ∷ args) r
  skip-IsRead username options s value args o _ e f (is_read v q g h) =
      is_read v q (g ∙ rw e refl) (h ∙ f)
  skip-IsRead username options s value args o _ e f (is_rejected g) = is_rejected g

  choose_IsRead :
      (username : Text) (options : Options) (s value : Text) (args : List Text) (a : Argument)
      → Goes username options s a
      → ((u : Text) (o : Options)
          → IsRead u o (value ∷ args) (read_arguments decode less u o (value ∷ args)))
      → ((o : Options) → IsRead username o args (read_arguments decode less username o args))
      → IsRead username options (s ∷ value ∷ args) (elim a [
        | goes_on u o ↦ read_arguments decode less u o (value ∷ args)
        | needs_value name ↦ read_arguments decode less username (set_found name value options) args
        | refused e ↦ rejected e
      ])
  choose_IsRead username options s value args _ (goes u o e f) more skip =
      after-IsRead username options s (value ∷ args) u o _ e f (more u o)
  choose_IsRead username options s value args _ (needs name e f) more skip =
      skip-IsRead username options s value args (set_found name value options) _ e
        (find_option-set_found k name value options f) (skip (set_found name value options))
  choose_IsRead username options s value args _ (stops e) more skip = is_rejected e

  -- The username is the first argument that is some text when it is decoded, and an option that no
  -- argument speaks of is as it was.
  pub read_arguments-IsRead :
      (username : Text) (options : Options) (args : List Text)
      → is_left k args ≡ true
      → IsRead username options args (read_arguments decode less username options args)
  unfolding read_arguments
  read_arguments-IsRead username options [] h =
      is_read username options (sym (or_else-nil username)) refl
  read_arguments-IsRead username options (s ∷ []) h =
      last-IsRead username options s _ (read_argument-Goes username options s h)
  read_arguments-IsRead username options (s ∷ value ∷ args) h =
      let (here, rest) = is_left_behind k s (value ∷ args) h in
      choose_IsRead username options s value args (read_argument decode less username options s)
        (read_argument-Goes username options s here)
        (λ u o. read_arguments-IsRead u o (value ∷ args) rest)
        (λ o. read_arguments-IsRead username o args (is_left_behind k value args rest).1)
