-- ===== src/Settings/Booleans.antt =====
-- The settings with a boolean, in src/irc/settings.cpp.
use minbif.Prelude.{
  List, [], ◌∷◌, any, not, ◌&&◌, text_eq, eq_of_text_eq, arith, ◌≡◌, refl, ap, sym, ◌∙◌, Bool, true,
  false, Option, none, some, Text, codes, map, Bool-cases, inl, inr, if◌then◌else◌,
}
use minbif.Result.{ok, ◌>>=◌}
use minbif.Config.{ℤ, pos}
use minbif.Token.Words.{words}
use minbif.Irc.{Server}
use minbif.Irc.Notices.{notice-words, told, line_message}
use minbif.Options.{Numbers, true_or_false}
use minbif.Settings.{
  Backing, State, Switch, typing_notice, accept_no_buddies_messages, voiced_buddies, server_aliases,
  away_idle, Setting, bool_of_text, nonzero, same_bool, is_on, turn, has_typing_notice,
  set_typing_notice, has_voiced_buddies, set_voiced_buddies, get_value, set_value, refuse,
}

-- The preferences keep what is set, each under its name, also while the buddies are updated.
pub record IsKept {P : Type 0} (b : Backing P) : Type 0 where
  pub kept_int : (k : Text) (i : ℤ) (p : P) → b.prefs_get_int k (b.prefs_set_int k i p) ≡ i
  pub kept_bool : (k : Text) (x : Bool) (p : P) → b.prefs_get_bool k (b.prefs_set_bool k x p) ≡ x
  pub kept_updated :
      (k : Text) (p : P) → b.prefs_get_bool k (b.updated_all_buddies p) ≡ b.prefs_get_bool k p
  pub kept_updated_int :
      (k : Text) (p : P) → b.prefs_get_int k (b.updated_all_buddies p) ≡ b.prefs_get_int k p
  pub other_bool :
      (j k : Text) (x : Bool) (p : P)
      → text_eq j k ≡ false
      → b.prefs_get_bool k (b.prefs_set_bool j x p) ≡ b.prefs_get_bool k p
  pub int_by_bool :
      (j k : Text) (x : Bool) (p : P)
      → text_eq j k ≡ false
      → b.prefs_get_int k (b.prefs_set_bool j x p) ≡ b.prefs_get_int k p
  pub bool_by_int :
      (j k : Text) (i : ℤ) (p : P)
      → text_eq j k ≡ false
      → b.prefs_get_bool k (b.prefs_set_int j i p) ≡ b.prefs_get_bool k p

-- the preference that a switch is
abbrev pub preference : Switch → Text
preference typing_notice = codes "/minbif/typing_notice"
preference accept_no_buddies_messages = codes "/minbif/accept_nobuddies_messages"
preference voiced_buddies = codes "/minbif/voiced_buddies"
preference server_aliases = codes "/minbif/server_aliases"
preference away_idle = codes "/purple/away/away_when_idle"

-- the texts that turn a switch on, and off
abbrev pub words_for : Bool → List Text
words_for true = codes "1" ∷ codes "true" ∷ []
words_for false = codes "0" ∷ codes "false" ∷ []

abbrev pub is_word : Text → Bool → Bool
is_word t on = any (text_eq t) (words_for on)

-- A text means on or off, or nothing.
abbrev pub means : Text → Option Bool → Bool
means t (some on) = is_word t on
means t none = not (is_word t true) && not (is_word t false)

bool_of_text-means : (t : Text) (o : Option Bool) → means t o ≡ true → bool_of_text t ≡ o
unfolding bool_of_text
bool_of_text-means t none h = ground arith
bool_of_text-means t (some true) h = ground arith
bool_of_text-means t (some false) h = elim (Bool-cases (text_eq t (codes "0"))) [
  | inl e ↦ ap bool_of_text (eq_of_text_eq t (codes "0") e)
  | inr e ↦ ap bool_of_text (eq_of_text_eq t (codes "false") (ground (arith, e)))
]

nonzero_of_bool : (x : Bool) → nonzero (pos (if x then 1 else 0)) ≡ x
unfolding nonzero
nonzero_of_bool true = refl
nonzero_of_bool false = refl

eq_of_same_bool : (x y : Bool) → same_bool x y ≡ true → x ≡ y
unfolding same_bool
eq_of_same_bool true y h = sym h
eq_of_same_bool false true h = cc
eq_of_same_bool false false h = refl

module _ {P : Type 0} (b : Backing P) (w : IsKept b) (n : Numbers) (v : Server) where
  voiced-turn : (on : Bool) (p : P) → has_voiced_buddies b n v (set_voiced_buddies b n v on p) ≡ on
  unfolding has_voiced_buddies set_voiced_buddies
  voiced-turn on p = elim (Bool-cases (same_bool (has_voiced_buddies b n v p) on)) [
    | inl e ↦ rw e (eq_of_same_bool (has_voiced_buddies b n v p) on e)
    | inr e ↦ rw e (
        w.kept_updated (codes "/minbif/voiced_buddies")
          (b.prefs_set_bool (codes "/minbif/voiced_buddies") on p)
        ∙ w.kept_bool (codes "/minbif/voiced_buddies") on p)
  ]

  is_on-turn : (k : Switch) (on : Bool) (p : P) → is_on b n v k (turn b n v k on p) ≡ on
  unfolding is_on turn has_typing_notice set_typing_notice
  is_on-turn typing_notice on p =
      ap nonzero (w.kept_int (codes "/minbif/typing_notice") (pos (if on then 1 else 0)) p)
      ∙ nonzero_of_bool on
  is_on-turn accept_no_buddies_messages on p =
      w.kept_bool (codes "/minbif/accept_nobuddies_messages") on p
  is_on-turn voiced_buddies on p = voiced-turn on p
  is_on-turn server_aliases on p = w.kept_bool (codes "/minbif/server_aliases") on p
  is_on-turn away_idle on p = w.kept_bool (codes "/purple/away/away_when_idle") on p

  bool_by_voiced :
      (on : Bool) (j : Text) (p : P)
      → text_eq (codes "/minbif/voiced_buddies") j ≡ false
      → b.prefs_get_bool j (set_voiced_buddies b n v on p) ≡ b.prefs_get_bool j p
  unfolding set_voiced_buddies
  bool_by_voiced on j p h = elim (Bool-cases (same_bool (has_voiced_buddies b n v p) on)) [
    | inl e ↦ rw e refl
    | inr e ↦ rw e (
        w.kept_updated j (b.prefs_set_bool (codes "/minbif/voiced_buddies") on p)
        ∙ w.other_bool (codes "/minbif/voiced_buddies") j on p h)
  ]

  int_by_voiced :
      (on : Bool) (j : Text) (p : P)
      → text_eq (codes "/minbif/voiced_buddies") j ≡ false
      → b.prefs_get_int j (set_voiced_buddies b n v on p) ≡ b.prefs_get_int j p
  unfolding set_voiced_buddies
  int_by_voiced on j p h = elim (Bool-cases (same_bool (has_voiced_buddies b n v p) on)) [
    | inl e ↦ rw e refl
    | inr e ↦ rw e (
        w.kept_updated_int j (b.prefs_set_bool (codes "/minbif/voiced_buddies") on p)
        ∙ w.int_by_bool (codes "/minbif/voiced_buddies") j on p h)
  ]

  -- a switch changes no preference but its own, of those that are switches
  bool_by_turn :
      (k : Switch) (on : Bool) (j : Text) (p : P)
      → text_eq (preference k) j ≡ false
      → b.prefs_get_bool j (turn b n v k on p) ≡ b.prefs_get_bool j p
  unfolding turn set_typing_notice
  bool_by_turn typing_notice on j p h = w.bool_by_int (preference typing_notice) j _ p h
  bool_by_turn accept_no_buddies_messages on j p h =
      w.other_bool (preference accept_no_buddies_messages) j on p h
  bool_by_turn voiced_buddies on j p h = bool_by_voiced on j p h
  bool_by_turn server_aliases on j p h = w.other_bool (preference server_aliases) j on p h
  bool_by_turn away_idle on j p h = w.other_bool (preference away_idle) j on p h

  typing_by_turn :
      (k : Switch) (on : Bool) (p : P)
      → text_eq (preference k) (preference typing_notice) ≡ false
      → has_typing_notice b n v (turn b n v k on p) ≡ has_typing_notice b n v p
  unfolding turn has_typing_notice
  typing_by_turn typing_notice on p h = cc
  typing_by_turn accept_no_buddies_messages on p h =
      ap nonzero (w.int_by_bool (preference accept_no_buddies_messages) _ on p h)
  typing_by_turn voiced_buddies on p h = ap nonzero (int_by_voiced on _ p h)
  typing_by_turn server_aliases on p h =
      ap nonzero (w.int_by_bool (preference server_aliases) _ on p h)
  typing_by_turn away_idle on p h = ap nonzero (w.int_by_bool (preference away_idle) _ on p h)

  is_on_other :
      (k j : Switch) (on : Bool) (p : P)
      → text_eq (preference k) (preference j) ≡ false
      → is_on b n v j (turn b n v k on p) ≡ is_on b n v j p
  unfolding is_on has_voiced_buddies
  is_on_other k typing_notice on p h = typing_by_turn k on p h
  is_on_other k accept_no_buddies_messages on p h = bool_by_turn k on _ p h
  is_on_other k voiced_buddies on p h = bool_by_turn k on _ p h
  is_on_other k server_aliases on p h = bool_by_turn k on _ p h
  is_on_other k away_idle on p h = bool_by_turn k on _ p h

  -- what becomes of a switch, and of another one: it is set and reads as one of "true" and "false", and
  -- the other reads as before, or it is refused with a notice and nothing else
  abbrev pub Switched : Switch → Switch → Text → State P → Option Bool → Type 0
  Switched k j t s (some on) =
      (u : State P) × (set_value b n v (Setting.switch k) t s ≡ ok (true, u))
      × (get_value b n v (Setting.switch k) u ≡ true_or_false on)
      × (get_value b n v (Setting.switch j) u ≡ get_value b n v (Setting.switch j) s)
      × (u.session ≡ s.session)
  Switched k j t s none =
      set_value b n v (Setting.switch k) t s
      ≡ ok (
        false,
        record s {
          session =
              told
                (map (line_message v (codes "NOTICE") s.session)
                  (words (codes "\n\r") (codes "Value must be 'true' or 'false'")))
                s.session;
        },
      )

  pub set_value-Switched :
      (k j : Switch) (t : Text) (s : State P) (o : Option Bool)
      → text_eq (preference k) (preference j) ≡ false
      → means t o ≡ true
      → Switched k j t s o
  unfolding set_value get_value refuse
  set_value-Switched k j t s none d h =
      rw (set_value, bool_of_text-means t none h)
        (ap (λ r. r >>= λ session. ok (false, record s { session = session }))
          (notice-words v (codes "Value must be 'true' or 'false'") s.session))
  set_value-Switched k j t s (some on) d h = (
    record s { prefs = turn b n v k on s.prefs },
    rw (set_value, bool_of_text-means t (some on) h) refl,
    ap true_or_false (is_on-turn k on s.prefs),
    ap true_or_false (is_on_other k j on s.prefs d),
    refl,
  )
