-- ===== src/Maps/Targets.antt =====
-- The accounts that CONNECT and SQUIT of src/irc/cmds_accounts.cpp reach.
use minbif.Prelude.{
  sym, ◌⊎◌, text_eq_refl, eq_of_text_eq, ◌≡◌, refl, ap, ◌∙◌, Bool, true, false, not, ◌&&◌, ◌||◌,
  List, [], ◌∷◌, ◌++◌, Text, codes, text_eq, any, arith, if◌then◌else◌, Bool-cases, inl, inr,
}
use minbif.Result.{Result, ok}
use minbif.Message.{Message, get_arg}
use minbif.Irc.{Server}
use minbif.Maps.{View, State, Im}
use minbif.Maps.Commands.{
  is_target, connect_loop, disconnect_loop, unknown_unless, m_connect, m_squit, tell,
}

-- A target means an account: it is "*", or the ID of the account, or its server name.
abbrev pub Means : Text → View → Type 0
Means t a = (t ≡ codes "*") ⊎ ((a.id ≡ t) ⊎ (a.servername ≡ t))

-- The accounts of a list that a target means, in the list's order, each where it stands there.
pub data Picks (t : Text) : List View → List View → Type 0 where
  ends : Picks t [] []
  takes :
      (a : View) (r picked : List View)
      → Means t a
      → Picks t r picked
      → Picks t (a ∷ r) (a ∷ picked)
  leaves :
      (a : View) (r picked : List View) → ¬ Means t a → Picks t r picked → Picks t (a ∷ r) picked

-- whether a list of accounts is empty
abbrev pub no_views : List View → Bool
no_views [] = true
no_views (a ∷ r) = false

text_eq_of : (s t : Text) → s ≡ t → text_eq s t ≡ true
text_eq_of s t e = ap (text_eq s) (sym e) ∙ text_eq_refl s

is_target-Means : (t : Text) (a : View) → is_target t a ≡ true → Means t a
unfolding is_target
is_target-Means t a h = elim (Bool-cases (text_eq t (codes "*"))) [
  | inl e ↦ inl (eq_of_text_eq t (codes "*") e)
  | inr e ↦ elim (Bool-cases (text_eq a.id t)) [
    | inl d ↦ inr (inl (eq_of_text_eq a.id t d))
    | inr d ↦ inr (inr (eq_of_text_eq a.servername t (ground (arith, e, d))))
  ]
]

Means-is_target : (t : Text) (a : View) → Means t a → is_target t a ≡ true
unfolding is_target
Means-is_target t a (inl e) = ground (arith, text_eq_of t (codes "*") e)
Means-is_target t a (inr (inl e)) = ground (arith, text_eq_of a.id t e)
Means-is_target t a (inr (inr e)) = ground (arith, text_eq_of a.servername t e)

targets : Text → List View → List View
targets t [] = []
targets t (a ∷ r) = let rest = targets t r in if is_target t a then a ∷ rest else rest

targets-Picks : (t : Text) (accounts : List View) → Picks t accounts (targets t accounts)
unfolding targets
targets-Picks t [] = ends
targets-Picks t (a ∷ r) = elim (Bool-cases (is_target t a)) [
  | inl e ↦ rw e (takes a r (targets t r) (is_target-Means t a e) (targets-Picks t r))
  | inr e ↦ rw e (leaves a r (targets t r) (λ m. cc (e, Means-is_target t a m)) (targets-Picks t r))
]

any-targets :
    (t : Text) (accounts : List View)
    → any (is_target t) accounts ≡ not (no_views (targets t accounts))
unfolding targets
any-targets t [] = refl
any-targets t (a ∷ r) = ground (arith, any-targets t r)

module _ {M : Type 0} (im : Im M) (v : Server) where
  -- the accounts are connected, one behind the other, and their status channels joined
  abbrev pub connect_all : List View → State M → State M
  connect_all [] s = s
  connect_all (a ∷ r) s = connect_all r (im.join_status_channel a (im.connect a s))

  abbrev pub disconnect_all : List View → State M → State M
  disconnect_all [] s = s
  disconnect_all (a ∷ r) s = disconnect_all r (im.disconnect a s)

  connect_loop-targets :
      (t : Text) (accounts : List View) (found : Bool) (s : State M)
      → connect_loop im v t accounts found s
        ≡ (found || any (is_target t) accounts, connect_all (targets t accounts) s)
  unfolding connect_loop targets
  connect_loop-targets t [] found s = ground arith
  connect_loop-targets t (a ∷ r) found s = elim (Bool-cases (is_target t a)) [
    | inl e ↦ rw e (
        connect_loop-targets t r true (im.join_status_channel a (im.connect a s))
        ∙ ap (λ b. (b, connect_all (targets t r) (im.join_status_channel a (im.connect a s))))
            (ground arith))
    | inr e ↦ rw e (connect_loop-targets t r found s)
  ]

  disconnect_loop-targets :
      (t : Text) (accounts : List View) (found : Bool) (s : State M)
      → disconnect_loop im v t accounts found s
        ≡ (found || any (is_target t) accounts, disconnect_all (targets t accounts) s)
  unfolding disconnect_loop targets
  disconnect_loop-targets t [] found s = ground arith
  disconnect_loop-targets t (a ∷ r) found s = elim (Bool-cases (is_target t a)) [
    | inl e ↦ rw e (
        disconnect_loop-targets t r true (im.disconnect a s)
        ∙ ap (λ b. (b, disconnect_all (targets t r) (im.disconnect a s))) (ground arith))
    | inr e ↦ rw e (disconnect_loop-targets t r found s)
  ]

  -- the user is told that an account is unknown, unless some account was picked or "*" was given
  abbrev pub told_unless : Text → List View → State M → Result (State M)
  told_unless t accounts s =
      if not (no_views accounts) || text_eq t (codes "*")
      then ok s
      else tell im v (codes "Error: Account " ++ (t ++ codes " is unknown")) s

  unknown_unless_lem :
      (t : Text) (accounts : List View) (s : State M)
      → unknown_unless im v (not (no_views accounts)) t s ≡ told_unless t accounts s
  unfolding unknown_unless
  unknown_unless_lem t accounts s = by_cases (not (no_views accounts)) (text_eq t (codes "*"))
    where
      by_cases :
          (a b : Bool)
          → (if not a && not b
              then tell im v (codes "Error: Account " ++ (t ++ codes " is unknown")) s
              else ok s)
            ≡ (if a || b
                then ok s
                else tell im v (codes "Error: Account " ++ (t ++ codes " is unknown")) s)
      by_cases true b = refl
      by_cases false true = refl
      by_cases false false = refl

  -- CONNECT with an argument connects each account that it means, which are all for "*" and those with
  -- that ID or server name else, in the order of the list, and joins its status channel, and SQUIT
  -- disconnects each; no other account is reached. Then the user is told that the account is unknown if
  -- none was meant and the argument is not "*".
  pub m_connect-targets :
      (m : Message) (t : Text) (s : State M)
      → get_arg 0 m ≡ ok t
      → (picked : List View) × Picks t (im.accounts_list s).0 picked
        × (m_connect im v m s ≡ told_unless t picked (connect_all picked (im.accounts_list s).1))
        × (m_squit im v m s ≡ told_unless t picked (disconnect_all picked (im.accounts_list s).1))
  unfolding m_connect m_squit
  m_connect-targets m t s h =
      let accounts = (im.accounts_list s).0 in
      let u = (im.accounts_list s).1 in
      let picked = targets t accounts in
      (
        picked,
        targets-Picks t accounts,
        rw h (
            ap (λ (p : Bool × State M). unknown_unless im v p.0 t p.1)
              (connect_loop-targets t accounts false u)
            ∙ ap (λ b. unknown_unless im v b t (connect_all picked u)) (any-targets t accounts)
            ∙ unknown_unless_lem t picked (connect_all picked u)),
        rw h (
            ap (λ (p : Bool × State M). unknown_unless im v p.0 t p.1)
              (disconnect_loop-targets t accounts false u)
            ∙ ap (λ b. unknown_unless im v b t (disconnect_all picked u)) (any-targets t accounts)
            ∙ unknown_unless_lem t picked (disconnect_all picked u)),
      )
