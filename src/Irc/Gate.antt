-- ===== src/Irc/Gate.antt =====
-- Which handlers `readIO` of src/irc/irc.cpp can reach before registration.
use minbif.Prelude.{
  ℕ, suc, ◌+◌, ◌≡◌, refl, Bool, true, false, ◌||◌, List, [], ◌∷◌, none, some, Text, all, ◌==◌,
  if◌then◌else◌, arith, Bool-cases, Option-cases, inl, inr, text_eq,
}
use minbif.Message.{Message}
use minbif.Irc.{Server, Session, registered, oper, has_flag}
use minbif.Irc.Commands.{
  Handler, nick, user, pass, quits, Command, commands, find_command, Handlers, lacks, dispatch,
}

-- NICK, USER, PASS and QUIT
abbrev pub is_open : Handler → Bool
is_open nick = true
is_open user = true
is_open pass = true
is_open quits = true
is_open _ = false

-- A row asks for no flag only if its handler is open, and for no flag but two.
gated : Command → Bool
gated r = elim r.flags [ none ↦ is_open r.func | some k ↦ k == registered || k == oper ]

commands-gated : all gated commands ≡ true
unfolding gated commands
commands-gated = refl

find_gated :
    (c : Text) (i j : ℕ) (r : Command) (rs : List Command)
    → all gated rs ≡ true
    → find_command c i rs ≡ some (j, r)
    → gated r ≡ true
unfolding find_command
find_gated c i j r [] a h = cc
find_gated c i j r (q ∷ rs) a h = elim (Bool-cases (text_eq q.cmd c)) [
  | inl e ↦ let same : q ≡ r = ground arith in rw (← same) (ground arith)
  | inr e ↦ find_gated c (suc i) j r rs (ground arith) (rw e at h)
]

-- a row that is not refused before registration
unlocked :
    (r : Command) (s : Session)
    → gated r ≡ true
    → has_flag registered s ≡ false
    → has_flag oper s ≡ false
    → lacks r.flags s ≡ false
    → is_open r.func ≡ true
unfolding gated lacks
unlocked r s g u o l = ground arith

-- Before registration, and with no operator flag, what a message does depends on no handler but
-- those of NICK, USER, PASS and QUIT: whatever the others do, they are not run.
pub dispatch-is_open :
    (v : Server) (run run' : Handlers) (m : Message) (s : Session)
    → ((h : Handler) (m' : Message) (s' : Session) → is_open h ≡ true → run h m' s' ≡ run' h m' s')
    → has_flag registered s ≡ false
    → has_flag oper s ≡ false
    → dispatch v run m s ≡ dispatch v run' m s
unfolding dispatch
dispatch-is_open v run run' m s same u o = elim (Option-cases (find_command m.cmd 0 commands)) [
  | inl e ↦ rw (e, dispatch)
  | inr ((i, r), e) ↦
      let g = find_gated m.cmd 0 i r commands commands-gated e in
      elim (Bool-cases (lacks r.flags s)) [
        | inl l ↦ rw (e, dispatch) (rw l)
        | inr l ↦
            let counted = record s {
              counts = λ j. if i == j then s.counts j + 1 else s.counts j;
            } in
            rw (e, dispatch) (rw (l, same r.func m counted (unlocked r s g u o l)))
      ]
]
