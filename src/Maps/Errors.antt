-- ===== src/Maps/Errors.antt =====
-- What refused map_commands of MAP leave behind, in src/irc/cmds_accounts.cpp.
use minbif.Prelude.{
  [], ◌∷◌, drop, get_elem?, ◌≡◌, refl, ap, sym, subst, ◌∙◌, Bool, true, false, List, ◌++◌, map,
  Option, none, some, Text, codes, length, ltb, if◌then◌else◌,
}
use minbif.Result.{Result, ok, ◌>>=◌}
use minbif.Message.{Message, get_arg}
use minbif.Message.Quotes.{rebuild_with_quotes}
use minbif.Irc.{Server}
use minbif.Irc.Notices.{notice-words, told, line_message}
use minbif.Token.Words.{words}
use minbif.Accounts.{Protocol}
use minbif.Options.{Options}
use minbif.Maps.{State, Ends, Im, AddReading, account_of, rejected, find_option}
use minbif.Maps.Arguments.{
  is_left, first_decoded, IsRead, is_read, is_rejected, read_arguments-IsRead,
}
use minbif.Maps.Commands.{tell, stop_with, end_add, add_with, m_map_registeradd}

second_of :
    (args : List Text)
    → ltb (length args) 2 ≡ false
    → (name : Text) × (get_elem? args 1 ≡ some name)
second_of [] h = cc
second_of (a ∷ []) h = cc
second_of (a ∷ b ∷ args) h = (b, refl)

second_arg : (m : Message) → ltb (length m.args) 2 ≡ false → (name : Text) × (get_arg 1 m ≡ ok name)
unfolding get_arg
second_arg m h = let (name, e) = second_of m.args h in (name, rw (get_arg, e) refl)

module _ {M : Type 0} (im : Im M) (v : Server) where
  -- a state in which the session was told a text
  abbrev pub after : Text → State M → State M
  after text s = record s {
    session =
        told (map (line_message v (codes "NOTICE") s.session) (words (codes "\n\r") text))
          s.session;
  }

  pub tell_lem : (text : Text) (s : State M) → tell im v text s ≡ ok (after text s)
  unfolding tell
  tell_lem text s =
      ap (λ r. r >>= λ n. ok (record s { session = n })) (notice-words v text s.session)

  pub stop_with_lem : (text : Text) (s : State M) → stop_with im v text s ≡ ok (none, after text s)
  unfolding stop_with
  stop_with_lem text s = ap (λ r. r >>= λ t. ok (none, t)) (tell_lem text s)

  -- a state in which the session was told texts
  abbrev pub after_all : List Text → State M → State M
  after_all [] s = s
  after_all (x ∷ xs) s = after_all xs (after x s)

  -- The ends of `map add` for a message and an option, in a state: false, when the user is told some
  -- texts in notices and nothing else changes; or what a call of addAccount in that state comes to, for
  -- the protocol that the second argument names, the first of the other arguments that is some text when
  -- it is decoded, and options in which the option is the one that the protocol has.
  pub data Ended (registers : Bool) (m : Message) (k : Text) (s : State M) : Ends M → Type 0 where
    refuses : (x : Text) (xs : List Text) → Ended registers m k s (ok (none, after_all (x ∷ xs) s))
    adds :
        (name : Text) (p : Protocol) (u : Text) (o : Options)
        → get_arg 1 m ≡ ok name
        → im.get_protocol name s ≡ some p
        → u ≡ first_decoded im.url_decode (drop 2 m.args)
        → find_option k o ≡ find_option k (im.protocol_options p s)
        → Ended registers m k s (end_add im v (im.add_account p u o registers s))

  module _ (registers : Bool) (m : Message) (k : Text) (s : State M) where
    stop_with-Ended : (text : Text) → Ended registers m k s (stop_with im v text s)
    stop_with-Ended text = rw (stop_with_lem text s) (refuses text [])

    if-Ended :
        (b : Bool) {x y : Ends M}
        → (b ≡ true → Ended registers m k s x)
        → (b ≡ false → Ended registers m k s y)
        → Ended registers m k s (if b then x else y)
    if-Ended true l r = l refl
    if-Ended false l r = r refl

    reading-Ended :
        (name : Text) (p : Protocol) (r : AddReading)
        → get_arg 1 m ≡ ok name
        → im.get_protocol name s ≡ some p
        → IsRead im.url_decode im.less k [] (im.protocol_options p s) (drop 2 m.args) r
        → Ended registers m k s (elim r [
          | rejected e ↦ stop_with im v e s
          | account_of u o ↦ end_add im v (im.add_account p u o registers s)
        ])
    reading-Ended name p _ a e (is_read u o g h) = adds name p u o a e g h
    reading-Ended name p _ a e (is_rejected g) = stop_with-Ended g

    add_with-Ended :
        (name : Text) (p : Protocol)
        → is_left k (drop 2 m.args) ≡ true
        → get_arg 1 m ≡ ok name
        → im.get_protocol name s ≡ some p
        → Ended registers m k s (add_with im v registers p m.args s)
    unfolding add_with
    add_with-Ended name p h a e =
        if-Ended (ltb (length m.args) 3) (λ _. stop_with-Ended _)
          λ _. reading-Ended name p _ a e (
            read_arguments-IsRead im.url_decode im.less k [] (im.protocol_options p s)
              (drop 2 m.args) h)

    protocol-Ended :
        (name : Text) (o : Option Protocol)
        → is_left k (drop 2 m.args) ≡ true
        → get_arg 1 m ≡ ok name
        → im.get_protocol name s ≡ o
        → Ended registers m k s (elim o [
          | none ↦
              stop_with im v
                (codes "Error: Protocol "
                  ++ (name ++ codes " is unknown. Try '/STATS p' to list protocols."))
                s
          | some p ↦ add_with im v registers p m.args s
        ])
    protocol-Ended name none h a e = stop_with-Ended _
    protocol-Ended name (some p) h a e = add_with-Ended name p h a e

    tell_first :
        (text : Text) (t : State M) (f : State M → Ends M)
        → (tell im v text t >>= f) ≡ f (after text t)
    tell_first text t f = ap (λ r. r >>= f) (tell_lem text t)

    usage-Ended :
        (a b c : Text)
        → Ended registers m k s (tell im v a s >>= λ t. tell im v b t >>= λ t. stop_with im v c t)
    usage-Ended a b c =
        let lines =
          tell_first a s (λ t. tell im v b t >>= λ t. stop_with im v c t)
          ∙ tell_first b (after a s) (λ t. stop_with im v c t)
          ∙ stop_with_lem c (after b (after a s)) in
        subst (Ended registers m k s) (sym lines) (refuses a (b ∷ c ∷ []))

    named-Ended :
        (r : Result Text) (f : Text → Ends M)
        → ((name : Text) × (r ≡ ok name))
        → ((name : Text) → r ≡ ok name → Ended registers m k s (f name))
        → Ended registers m k s (r >>= f)
    named-Ended r f (name, e) h = subst (λ x. Ended registers m k s (x >>= f)) (sym e) (h name e)

  -- When the message can be rebuilt, `map add` and `map register` return. They are refused, the user is
  -- told of it in notices and nothing else changes, or they end as a call of addAccount in the state they
  -- began in says: with the protocol that the second argument names, with the first of the other
  -- arguments that is some text when it is decoded for the username, and with every option as the
  -- protocol has it that is not named behind "-" or "-!" in an argument and is neither the password nor
  -- the status channel.
  pub m_map_registeradd-Ended :
      (registers : Bool) (m n : Message) (k : Text) (s : State M)
      → rebuild_with_quotes m ≡ ok n
      → is_left k (drop 2 n.args) ≡ true
      → Ended registers n k s (m_map_registeradd im v registers m s)
  unfolding m_map_registeradd
  m_map_registeradd-Ended registers m n k s e h = rw e (
      if-Ended registers n k s (ltb (length n.args) 2) (λ _. usage-Ended registers n k s _ _ _)
        λ l.
          named-Ended registers n k s (get_arg 1 n) _ (second_arg n l)
            λ name a. protocol-Ended registers n k s name (im.get_protocol name s) h a refl)
