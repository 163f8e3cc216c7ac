-- ===== src/Irc/Registration.antt =====
-- Who gets registered: `sendWelcome` of src/irc/irc.cpp with `Auth` of src/im/auth.cpp.
use minbif.Prelude.{
  ◌≡◌, ◌⊎◌, subst, refl, Bool, true, false, not, ◌&&◌, ◌||◌, List, [], ◌∷◌, ◌++◌, Option, none,
  some, Text, codes, is_empty, arith, Bool-cases, Option-cases, inl, inr, text_eq, text_eq_iff,
}
use minbif.Result.{Result, Error, ok, err, ◌>>=◌}
use minbif.Bits.{Bits, bit}
use minbif.Message.{Message, add_arg}
use minbif.Auth.{Outcome, returns, raises, Mechanism, local, validate, generate}
use minbif.Auth.Login.{Outcome-cases, generate-local}
use minbif.Irc.{
  Server, Session, registered, send, has_flag, set_flag, add_args, reply, quit, ipc_send, motd_loop,
  m_motd, welcome, sign_up, send_welcome,
}

-- If the call returns, the session that it leaves has P.
data After (P : Session → Type 0) : Result Session → Type 0 where
  fine : {s : Session} → P s → After P (ok s)
  threw : {e : Error} → After P (err e)

After-ok : {P : Session → Type 0} {r : Result Session} (s : Session) → After P r → r ≡ ok s → P s
After-ok {P} s (fine {s = t} h) e = subst P (ground arith) h
After-ok s threw e = absurd (cc)

After-bind :
    {P : Session → Type 0} {r : Result Session} (f : Session → Result Session)
    → After P r
    → ((s : Session) → P s → After P (f s))
    → After P (r >>= f)
After-bind f (fine {s = t} h) k = k t h
After-bind f threw k = threw

-- What holds of the flags and the account of a session.
module _ (Q : Bits → Option Mechanism → Type 0) where
  P : Session → Type 0
  P s = Q s.flags s.im_auth

  After-message :
      (r : Result Message) (f : Message → Session)
      → ((m : Message) → P (f m))
      → After P (r >>= λ m. ok (f m))
  After-message (ok m) f h = fine (h m)
  After-message (err e) f h = threw

  P-send : (m : Message) (s : Session) → P s → P (send m s)
  unfolding P send
  P-send m s h = elim (Bool-cases s.connected) [ inl e ↦ rw e h | inr e ↦ rw e h ]

  After-reply :
      (v : Server) (c : Text) (args : List Text) (s : Session) → P s → After P (reply v c args s)
  unfolding reply
  After-reply v c args s h = After-message (add_args args _) (λ m. send m s) (λ m. P-send m s h)

  After-quit : (reason : Text) (s : Session) → P s → After P (quit reason s)
  unfolding quit P
  After-quit reason s h =
      After-message (add_arg _ _) (λ m. record (send m s) { connected = false; killed = true })
        (λ m. P-send m s h)

  After-ipc : (c : Text) (args : List Text) (s : Session) → P s → After P (ipc_send c args s)
  unfolding ipc_send P
  After-ipc c args s h =
      After-message (add_args args _) (λ m. record s { ipc = s.ipc ++ m ∷ [] }) (λ m. h)

  After-motd_loop : (v : Server) (ls : List Text) (s : Session) → P s → After P (motd_loop v ls s)
  unfolding motd_loop
  After-motd_loop v [] s h = fine h
  After-motd_loop v (l ∷ ls) s h =
      After-bind (motd_loop v ls) (After-reply v _ _ s h) (λ t k. After-motd_loop v ls t k)

  After-motd : (v : Server) (s : Session) → P s → After P (m_motd v s)
  unfolding m_motd
  After-motd v s h =
      After-bind _ (After-reply v _ _ s h)
        λ s₁ h₁. After-bind _ (After-motd_loop v v.motd s₁ h₁) λ s₂ h₂. After-reply v _ _ s₂ h₂

  After-restore :
      (v : Server) (s : Session) (o : Outcome Bool)
      → P s
      → After P (elim o as (λ x. Result Session) [
        | raises e ↦ quit (codes "Unable to initialize IM: " ++ e) s
        | returns b ↦ elim b as (λ x. Result Session) [
          | false ↦ ok s
          | true ↦
              reply v
                (codes "306")
                (codes "You have been marked as being away" ∷ [])
                (record s { user = record s.user { away = codes "Away" } })
        ]
      ])
  After-restore v s (raises e) h = After-quit _ s h
  After-restore v s (returns false) h = fine h
  After-restore v s (returns true) h =
      After-reply v _ _ (record s { user = record s.user { away = codes "Away" } }) (unfold P in h)

  After-welcome :
      (v : Server) (k : Mechanism) (s : Session)
      → P (set_flag registered (record s { im_auth = some k }))
      → After P (welcome v k s)
  unfolding welcome
  After-welcome v k s h = After-bind _ (After-ipc _ _ _ h) λ s₁ h₁.
      After-bind _ (After-reply v _ _ s₁ h₁) λ s₂ h₂.
        After-bind _ (After-reply v _ _ s₂ h₂) λ s₃ h₃.
          After-bind _ (After-reply v _ _ s₃ h₃) λ s₄ h₄.
            After-bind _ (After-reply v _ _ s₄ h₄) λ s₅ h₅.
              After-bind _ (After-reply v _ _ s₅ h₅) λ s₆ h₆.
                After-bind _ (After-motd v s₆ h₆)
                  λ s₇ h₇. After-restore v s₇ (v.restore s₇.user.nickname) h₇

-- The user may be registered with this account.
pub record IsEntitled (v : Server) (s : Session) (k : Mechanism) : Type 0 where
  pub nick_given : text_eq s.user.nickname (codes "*") ≡ false
  pub user_given : is_empty s.user.identname ≡ false
  pub account :
      (validate v.world v.mechanisms s.user.nickname s.password ≡ returns (some k))
      ⊎ ((validate v.world v.mechanisms s.user.nickname s.password ≡ returns none)
          × (k ≡ local)
          × (v.world.im_exists s.user.nickname ≡ false)
          × (is_empty s.password ≡ false)
          × ((v.global_passwd ≡ codes " ") ⊎ (s.password ≡ v.global_passwd)))

module _ (v : Server) (s : Session) (fresh : has_flag registered s ≡ false) where
  -- a registered session has an account to which its user is entitled
  Entitled : Bits → Option Mechanism → Type 0
  Entitled f a = bit f registered ≡ true → (k : Mechanism) × (a ≡ some k) × IsEntitled v s k

  still_fresh : P Entitled s
  unfolding P Entitled has_flag
  still_fresh h = absurd (cc)

  After-refused : (reason : Text) → After (P Entitled) (quit reason s)
  After-refused reason = After-quit Entitled reason s still_fresh

  -- the session when no mechanism has taken the user
  cleared : Session
  cleared = record s { im_auth = none }

  After-denied : (reason : Text) → After (P Entitled) (quit reason cleared)
  unfolding P cleared Entitled has_flag
  After-denied reason = After-quit Entitled reason cleared (λ h. absurd (cc))

  After-Entitled : (k : Mechanism) → IsEntitled v s k → After (P Entitled) (welcome v k s)
  After-Entitled k t =
      After-welcome Entitled v k s (unfold P Entitled set_flag in λ _. (k, refl, t))

  After-made : (k : Mechanism) → IsEntitled v s k → After (P Entitled) (welcome v k cleared)
  After-made k t =
      After-welcome Entitled v k cleared (unfold P Entitled set_flag cleared in λ _. (k, refl, t))

  After-sign_up :
      text_eq s.user.nickname (codes "*") ≡ false
      → is_empty s.user.identname ≡ false
      → validate v.world v.mechanisms s.user.nickname s.password ≡ returns none
      → After (P Entitled) (sign_up v cleared)
  unfolding sign_up P cleared
  After-sign_up n u w = elim (Bool-cases (v.world.im_exists s.user.nickname)) [
    | inl e ↦ rw (sign_up, cleared, e) (After-denied _)
    | inr e ↦
        elim (Bool-cases
          (not (text_eq v.global_passwd (codes " ")) && not (text_eq s.password v.global_passwd))) [
            | inl g ↦ rw (sign_up, cleared, e, g) (After-denied _)
            | inr g ↦
                elim (Outcome-cases (generate v.world v.mechanisms s.user.nickname s.password)) [
                  | inr (x, o) ↦ rw (sign_up, cleared, e, g, o) (After-denied _)
                  | inl (r, o) ↦
                      let (made, none_yet, given) =
                        generate-local v.world s.user.nickname s.password v.mechanisms r o in
                      rw (sign_up, cleared, e, g, o, made)
                        (After-made local (record {
                          nick_given = n;
                          user_given = u;
                          account = inr (w, refl, e, given, open_server g);
                        }))
                ]
          ]
  ]
    where
      open_server :
          (not (text_eq v.global_passwd (codes " ")) && not (text_eq s.password v.global_passwd))
            ≡ false
          → (v.global_passwd ≡ codes " ") ⊎ (s.password ≡ v.global_passwd)
      open_server g = elim (Bool-cases (text_eq v.global_passwd (codes " "))) [
        | inl t ↦ inl ((text_eq_iff _ _).0 t)
        | inr t ↦ inr ((text_eq_iff _ _).0 (ground arith))
      ]

  After-send_welcome : After (P Entitled) (send_welcome v s)
  unfolding send_welcome P cleared
  After-send_welcome =
      elim (Bool-cases (text_eq s.user.nickname (codes "*") || is_empty s.user.identname)) [
        | inl e ↦ rw (send_welcome, fresh, e) (fine still_fresh)
        | inr e ↦
            let n : text_eq s.user.nickname (codes "*") ≡ false = ground arith in
            let u : is_empty s.user.identname ≡ false = ground arith in
            elim (Outcome-cases (validate v.world v.mechanisms s.user.nickname s.password)) [
              | inr (x, o) ↦ rw (send_welcome, fresh, e, o) (After-refused _)
              | inl (r, o) ↦ elim (Option-cases r) [
                | inl q ↦ let w = rw q at o in rw (send_welcome, fresh, e, w) (After-sign_up n u w)
                | inr (k, q) ↦
                    let w = rw q at o in
                    rw (send_welcome, fresh, e, w)
                      (After-Entitled k
                        (record { nick_given = n; user_given = u; account = inl w }))
              ]
            ]
      ]

  -- A session that `sendWelcome` registers has the account that `Auth::validate` found, or one that
  -- `Auth::generate` made with the local mechanism for a user who had none, gave a password, and
  -- knows the server's password if there is one; and it had a nickname and an identname.
  pub send_welcome-IsEntitled :
      (s' : Session)
      → send_welcome v s ≡ ok s'
      → has_flag registered s' ≡ true
      → (k : Mechanism) × (s'.im_auth ≡ some k) × IsEntitled v s k
  unfolding P Entitled has_flag
  send_welcome-IsEntitled s' e h = After-ok s' After-send_welcome e h
