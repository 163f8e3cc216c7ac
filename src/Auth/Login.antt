-- ===== src/Auth/Login.antt =====
-- What `Auth::validate` and `Auth::generate` of src/im/auth.cpp accept.
use minbif.Prelude.{
  ◌≡◌, ◌⊎◌, inl, inr, sym, ◌∙◌, refl, Bool, false, ◌&&◌, List, [], ◌∷◌, ◌++◌, Option, none, some,
  Text, codes, is_empty, text_eq, if◌then◌else◌, arith,
}
use minbif.Auth.{
  Outcome, returns, raises, Mechanism, connection, pam, local, World, Creation, created, unable,
  failed, exists, authenticate, create, validate_loop, validate, generate_loop, generate,
}

-- The mechanism knows the user and takes the password.
unfoldable pub accepts : World → Text → Text → Mechanism → Bool
accepts w user password connection = w.im_exists user && text_eq w.client_username user
accepts w user password pam = w.check_password user password
accepts w user password local = w.im_exists user && text_eq (w.im_password user) password

unfoldable pub first_accepting : World → Text → Text → List Mechanism → Option Mechanism
first_accepting w user password [] = none
first_accepting w user password (m ∷ ms) =
    if accepts w user password m then some m else first_accepting w user password ms

pub Outcome-cases {ℓ} :
    {A : Type ℓ} (o : Outcome A) → ((a : A) × (o ≡ returns a)) ⊎ ((e : Text) × (o ≡ raises e))
Outcome-cases (returns a) = inl (a, refl)
Outcome-cases (raises e) = inr (e, refl)

Creation-cases :
    (c : Creation)
    → ((b : Bool) × (c ≡ created b))
      ⊎ (((x : Text) × (c ≡ unable x)) ⊎ ((x : Text) × (c ≡ failed x)))
Creation-cases (created b) = inl (b, refl)
Creation-cases (unable x) = inr (inl (x, refl))
Creation-cases (failed x) = inr (inr (x, refl))

module _ (w : World) (user password : Text) where
  validate_taken :
      (k : Mechanism) (ms : List Mechanism)
      → validate_loop w user password (some k) ms ≡ returns (some k)
  unfolding validate_loop
  validate_taken k [] = refl
  validate_taken k (m ∷ ms) = validate_taken k ms

  authenticate_lem :
      (m : Mechanism)
      → w.im_fails user ≡ none
      → (if exists w m user then authenticate w m user password else returns false)
        ≡ returns (accepts w user password m)
  unfolding authenticate exists accepts
  authenticate_lem connection h = ground arith
  authenticate_lem pam h = ground arith
  authenticate_lem local h = ground arith

  validate_loop_lem :
      (ms : List Mechanism)
      → w.im_fails user ≡ none
      → validate_loop w user password none ms ≡ returns (first_accepting w user password ms)
  unfolding validate_loop first_accepting
  validate_loop_lem [] h = refl
  validate_loop_lem (m ∷ ms) h =
      ground (arith, authenticate_lem m h, validate_taken m ms, validate_loop_lem ms h)

  -- When the instant messaging part starts, `validate` with at least one mechanism gives the first
  -- that takes the user: by the name of the connection for a user with an account, by PAM, or by
  -- the stored password of an account.
  pub validate-first_accepting :
      (m : Mechanism) (ms : List Mechanism)
      → w.im_fails user ≡ none
      → validate w (m ∷ ms) user password ≡ returns (first_accepting w user password (m ∷ ms))
  unfolding validate
  validate-first_accepting m ms h = validate_loop_lem (m ∷ ms) h

  create-created :
      (m : Mechanism) (b : Bool)
      → create w m user password ≡ created b
      → (m ≡ local) × (w.im_exists user ≡ false) × (is_empty password ≡ false)
  unfolding create
  create-created connection b h = ground arith
  create-created pam b h = ground arith
  create-created local b h = (refl, ground arith, ground arith)

  create-unable :
      (m : Mechanism) (e : Text) → create w m user password ≡ unable e → is_empty e ≡ false
  unfolding create
  create-unable connection e h = ground arith
  create-unable pam e h = ground arith
  create-unable local e h = ground arith

  generate_taken :
      (k : Mechanism) (e : Text) (ms : List Mechanism)
      → generate_loop w user password (some k) e ms ≡ returns (some k, e)
  unfolding generate_loop
  generate_taken k e [] = refl
  generate_taken k e (m ∷ ms) = generate_taken k e ms

  -- What the loop returns: an account that the local mechanism made, or the reason of a refusal.
  Made : Option Mechanism → Text → Type 0
  Made (some k) e = (k ≡ local) × (w.im_exists user ≡ false) × (is_empty password ≡ false)
  Made none e = is_empty e ≡ false

  round_created :
      (m : Mechanism) (b : Bool) (ms : List Mechanism) (e : Text)
      → create w m user password ≡ created b
      → generate_loop w user password none e (m ∷ ms) ≡ returns (some m, e)
  unfolding generate_loop
  round_created m b ms e h = rw (h, generate_loop) (generate_taken m e ms)

  round_unable :
      (m : Mechanism) (ms : List Mechanism) (e x : Text)
      → create w m user password ≡ unable x
      → generate_loop w user password none e (m ∷ ms) ≡ generate_loop w user password none x ms
  unfolding generate_loop
  round_unable m ms e x h = rw (h, generate_loop)

  round_failed :
      (m : Mechanism) (ms : List Mechanism) (e x : Text)
      → create w m user password ≡ failed x
      → generate_loop w user password none e (m ∷ ms) ≡ raises x
  unfolding generate_loop
  round_failed m ms e x h = rw (h, generate_loop)

  Made-last :
      (x : Text) (r : Option Mechanism) (e' : Text)
      → is_empty x ≡ false
      → generate_loop w user password none x [] ≡ returns (r, e')
      → Made r e'
  unfolding generate_loop Made
  Made-last x none e' n h = ground arith
  Made-last x (some k) e' n h = cc

  Made-created :
      (m : Mechanism) (b : Bool) (e : Text) (r : Option Mechanism) (e' : Text)
      → create w m user password ≡ created b
      → ◌≡◌ {A = Outcome (Option Mechanism × Text)} (returns (some m, e)) (returns (r, e'))
      → Made r e'
  unfolding Made
  Made-created m b e none e' k h = cc
  Made-created m b e (some j) e' k h = ground (arith, create-created m b k)

  generate_loop-Made :
      (m : Mechanism) (ms : List Mechanism) (e : Text) (r : Option Mechanism) (e' : Text)
      → generate_loop w user password none e (m ∷ ms) ≡ returns (r, e')
      → Made r e'
  generate_loop-Made m [] e r e' h = elim (Creation-cases (create w m user password)) [
    | inl (b, k) ↦ Made-created m b e r e' k (sym (round_created m b [] e k) ∙ h)
    | inr (inl (x, k)) ↦ Made-last x r e' (create-unable m x k) (sym (round_unable m [] e x k) ∙ h)
    | inr (inr (x, k)) ↦ absurd (cc (round_failed m [] e x k))
  ]
  generate_loop-Made m (m' ∷ ms) e r e' h = elim (Creation-cases (create w m user password)) [
    | inl (b, k) ↦ Made-created m b e r e' k (sym (round_created m b (m' ∷ ms) e k) ∙ h)
    | inr (inl (x, k)) ↦ generate_loop-Made m' ms x r e' (sym (round_unable m (m' ∷ ms) e x k) ∙ h)
    | inr (inr (x, k)) ↦ absurd (cc (round_failed m (m' ∷ ms) e x k))
  ]

  Made-generate :
      (r s : Option Mechanism) (e : Text)
      → Made r e
      → (elim r as (λ o. Outcome (Option Mechanism)) [
        | some k ↦ returns (some k)
        | none ↦
            if is_empty e then returns none else raises (codes "Unable to create account: " ++ e)
      ])
        ≡ returns s
      → (s ≡ some local) × (w.im_exists user ≡ false) × (is_empty password ≡ false)
  unfolding Made
  Made-generate none s e m h = absurd (ground arith)
  Made-generate (some k) s e m h = (ground arith, m.1, m.2)

  -- Where `generate` returns, it has made an account, never NULL, with the local mechanism and no
  -- other, for a user who had none and who gave a password.
  pub generate-local :
      (ms : List Mechanism) (r : Option Mechanism)
      → generate w ms user password ≡ returns r
      → (r ≡ some local) × (w.im_exists user ≡ false) × (is_empty password ≡ false)
  unfolding generate
  generate-local [] r h = absurd (cc)
  generate-local (m ∷ ms) r h =
      elim (Outcome-cases (generate_loop w user password none [] (m ∷ ms))) [
        | inl ((k, e), q) ↦ Made-generate k r e (generate_loop-Made m ms [] k e q) (rw q at h)
        | inr (x, q) ↦ absurd (ground arith)
      ]
