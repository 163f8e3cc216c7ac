-- ===== src/Auth.antt =====
-- src/im/auth.cpp and the mechanisms auth_connection.cpp, auth_pam.cpp and auth_local.cpp: who may
-- log in, and who may make an account. Libpam, the TLS layer, the file system and the constructor
-- of `IM` are asked through a record.
pub mod Login
use minbif.Prelude.{
  ℕ, ◌≡◌, Bool, true, false, not, ◌&&◌, ◌||◌, List, [], ◌∷◌, ◌++◌, Option, none, some, Text, codes,
  is_empty, text_eq, if◌then◌else◌, has, ltb, length,
}

-- The result of a call that may throw IMError with its reason.
pub data Outcome {ℓ} (A : Type ℓ) : Type ℓ where
  returns : A → Outcome A
  raises : Text → Outcome A

infixl 5 ◌>>=◌
abbrev pub ◌>>=◌ {ℓ κ} : {A : Type ℓ} {B : Type κ} → Outcome A → (A → Outcome B) → Outcome B
returns a >>= f = f a
raises e >>= f = raises e

pub data Mechanism : Type 0 where
  connection pam local : Mechanism

pub record World : Type 0 where
  -- SockWrapper::GetClientUsername
  pub client_username : Text
  -- IM::exists
  pub im_exists : Text → Bool
  -- the reason for which the constructor of IM throws
  pub im_fails : Text → Option Text
  -- IM::getPassword of a user
  pub im_password : Text → Text
  -- AuthPAM::checkPassword
  pub check_password : Text → Text → Bool
  -- AuthPAM::setPassword: whether libpam changes the password, or the reason for which it throws
  pub change_password : Text → Text → Outcome Bool

-- new im::IM
unfoldable pub new_im : World → Text → Outcome (Unit {0})
new_im w user = elim (w.im_fails user) [ none ↦ returns tt | some e ↦ raises e ]

unfoldable pub exists : World → Mechanism → Text → Bool
exists w connection user = true
exists w pam user = true
exists w local user = w.im_exists user

unfoldable pub authenticate : World → Mechanism → Text → Text → Outcome Bool
unfolding new_im
authenticate w connection user password =
    if not (w.im_exists user)
    then returns false
    else if text_eq w.client_username user
    then (new_im w user >>= λ _. returns true)
    else returns false
authenticate w pam user password =
    if w.check_password user password then (new_im w user >>= λ _. returns true) else returns false
authenticate w local user password =
    if not (w.im_exists user)
    then returns false
    else (new_im w user >>= λ _. returns (text_eq (w.im_password user) password))

-- setPassword of a mechanism: whether the password is set. The notice to a user whose password the local
-- mechanism refuses is left out.
unfoldable pub set_password : World → Mechanism → Text → Text → Outcome Bool
set_password w connection user password = returns false
set_password w pam user password = w.change_password user password
set_password w local user password =
    if has b' ' password || ltb (length password) 8 then returns false else returns true

-- What create comes to: an account, whose password is set or is not, UnableToCreate, or IMError.
pub data Creation : Type 0 where
  created : Bool → Creation
  unable : Text → Creation
  failed : Text → Creation

-- Auth::create
unfoldable pub base_create : World → Mechanism → Text → Text → Creation
unfolding exists new_im set_password
base_create w k user password =
    if exists w k user
    then unable (codes "Already exists.")
    else elim (new_im w user >>= λ _. set_password w k user password) [
      | returns kept ↦ created kept
      | raises e ↦ failed e
    ]

unfoldable pub create : World → Mechanism → Text → Text → Creation
unfolding base_create
create w connection user password =
    if not (text_eq w.client_username user)
    then failed (codes "No connection authentication")
    else base_create w connection user password
create w pam user password =
    if not (w.check_password user password)
    then failed (codes "PAM: Incorrect login/password")
    else base_create w pam user password
create w local user password =
    if is_empty password
    then unable (codes "Please set a password for this new account")
    else base_create w local user password

-- the loop of Auth::validate, with mech_ok
unfoldable pub validate_loop :
    World → Text → Text → Option Mechanism → List Mechanism → Outcome (Option Mechanism)
validate_loop w user password mech_ok [] = returns mech_ok
validate_loop w user password (some k) (m ∷ ms) = validate_loop w user password (some k) ms
validate_loop w user password none (m ∷ ms) =
    let passed = validate_loop w user password none ms in
    let taken = validate_loop w user password (some m) ms in
    if exists w m user
    then (authenticate w m user password >>= λ good. if good then taken else passed)
    else passed

unfoldable pub validate : World → List Mechanism → Text → Text → Outcome (Option Mechanism)
unfolding validate_loop
validate w [] user password = raises (codes "Login disabled (please consult your administrator)")
validate w (m ∷ ms) user password = validate_loop w user password none (m ∷ ms)

-- the loop of Auth::generate, with mech_ok and err
unfoldable pub generate_loop :
    World
    → Text
    → Text
    → Option Mechanism
    → Text
    → List Mechanism
    → Outcome (Option Mechanism × Text)
generate_loop w user password mech_ok e [] = returns (mech_ok, e)
generate_loop w user password (some k) e (m ∷ ms) = generate_loop w user password (some k) e ms
generate_loop w user password none e (m ∷ ms) = elim (create w m user password) [
  | created kept ↦ generate_loop w user password (some m) e ms
  | unable reason ↦ generate_loop w user password none reason ms
  | failed reason ↦ raises reason
]

unfoldable pub generate : World → List Mechanism → Text → Text → Outcome (Option Mechanism)
unfolding generate_loop
generate w [] user password = raises (codes "Private server: account creation disabled")
generate w (m ∷ ms) user password = do
  (mech_ok, e) ← generate_loop w user password none [] (m ∷ ms)
  elim mech_ok [
    | some k ↦ returns (some k)
    | none ↦ if is_empty e then returns none else raises (codes "Unable to create account: " ++ e)
  ]
