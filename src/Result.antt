-- ===== src/Result.antt =====
-- The ways in which a call of the program can fail to return.
pub data Error : Type 0 where
  -- throw MalformedMessage()
  malformed : Error
  -- a failed assert(), which ends the process
  assertion : Error
  -- undefined behaviour of C++, such as an index out of a string's range
  undefined : Error
  -- throw std::out_of_range, which nothing catches
  out_of_range : Error
  -- the fuel of a loop ran out
  stuck : Error

pub data Result {ℓ} (A : Type ℓ) : Type ℓ where
  ok : A → Result A
  err : Error → Result A

infixl 5 ◌>>=◌
abbrev pub ◌>>=◌ {ℓ κ} : {A : Type ℓ} {B : Type κ} → Result A → (A → Result B) → Result B
ok a >>= f = f a
err e >>= f = err e
