-- ===== src/Bits.antt =====
-- An `int` used as a set of flags: its bits, the lowest first, those beyond the list being 0.
-- A flag is the position of its bit.
use minbif.Prelude.{
  ℕ, zero, suc, ◌≡◌, refl, Bool, true, false, not, ◌&&◌, ◌||◌, List, [], ◌∷◌, arith, ◌==◌,
}

abbrev pub Bits : Type 0
Bits = List Bool

abbrev pub bit : Bits → ℕ → Bool
bit [] i = false
bit (b ∷ bs) zero = b
bit (b ∷ bs) (suc i) = bit bs i

-- 1 << k
unfoldable pub single : ℕ → Bits
single zero = true ∷ []
single (suc k) = false ∷ single k

-- a | b
unfoldable pub bits_or : Bits → Bits → Bits
bits_or [] bs = bs
bits_or (a ∷ r) [] = a ∷ r
bits_or (a ∷ r) (b ∷ bs) = (a || b) ∷ bits_or r bs

-- a & ~b
unfoldable pub bits_minus : Bits → Bits → Bits
bits_minus [] bs = []
bits_minus (a ∷ r) [] = a ∷ r
bits_minus (a ∷ r) (b ∷ bs) = (a && not b) ∷ bits_minus r bs

-- !a
unfoldable pub is_zero : Bits → Bool
is_zero [] = true
is_zero (a ∷ r) = not a && is_zero r

pub bit-single : (k i : ℕ) → bit (single k) i ≡ (k == i)
unfolding single
bit-single zero zero = refl
bit-single zero (suc i) = ground arith
bit-single (suc k) zero = ground arith
bit-single (suc k) (suc i) = ground (arith, bit-single k i)

pub bit-or : (a b : Bits) (i : ℕ) → bit (bits_or a b) i ≡ (bit a i || bit b i)
unfolding bits_or
bit-or [] b i = refl
bit-or (x ∷ a) [] i = ground arith
bit-or (x ∷ a) (y ∷ b) zero = refl
bit-or (x ∷ a) (y ∷ b) (suc i) = bit-or a b i

pub bit-minus : (a b : Bits) (i : ℕ) → bit (bits_minus a b) i ≡ (bit a i && not (bit b i))
unfolding bits_minus
bit-minus [] b i = refl
bit-minus (x ∷ a) [] i = ground arith
bit-minus (x ∷ a) (y ∷ b) zero = refl
bit-minus (x ∷ a) (y ∷ b) (suc i) = bit-minus a b i

pub bit-is_zero : (a : Bits) (i : ℕ) → is_zero a ≡ true → bit a i ≡ false
unfolding is_zero
bit-is_zero [] i h = refl
bit-is_zero (x ∷ a) zero h = ground arith
bit-is_zero (x ∷ a) (suc i) h = bit-is_zero a i (ground arith)

pub ruleset bit_laws = (bit-single, bit-or, bit-minus)
