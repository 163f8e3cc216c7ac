-- ===== src/Token/Free.antt =====
-- The characters of the tokens of `stringtok` (src/core/util.cpp).
use minbif.Prelude.{
  ℕ, zero, suc, ◌≡◌, refl, true, false, not, [], ◌∷◌, Text, has, all, length, arith,
}
use minbif.Token.{skip, upto, behind, stringtok, tokens_fuel, tokens}

module _ (ds : Text) (k : ℕ) where
  skip_free : (s : Text) → has k s ≡ false → has k (skip ds s) ≡ false
  unfolding skip
  skip_free [] h = refl
  skip_free (c ∷ cs) h = ground (arith, skip_free cs)

  upto_free : (s : Text) → has k s ≡ false → has k (upto ds s) ≡ false
  unfolding upto
  upto_free [] h = refl
  upto_free (c ∷ cs) h = ground (arith, upto_free cs)

  behind_free : (s : Text) → has k s ≡ false → has k (behind ds s) ≡ false
  unfolding behind
  behind_free [] h = refl
  behind_free (c ∷ cs) h = ground (arith, behind_free cs)

  tokens_fuel_free :
      (f : ℕ) (s : Text) → has k s ≡ false → all (λ w. not (has k w)) (tokens_fuel f ds s) ≡ true
  unfolding tokens_fuel stringtok
  tokens_fuel_free zero s h = refl
  tokens_fuel_free (suc f) s h =
      let t = skip_free s h in
      ground (
        arith,
        upto_free (skip ds s) t,
        tokens_fuel_free f (behind ds (skip ds s)) (behind_free (skip ds s) t),
      )

  pub tokens_free : (s : Text) → has k s ≡ false → all (λ w. not (has k w)) (tokens ds s) ≡ true
  unfolding tokens
  tokens_free s h = tokens_fuel_free (suc (length s)) s h
