-- ===== src/Message/Rebuild.antt =====
-- The loop of `rebuildWithQuotes` of src/irc/message.cpp.
use minbif.Prelude.{
  ℕ, zero, suc, ◌≤◌, ◌<◌, ◌≡◌, refl, Bool, true, false, not, ◌&&◌, List, [], ◌∷◌, ◌++◌, none, some,
  Text, first, has, last?, length, ◌==◌, if◌then◌else◌, arith,
}
use minbif.Result.{Error, Result, ok, err, undefined, stuck, ◌>>=◌}
use minbif.Message.{behind_first}
use minbif.Message.Quotes.{closing_quote, collect, strip_quote, rebuild_loop}

-- the error of a loop whose fuel ran out
abbrev is_stuck : Error → Bool
is_stuck stuck = true
is_stuck _ = false

-- a result that is not that error, with what holds of it if it is there
abbrev pub Ends : {A : Type 0} → (A → Type 0) → Result A → Type 0
Ends P (ok a) = P a
Ends P (err e) = is_stuck e ≡ false

Ends-bind :
    {X Y : Type 0} (Q : Y → Type 0) (P : X → Type 0) (m : Result X)
    → Ends P m
    → (next : X → Result Y) → ((x : X) → P x → Ends Q (next x))
    → Ends Q (m >>= next)
Ends-bind Q P (ok x) here next later = later x here
Ends-bind Q P (err e) here next later = here

choose-Ends :
    {A : Type 0} (P : A → Type 0) (b : Bool) (x y : Result A)
    → Ends P x
    → Ends P y
    → Ends P (if b then x else y)
choose-Ends P true x y g h = g
choose-Ends P false x y g h = h

closing_quote-Ends : (t : Text) → Ends (λ e. Unit) (closing_quote t)
unfolding closing_quote
closing_quote-Ends t =
    elim (last? t)
      as (λ o. Ends (λ e. Unit) (elim o [ none ↦ err undefined | some c ↦ ok (c == b'"') ])) [
        | none ↦ refl
        | some c ↦ tt
      ]

-- no more is left than there was
abbrev Shorter : ℕ → Text × List Text × Bool → Type 0
Shorter n x = length x.1 ≤ n

Ends-weaken :
    {A : Type 0} (P Q : A → Type 0) (r : Result A) → ((a : A) → P a → Q a) → Ends P r → Ends Q r
Ends-weaken P Q (ok a) f h = f a h
Ends-weaken P Q (err e) f h = h

collect-Ends : (s : Text) (rest : List Text) → Ends (Shorter (length rest)) (collect s rest)
unfolding collect
collect-Ends s [] = omega arith
collect-Ends s (a ∷ rest) =
    Ends-bind (Shorter (suc (length rest))) (λ e. Unit) (closing_quote a) (closing_quote-Ends a) _
      (λ e u. choose-Ends (Shorter (suc (length rest))) e _ _ (omega arith) (
        Ends-weaken (Shorter (length rest)) (Shorter (suc (length rest)))
          (collect (s ++ b' ' ∷ a) rest) (λ x h. omega (arith, h))
          (collect-Ends (s ++ b' ' ∷ a) rest)))

-- With fuel above the number of arguments, the loop does not run out of it.
pub rebuild_loop-Ends :
    (f : ℕ) (args : List Text) → length args < f → Ends (λ a. Unit) (rebuild_loop f args)
unfolding rebuild_loop
rebuild_loop-Ends zero args h = absurd (omega arith)
rebuild_loop-Ends (suc f) [] h = tt
rebuild_loop-Ends (suc f) (s ∷ rest) h =
    let go : (xs : List Text) (t : Text)
        → length xs ≤ length rest
        → Ends (λ a. Unit) (rebuild_loop f xs >>= λ done. ok (t ∷ done)) =
      λ xs t n.
        Ends-bind (λ a. Unit) (λ a. Unit) (rebuild_loop f xs)
          (rebuild_loop-Ends f xs (omega (arith, n, h))) (λ done. ok (t ∷ done)) (λ d u. tt) in
    choose-Ends (λ a. Unit) (first s == b'"' && not (has b' ' s)) _ _
      (Ends-bind (λ a. Unit) (λ e. Unit) (closing_quote (behind_first s))
        (closing_quote-Ends (behind_first s)) _
        (λ e u.
          Ends-bind (λ a. Unit) (Shorter (length rest))
            (if e then ok (behind_first s, rest, false) else collect (behind_first s) rest)
            (choose-Ends (Shorter (length rest)) e _ _ (omega arith)
              (collect-Ends (behind_first s) rest))
            _ (λ x n. choose-Ends (λ a. Unit) x.2 _ _ tt (go x.1 (strip_quote x.0) n))))
      (go rest s (omega arith))
