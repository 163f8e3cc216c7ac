-- ===== src/Message/Args.antt =====
-- The arguments of a message built by `addArg` and `setArg` of src/irc/message.cpp.
use minbif.Prelude.{
  ℕ, zero, suc, ◌+◌, ◌<◌, ◌≡◌, refl, Bool, true, false, List, [], ◌∷◌, ◌++◌, arith, Text, has,
  length, set, ◌&&◌, not,
}
use minbif.Result.{ok}
use minbif.Message.{Message, add_arg, set_arg, spaced_back}

-- Only the last argument has a space, so that the written line shows where each one ends.
unfoldable pub only_last_spaced : List Text → Bool
only_last_spaced [] = true
only_last_spaced (a ∷ []) = true
only_last_spaced (a ∷ b ∷ args) = not (has b' ' a) && only_last_spaced (b ∷ args)

pub only_last_spaced-append :
    (args : List Text) (s : Text)
    → only_last_spaced args ≡ true
    → spaced_back args ≡ false
    → only_last_spaced (args ++ s ∷ []) ≡ true
unfolding only_last_spaced spaced_back
only_last_spaced-append [] s h e = refl
only_last_spaced-append (a ∷ []) s h e = rw e
only_last_spaced-append (a ∷ b ∷ args) s h e = ground (arith, only_last_spaced-append (b ∷ args) s)

-- `addArg` keeps spaces to the last argument, or throws.
pub add_arg-only_last_spaced :
    (m n : Message) (s : Text)
    → only_last_spaced m.args ≡ true
    → add_arg s m ≡ ok n
    → only_last_spaced n.args ≡ true
unfolding add_arg
add_arg-only_last_spaced m n s h e = ground (arith, only_last_spaced-append m.args s)

set_breaks :
    (args : List Text) (i : ℕ) (s : Text)
    → i + 1 < length args
    → has b' ' s ≡ true
    → only_last_spaced (set args i s) ≡ false
unfolding only_last_spaced
set_breaks [] i s h e = absurd (omega arith)
set_breaks (a ∷ []) zero s h e = absurd (omega arith)
set_breaks (a ∷ []) (suc i) s h e = absurd (omega arith)
set_breaks (a ∷ b ∷ args) zero s h e = rw e
set_breaks (a ∷ b ∷ args) (suc zero) s h e = ground (arith, set_breaks (b ∷ args) zero s)
set_breaks (a ∷ b ∷ args) (suc (suc i)) s h e = ground (arith, set_breaks (b ∷ args) (suc i) s)

-- `setArg` tests the last argument and not the new one: if the last argument has no space, a text
-- with a space is written in front of others, and the message no longer keeps spaces to the last
-- argument.
pub set_arg-unchecked :
    (m : Message) (i : ℕ) (s : Text)
    → i + 1 < length m.args
    → spaced_back m.args ≡ false
    → has b' ' s ≡ true
    → (n : Message) × (set_arg i s m ≡ ok n) × (only_last_spaced n.args ≡ false)
unfolding set_arg
set_arg-unchecked m i s h e k =
    (record m { args = set m.args i s }, ground arith, set_breaks m.args i s h k)
