-- ===== src/Modes/Letters.antt =====
-- The mode messages and prefixes of `ChanUser`, src/irc/channel.cpp.
use minbif.Prelude.{
  ℕ, ◌≡◌, ◌≢◌, ◌↔◌, refl, ◌∙◌, Bool, true, false, List, [], ◌∷◌, ◌++◌, append_assoc, append-nil,
  map, some, Text, codes, has, arith, if◌then◌else◌, Bool-cases, inl, inr,
}
use minbif.Result.{ok}
use minbif.Bits.{Bits, bit, is_zero}
use minbif.Message.{Message, message, add_arg, set_arg, spaced_back}
use minbif.Message.RoundTrip.{spaced_back-append}
use minbif.Modes.{ChatFlags, IsDistinct, ModeChar, m2c, c2mode, mode2c, mode_loop, get_mode_message}

-- The rows of the table whose flag is set.
unfoldable pub selected : Bits → List ModeChar → List ModeChar
selected modes [] = []
selected modes (e ∷ es) =
    let rest = selected modes es in if bit modes e.mode then e ∷ rest else rest

abbrev pub letter : ModeChar → ℕ
letter e = e.c

module _ (name : Text) (modes : Bits) (spaceless : has b' ' name ≡ false) where
  mode_loop_lem :
      (es : List ModeChar) (letters : Text) (m : Message)
      → spaced_back m.args ≡ false
      → mode_loop name modes es letters m
        ≡ ok (
          letters ++ map letter (selected modes es),
          record m { args = m.args ++ map (λ e. name) (selected modes es) },
        )
  unfolding mode_loop selected add_arg
  mode_loop_lem [] letters m h = simp append-nil
  mode_loop_lem (e ∷ es) letters m h = elim (Bool-cases (bit modes e.mode)) [
    | inl b ↦
        rw (b, h)
          (mode_loop_lem es (letters ++ e.c ∷ []) (record m { args = m.args ++ name ∷ [] })
              (spaced_back-append m.args name ∙ spaceless)
            ∙ simp append_assoc)
    | inr b ↦ rw b (mode_loop_lem es letters m h)
  ]

spaced_back_names :
    (name : Text) (es : List ModeChar) (a : Text)
    → has b' ' name ≡ false
    → has b' ' a ≡ false
    → spaced_back (a ∷ map (λ e. name) es) ≡ false
unfolding spaced_back
spaced_back_names name [] a n h = h
spaced_back_names name (e ∷ es) a n h = spaced_back_names name es name n n

-- the last step of getModeMessage
set_letters :
    (name sign letters : Text) (es : List ModeChar)
    → has b' ' name ≡ false
    → has b' ' sign ≡ false
    → set_arg 0 letters (record (message (codes "MODE")) { args = sign ∷ map (λ e. name) es })
      ≡ ok (record (message (codes "MODE")) { args = letters ∷ map (λ e. name) es })
unfolding set_arg
set_letters name sign letters es n h = ground (arith, spaced_back_names name es sign n h)

sign : Bool → Text
sign adding = if adding then codes "+" else codes "-"

sign_spaceless : (adding : Bool) → has b' ' (sign adding) ≡ false
unfolding sign
sign_spaceless true = refl
sign_spaceless false = refl

-- A mode message for a nick with no space in its name never throws, and has one mode letter for
-- each flag of `modes` (or of the status, if `modes` is 0) that the table knows, in the table's
-- order, and the nick's name once for each letter.
pub get_mode_message_args :
    (fl : ChatFlags) (name : Text) (status : Bits) (adding : Bool) (modes : Bits)
    → has b' ' name ≡ false
    → get_mode_message fl name status adding modes
      ≡ ok (record (message (codes "MODE")) {
        args =
            ((if adding then codes "+" else codes "-")
              ++ map letter (selected (if is_zero modes then status else modes) (m2c fl)))
            ∷ map (λ e. name) (selected (if is_zero modes then status else modes) (m2c fl));
      })
unfolding get_mode_message add_arg sign
get_mode_message_args fl name status adding modes n =
    let wanted = if is_zero modes then status else modes in
    let started = record (message (codes "MODE")) { args = sign adding ∷ [] } in
    let es = selected wanted (m2c fl) in
    let bare : spaced_back started.args ≡ false = unfold spaced_back in sign_spaceless adding in
    rw (mode_loop_lem name wanted n (m2c fl) (sign adding) started bare)
      (set_letters name (sign adding) (sign adding ++ map letter es) es n (sign_spaceless adding))

letter_known : (fl : ChatFlags) (c mode : ℕ) → c2mode fl c ≡ some mode → c ≢ 0
unfolding c2mode
letter_known fl c mode h = ground arith

c2mode_of_letter :
    (fl : ChatFlags) (c mode : ℕ)
    → IsDistinct fl
    → mode2c fl mode ≡ c
    → c ≢ 0
    → c2mode fl c ≡ some mode
unfolding c2mode mode2c
c2mode_of_letter fl c mode d h k = ground arith

letter_of_c2mode :
    (fl : ChatFlags) (c mode : ℕ) → IsDistinct fl → c2mode fl c ≡ some mode → mode2c fl mode ≡ c
unfolding c2mode mode2c
letter_of_c2mode fl c mode d h = ground arith

-- The two searches of the mode table undo one another, when the flags are distinct bits: `c2mode`
-- finds a flag for a character exactly when the character is the letter, not 0, that `mode2c` finds
-- for the flag.
pub c2mode-mode2c :
    (fl : ChatFlags) (c mode : ℕ)
    → IsDistinct fl
    → (c2mode fl c ≡ some mode) ↔ ((mode2c fl mode ≡ c) × (c ≢ 0))
c2mode-mode2c fl c mode d = (
  λ h. (letter_of_c2mode fl c mode d h, letter_known fl c mode h),
  λ h. c2mode_of_letter fl c mode d h.0 h.1,
)
