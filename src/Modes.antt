-- ===== src/Modes.antt =====
-- `ChanUser` of src/irc/channel.h and src/irc/channel.cpp: the status of a nick on a channel.
-- The flags are libpurple's PurpleConvChatBuddyFlags, of which the code relies only on their being
-- single bits, each another.
pub mod Letters
use minbif.Prelude.{
  ℕ, ◌≡◌, ◌≢◌, refl, Bool, true, false, not, ◌&&◌, List, [], ◌∷◌, ◌++◌, Option, none, some, Text,
  codes, ◌==◌, if◌then◌else◌,
}
use minbif.Result.{Result, ok, err, ◌>>=◌}
use minbif.Bits.{Bits, bit, is_zero}
use minbif.Message.{Message, message, add_arg, set_arg}

-- The bit positions of PURPLE_CBFLAGS_VOICE and the others.
pub record ChatFlags : Type 0 where
  pub voice : ℕ
  pub halfop : ℕ
  pub op : ℕ
  pub founder : ℕ
  pub typing : ℕ

pub record IsDistinct (fl : ChatFlags) : Type 0 where
  pub founder_op : fl.founder ≢ fl.op
  pub founder_halfop : fl.founder ≢ fl.halfop
  pub founder_voice : fl.founder ≢ fl.voice
  pub op_halfop : fl.op ≢ fl.halfop
  pub op_voice : fl.op ≢ fl.voice
  pub halfop_voice : fl.halfop ≢ fl.voice

-- struct m2c_t
pub record ModeChar : Type 0 where
  pub mode : ℕ
  pub c : ℕ
  pub prefix : ℕ

abbrev pub m2c : ChatFlags → List ModeChar
m2c fl =
    record { mode = fl.founder; c = b'q'; prefix = b'~' }
    ∷ record { mode = fl.op; c = b'o'; prefix = b'@' }
    ∷ record { mode = fl.halfop; c = b'h'; prefix = b'%' }
    ∷ record { mode = fl.voice; c = b'v'; prefix = b'+' }
    ∷ []

unfoldable pub prefix_loop : Bits → List ModeChar → Text
prefix_loop status [] = []
prefix_loop status (e ∷ es) =
    if bit status e.mode && not (e.prefix == 0)
    then e.prefix ∷ prefix_loop status es
    else prefix_loop status es

unfoldable pub get_prefix : ChatFlags → Bits → Text
unfolding prefix_loop
get_prefix fl status = prefix_loop status (m2c fl)

unfoldable pub c2mode_loop : ℕ → List ModeChar → Option ℕ
c2mode_loop c [] = none
c2mode_loop c (e ∷ es) = if e.c == c then some e.mode else c2mode_loop c es

-- `none` is (mode_t)0, which is no flag.
unfoldable pub c2mode : ChatFlags → ℕ → Option ℕ
unfolding c2mode_loop
c2mode fl c = c2mode_loop c (m2c fl)

unfoldable pub mode2c_loop : ℕ → List ModeChar → ℕ
mode2c_loop mode [] = 0
mode2c_loop mode (e ∷ es) = if e.mode == mode then e.c else mode2c_loop mode es

unfoldable pub mode2c : ChatFlags → ℕ → ℕ
unfolding mode2c_loop
mode2c fl mode = mode2c_loop mode (m2c fl)

-- the loop of getModeMessage, over the rest of the table, with `modes_str` and the message so far
unfoldable pub mode_loop : Text → Bits → List ModeChar → Text → Message → Result (Text × Message)
mode_loop name modes [] letters m = ok (letters, m)
mode_loop name modes (e ∷ es) letters m =
    let skipped = mode_loop name modes es letters m in
    let taken = add_arg name m >>= mode_loop name modes es (letters ++ e.c ∷ []) in
    if bit modes e.mode then taken else skipped

-- getModeMessage of a user with this name and status
unfoldable pub get_mode_message : ChatFlags → Text → Bits → Bool → Bits → Result Message
get_mode_message fl name status adding modes =
    let sign = if adding then codes "+" else codes "-" in
    let wanted = if is_zero modes then status else modes in
    do
      m ← add_arg sign (message (codes "MODE"))
      (letters, n) ← mode_loop name wanted (m2c fl) sign m
      set_arg 0 letters n
