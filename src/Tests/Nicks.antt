-- ===== src/Tests/Nicks.antt =====
-- Tests of nicknames (src/irc/nick.cpp) and of channel modes (src/irc/channel.cpp).
use minbif.Prelude.{◌≡◌, refl, [], ◌∷◌, false, true, arith, some, codes}
use minbif.Result.{ok}
use minbif.Bits.{single, is_zero}
use minbif.Message.{message}
use minbif.Nick.{is_nick_char, is_valid_nickname, nickize, nickize_chars}
use minbif.Nick.Names.{nickize_valid}
use minbif.Modes.{ChatFlags, IsDistinct, get_mode_message}
use minbif.Modes.Letters.{selected, get_mode_message_args}

nickize_runs : nickize some (codes "4 me+you") ≡ codes "_4_meyou"
unfolding nickize nickize_chars is_nick_char
nickize_runs = refl

nickize_valid_example : is_valid_nickname (nickize some (codes "4 me+you")) ≡ true
nickize_valid_example = nickize_valid some (codes "4 me+you")

-- libpurple's values
abbrev pub flags : ChatFlags
flags = record { voice = 0; halfop = 1; op = 2; founder = 3; typing = 4 }

pub flags-IsDistinct : IsDistinct flags
flags-IsDistinct = record {
  founder_op = omega arith;
  founder_halfop = omega arith;
  founder_voice = omega arith;
  op_halfop = omega arith;
  op_voice = omega arith;
  halfop_voice = omega arith;
}

get_mode_message_args_example :
    get_mode_message flags (codes "bob") (single 0) true (true ∷ false ∷ true ∷ [])
    ≡ ok (record (message (codes "MODE")) { args = codes "+ov" ∷ codes "bob" ∷ codes "bob" ∷ [] })
unfolding selected is_zero
get_mode_message_args_example =
    get_mode_message_args flags (codes "bob") (single 0) true (true ∷ false ∷ true ∷ []) refl
