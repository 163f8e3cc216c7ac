-- ===== src/Message.antt =====
-- src/irc/message.h and src/irc/message.cpp: IRC messages, as they are built, written and read.
-- `strupper` and `strlower` are those of src/core/util.cpp, in the "C" locale.
pub mod Args
pub mod Quotes
pub mod Rebuild
pub mod RoundTrip
pub mod Stream
pub mod Total
use minbif.Prelude.{
  ℕ, zero, suc, ◌+◌, ◌-◌, ◌≡◌, refl, Bool, true, false, not, ◌&&◌, ◌||◌, List, [], ◌∷◌, ◌++◌, map,
  Option, none, some, Text, codes, first, last?, has, is_empty, length, get_elem?, set, ltb, leb,
  ◌==◌, if◌then◌else◌,
}
use minbif.Result.{Result, ok, err, malformed, assertion, stuck, ◌>>=◌}
use minbif.Token.{stringtok}

-- toupper
unfoldable pub to_upper : ℕ → ℕ
to_upper c = if leb b'a' c && leb c b'z' then c - 32 else c

unfoldable pub strupper : Text → Text
unfolding to_upper
strupper = map to_upper

-- tolower
unfoldable pub to_lower : ℕ → ℕ
to_lower c = if leb b'A' c && leb c b'Z' then c + 32 else c

unfoldable pub strlower : Text → Text
unfolding to_lower
strlower = map to_lower

-- What `Message` asks of the `Entity` behind a pointer.
pub record Entity : Type 0 where
  pub name : Text
  pub long_name : Text

pub record StoredEntity : Type 0 where
  pub entity : Option Entity
  pub name : Text

abbrev pub unset : StoredEntity
unset = record { entity = none; name = [] }

unfoldable pub is_set : StoredEntity → Bool
is_set s = elim s.entity [ none ↦ not (is_empty s.name) | some e ↦ true ]

unfoldable pub get_name : StoredEntity → Text
get_name s = elim s.entity [ none ↦ s.name | some e ↦ e.name ]

unfoldable pub get_long_name : StoredEntity → Text
get_long_name s = elim s.entity [ none ↦ s.name | some e ↦ e.long_name ]

pub record Message : Type 0 where
  pub cmd : Text
  pub sender : StoredEntity
  pub receiver : StoredEntity
  pub args : List Text

-- Message(), and Message(cmd)
abbrev pub message : Text → Message
message c = record { cmd = c; sender = unset; receiver = unset; args = [] }

unfoldable pub set_command : Text → Message → Result Message
set_command r m = if is_empty r then err assertion else ok (record m { cmd = r })

abbrev pub set_sender : Entity → Message → Message
set_sender e m = record m { sender = record { entity = some e; name = [] } }

abbrev pub set_sender_name : Text → Message → Message
set_sender_name n m = record m { sender = record { entity = none; name = n } }

abbrev pub set_receiver : Entity → Message → Message
set_receiver e m = record m { receiver = record { entity = some e; name = [] } }

abbrev pub set_receiver_name : Text → Message → Message
set_receiver_name n m = record m { receiver = record { entity = none; name = n } }

-- !args.empty() && args.back().find(' ') != npos
unfoldable pub spaced_back : List Text → Bool
spaced_back args = elim (last? args) [ none ↦ false | some a ↦ has b' ' a ]

unfoldable pub add_arg : Text → Message → Result Message
unfolding spaced_back
add_arg s m =
    if spaced_back m.args then err malformed else ok (record m { args = m.args ++ s ∷ [] })

unfoldable pub set_arg : ℕ → Text → Message → Result Message
unfolding add_arg
set_arg i s m =
    if i == length m.args
    then add_arg s m
    else if not (ltb i (length m.args))
    then err assertion
    else if ltb (i + 1) (length m.args) && spaced_back m.args
    then err malformed
    else ok (record m { args = set m.args i s })

unfoldable pub get_arg : ℕ → Message → Result Text
get_arg n m = elim (get_elem? m.args n) [ none ↦ err assertion | some a ↦ ok a ]

-- whether `format` writes a colon before the argument
unfoldable pub needs_colon : Text → Bool
needs_colon a = has b' ' a || first a == b':'

-- the loop of `format` over the arguments
unfoldable pub format_args : List Text → Text
unfolding needs_colon
format_args [] = []
format_args (a ∷ args) =
    b' ' ∷ ((if needs_colon a then b':' ∷ [] else []) ++ (a ++ format_args args))

unfoldable pub format : Message → Text
unfolding is_set get_name get_long_name format_args
format m =
    (if is_set m.sender then b':' ∷ (get_long_name m.sender ++ b' ' ∷ []) else [])
    ++ (m.cmd
        ++ ((if is_set m.receiver then b' ' ∷ get_name m.receiver else [])
            ++ (format_args m.args ++ codes "\r\n")))

-- s.substr(1)
abbrev pub behind_first : Text → Text
behind_first [] = []
behind_first (c ∷ cs) = cs

-- The loop of `parse`; each round takes at least one byte off the line.
unfoldable pub parse_loop : ℕ → Text → Message → Result Message
parse_loop zero line m = err stuck
parse_loop (suc f) line m =
    let s = (stringtok (codes " ") line).0 in
    let rest = (stringtok (codes " ") line).1 in
    if is_empty s
    then ok m
    else if is_empty m.cmd
    then (set_command (strupper s) m >>= λ n. parse_loop f rest n)
    else if first s == b':'
    then add_arg (behind_first s ++ (if is_empty rest then [] else b' ' ∷ rest)) m
    else (add_arg s m >>= λ n. parse_loop f rest n)

unfoldable pub parse : Text → Result Message
parse line = parse_loop (suc (length line)) line (message [])
