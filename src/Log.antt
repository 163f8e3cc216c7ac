-- ===== src/Log.antt =====
-- src/core/log.h and src/core/log.cpp: the kinds of log lines, the ones that are logged, by name, and
-- what becomes of a line. A set of flags is its bits; syslog and the server poll are effects.
pub mod Levels
use minbif.Prelude.{
  ℕ, ◌≡◌, refl, Bool, true, false, not, ◌&&◌, List, [], ◌∷◌, ◌++◌, Option, none, some, Text, codes,
  is_empty, text_eq, if◌then◌else◌,
}
use minbif.Bits.{Bits, bit, single, bits_or, is_zero}
use minbif.Token.{tokens}

-- W_DEBUG and the others: the position of the bit
abbrev pub w_debug : ℕ
w_debug = 0

abbrev pub w_parse : ℕ
w_parse = 1

abbrev pub w_purple : ℕ
w_purple = 2

abbrev pub w_desynch : ℕ
w_desynch = 3

abbrev pub w_warning : ℕ
w_warning = 4

abbrev pub w_err : ℕ
w_err = 5

abbrev pub w_info : ℕ
w_info = 6

abbrev pub w_sno : ℕ
w_sno = 7

abbrev pub w_sock : ℕ
w_sock = 8

-- the levels of syslog that the table names
pub data Level : Type 0 where
  log_notice log_debug log_warning log_err : Level

-- A line of all_flags.
pub record LogFlag : Type 0 where
  pub flag : ℕ
  pub level : Level
  pub label : Text
  pub sys_log : Bool
  pub propagate_to_user : Bool

abbrev pub log_flag : ℕ → Level → Text → Bool → Bool → LogFlag
log_flag k level s sys propagate = record {
  flag = k;
  level = level;
  label = s;
  sys_log = sys;
  propagate_to_user = propagate;
}

unfoldable pub all_flags : List LogFlag
all_flags =
    log_flag w_sno log_notice [] false true
    ∷ log_flag w_debug log_debug (codes "DEBUG") false true
    ∷ log_flag w_parse log_debug (codes "PARSE") false true
    ∷ log_flag w_purple log_debug (codes "PURPLE") false true
    ∷ log_flag w_desynch log_warning (codes "DESYNCH") false true
    ∷ log_flag w_warning log_warning (codes "WARNING") false true
    ∷ log_flag w_err log_err (codes "ERR") true true
    ∷ log_flag w_info log_notice (codes "INFO") false true
    ∷ log_flag w_sock log_debug (codes "SOCK") false false
    ∷ []

-- DEFAULT_LOGGED_FLAGS
unfoldable pub default_logged_flags : Bits
unfolding single bits_or
default_logged_flags =
    bits_or (single w_desynch)
      (bits_or (single w_warning) (bits_or (single w_err) (bits_or (single w_info) (single w_sno))))

-- Log, with whether it has a server poll
pub record Log : Type 0 where
  pub logged_flags : Bits
  pub to_syslog : Bool
  pub poll : Bool

-- Log::Log for b_log, whose to_syslog is that of a global, 0
unfoldable pub new_log : Log
unfolding default_logged_flags
new_log = record { logged_flags = default_logged_flags; to_syslog = false; poll = false }

-- The loop of formatLoggedFlags, which goes from the last line of the table to the first.
unfoldable pub format_flags : Bits → List LogFlag → Text
format_flags flags [] = []
format_flags flags (e ∷ es) =
    let s = format_flags flags es in
    if bit flags e.flag then (if is_empty s then e.label else s ++ b' ' ∷ e.label) else s

unfoldable pub format_logged_flags : Log → Text
unfolding format_flags all_flags
format_logged_flags l = format_flags l.logged_flags all_flags

-- The last line of the table with the token for its name.
unfoldable pub find_flag : Text → List LogFlag → Option LogFlag
find_flag token [] = none
find_flag token (e ∷ es) = elim (find_flag token es) [
  | some x ↦ some x
  | none ↦ if text_eq token e.label then some e else none
]

-- (uint32_t) -1
unfoldable pub all_ones : Bits
all_ones =
    true ∷ true ∷ true ∷ true ∷ true ∷ true ∷ true ∷ true ∷ true ∷ true ∷ true ∷ true ∷ true ∷ true
    ∷ true ∷ true ∷ true ∷ true ∷ true ∷ true ∷ true ∷ true ∷ true ∷ true ∷ true ∷ true ∷ true
    ∷ true ∷ true ∷ true ∷ true ∷ true ∷ []

-- logged_flags |= all_flags[i].flag, when there is such a line
unfoldable pub add_flag : Option LogFlag → Bits → Bits
unfolding bits_or single
add_flag none flags = flags
add_flag (some e) flags = bits_or flags (single e.flag)

-- The loop of setLoggedFlags.
unfoldable pub set_loop : List Text → Bits → Bits
unfolding find_flag all_flags add_flag all_ones
set_loop [] flags = flags
set_loop (token ∷ ts) flags =
    let rest = set_loop ts (add_flag (find_flag token all_flags) flags) in
    if text_eq token (codes "ALL") then all_ones else rest

unfoldable pub set_logged_flags : Text → Bool → Log → Log
unfolding set_loop tokens
set_logged_flags s syslog l = record l {
  logged_flags = set_loop (tokens (codes " ") s) [];
  to_syslog = syslog;
}

-- What a line does outside: syslog(level, "[%s] %s", s, str), or ServerPoll::log(flag, msg).
pub data Output : Type 0 where
  syslog_line : Level → Text → Output
  unable_to_find : Bits → Text → Output
  poll_log : Bits → Text → Output

-- The last line of the table with a flag of the line's.
unfoldable pub how_to_log : Bits → List LogFlag → Option LogFlag
how_to_log flag [] = none
how_to_log flag (e ∷ es) = elim (how_to_log flag es) [
  | some x ↦ some x
  | none ↦ if bit flag e.flag then some e else none
]

-- flag & logged_flags
unfoldable pub bits_and : Bits → Bits → Bits
bits_and [] bs = []
bits_and (a ∷ r) [] = []
bits_and (a ∷ r) (b ∷ bs) = (a && b) ∷ bits_and r bs

-- "*** Notice -- ", or the name in brackets
unfoldable pub category : Bits → LogFlag → Text
category flag e = if bit flag w_sno then codes "*** Notice -- " else b'[' ∷ e.label ++ codes "] "

unfoldable pub found_line : Log → Bits → Text → LogFlag → List Output
unfolding category
found_line l flag str e =
    (if e.sys_log && l.to_syslog
      then syslog_line e.level (b'[' ∷ e.label ++ codes "] " ++ str) ∷ []
      else [])
    ++ (if e.propagate_to_user && l.poll then poll_log flag (category flag e ++ str) ∷ [] else [])

-- Log::flux::~flux
unfoldable pub end_flux : Log → Bits → Text → List Output
unfolding how_to_log all_flags found_line bits_and is_zero
end_flux l flag str =
    if is_zero (bits_and flag l.logged_flags) then [] else elim (how_to_log flag all_flags) [
      | none ↦ unable_to_find flag str ∷ []
      | some e ↦ found_line l flag str e
    ]
