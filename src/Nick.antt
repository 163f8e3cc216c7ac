-- ===== src/Nick.antt =====
-- src/irc/nick.h and src/irc/nick.cpp: nicknames, and who a nick is. `char` is plain ASCII or a byte
-- above it; the transliteration by iconv is an argument.
pub mod Names
use minbif.Prelude.{
  ℕ, ◌+◌, ◌≡◌, refl, Bool, true, false, not, ◌&&◌, ◌||◌, List, [], ◌∷◌, ◌++◌, map, all, Option,
  none, some, Text, codes, first, is_digit, is_empty, length, take, mem, ltb, leb, ◌==◌,
  if◌then◌else◌,
}

abbrev pub nick_lc_chars : Text
nick_lc_chars = codes "0123456789abcdefghijklmnopqrstuvwxyz{}^`-_|"

abbrev pub nick_uc_chars : Text
nick_uc_chars = codes "0123456789ABCDEFGHIJKLMNOPQRSTUVWXYZ[]~`-_\\"

abbrev pub max_length : ℕ
max_length = 29

-- strchr(s, c) != NULL: the terminator is found too
unfoldable pub strchr : Text → ℕ → Bool
strchr s c = mem c s || c == 0

unfoldable pub is_nick_char : ℕ → Bool
unfolding strchr
is_nick_char c = strchr nick_lc_chars c || strchr nick_uc_chars c

unfoldable pub is_valid_nickname : Text → Bool
is_valid_nickname nick =
    if is_empty nick || is_digit (first nick) || ltb max_length (length nick)
    then false
    else all is_nick_char nick

-- The loop of `nickize` over a C string, which ends at its terminator.
unfoldable pub nickize_chars : Text → Text
nickize_chars [] = []
nickize_chars (c ∷ cs) =
    let rest = nickize_chars cs in
    if c == 0
    then []
    else if c == b' '
    then b'_' ∷ rest
    else if is_nick_char c
    then c ∷ rest
    else rest

-- conv is what g_convert_with_iconv returns, which may be NULL.
unfoldable pub nickize : (Text → Option Text) → Text → Text
nickize conv n =
    let chars = nickize_chars (elim (conv n) [ none ↦ n | some c ↦ c ]) in
    let led = if is_digit (first chars) then b'_' ∷ chars else chars in
    let cut = if ltb max_length (length led) then take max_length led else led in
    if is_empty cut then codes "Invalid" else cut

-- the loops of setIdentname and setHostname
unfoldable pub replace_spaces : ℕ → Text → Text
replace_spaces c = map (λ x. if x == b' ' then c else x)

pub record NickInfo : Type 0 where
  pub nickname : Text
  pub identname : Text
  pub hostname : Text
  pub realname : Text
  pub away : Text

unfoldable pub set_nickname : Text → NickInfo → NickInfo
set_nickname n i = record i { nickname = n }

unfoldable pub set_identname : Text → NickInfo → NickInfo
unfolding replace_spaces
set_identname n i = record i { identname = replace_spaces b'_' n }

unfoldable pub set_hostname : Text → NickInfo → NickInfo
unfolding replace_spaces
set_hostname n i = record i { hostname = replace_spaces b'.' n }

unfoldable pub set_realname : Text → NickInfo → NickInfo
set_realname r i = record i { realname = r }

-- the constructor Nick(server, nickname, identname, hostname, realname)
unfoldable pub new_nick : Text → Text → Text → Text → NickInfo
unfolding set_identname set_hostname set_realname
new_nick nickname identname hostname realname = set_realname realname (
    set_hostname hostname (
      set_identname identname
        (record { nickname = nickname; identname = []; hostname = []; realname = []; away = [] })))

unfoldable pub get_long_name : NickInfo → Text
get_long_name i = i.nickname ++ (b'!' ∷ (i.identname ++ (b'@' ∷ i.hostname)))

unfoldable pub is_away : NickInfo → Bool
is_away i = not (is_empty i.away)
