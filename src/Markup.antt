-- ===== src/Markup.antt =====
-- `irc2markup` of src/core/util.cpp: the control codes of IRC, as tags.
pub mod Total
use minbif.Prelude.{
  ℕ, zero, suc, ◌+◌, ◌-◌, ◌*◌, ◌≡◌, Bool, true, false, not, ◌&&◌, ◌||◌, List, [], ◌∷◌, ◌++◌, Option,
  none, some, Text, codes, is_empty, is_digit, mem, length, get_elem?, leb, ◌==◌, if◌then◌else◌,
}
use minbif.Result.{Result, ok, err, stuck}
use minbif.Token.{upto}

-- the names of irc_colors, by their numbers
unfoldable pub irc_colors : List Text
irc_colors =
    codes "white"
    ∷ codes "black"
    ∷ codes "blue"
    ∷ codes "dark green"
    ∷ codes "red"
    ∷ codes "brown"
    ∷ codes "purple"
    ∷ codes "orange"
    ∷ codes "yellow"
    ∷ codes "green"
    ∷ codes "teal"
    ∷ codes "cyan"
    ∷ codes "light blue"
    ∷ codes "pink"
    ∷ codes "grey"
    ∷ codes "light grey"
    ∷ []

-- "\002\003\007\017\026\037", in octal
abbrev pub controls : Text
controls = 2 ∷ 3 ∷ 7 ∷ 15 ∷ 22 ∷ 31 ∷ []

-- The local variables of irc2markup that are flags.
pub record Style : Type 0 where
  pub font : Bool
  pub bold : Bool
  pub underline : Bool
  pub italic : Bool

-- the text from strpbrk (cur, ds) on
unfoldable pub onward : Text → Text → Text
onward ds [] = []
onward ds (c ∷ cs) = let rest = onward ds cs in if mem c ds then c ∷ cs else rest

-- if(isdigit(*cur)) ... = *cur++, and what is left
unfoldable pub one_digit : Text → Text × Text
one_digit [] = ([], [])
one_digit (c ∷ cs) = if is_digit c then (c ∷ [], cs) else ([], c ∷ cs)

unfoldable pub two_digits : Text → Text × Text
two_digits s = let (a, r) = one_digit s in let (b, t) = one_digit r in (a ++ b, t)

-- atoi of at most two digits
unfoldable pub atoi : ℕ → Text → ℕ
atoi n [] = n
atoi n (c ∷ cs) = atoi (10 * n + (c - 48)) cs

-- if(*cur == ',') and the digits behind it
unfoldable pub background : Text → Text × Text
background [] = ([], [])
background (c ∷ cs) = if c == b',' then two_digits cs else ([], c ∷ cs)

-- COLOR or BACK of a number, when it is in the table
unfoldable pub colour : Text → Text → Text
colour name digits = elim (get_elem? irc_colors (atoi 0 digits)) [
  | none ↦ []
  | some n ↦ name ++ (codes "=\"" ++ (n ++ codes "\""))
]

-- the part of `case '\003'` behind the digits
unfoldable pub font_tag : Text → Text → Style → Text → Style × Text
font_tag fg bg st out =
    let closed = if st.font then out ++ codes "</FONT>" else out in
    let plain = record st { font = false } in
    if is_empty fg then (plain, closed) else if not (leb (atoi 0 fg) 15) then (plain, closed) else (
      record plain { font = true },
      closed
          ++ (colour (codes "<FONT COLOR") fg
              ++ ((if is_empty bg then [] else colour (codes " BACK") bg) ++ codes ">")),
    )

-- the tags that are closed at the end and by '\017', in octal
unfoldable pub closings : Style → Text
closings st =
    (if st.bold then codes "</B>" else [])
    ++ ((if st.italic then codes "</I>" else [])
        ++ ((if st.underline then codes "</U>" else [])
            ++ (if st.font then codes "</FONT>" else [])))

-- The switch on *cur: the flags, what is decoded, and the new cur.
unfoldable pub control : Style → Text → Text → Style × Text × Text
control st out [] = (st, out ++ closings st, [])
control st out (c ∷ cs) =
    let (fg, r) = two_digits cs in
    let (bg, t) = background r in
    let (fonted, coloured) = font_tag fg bg st out in
    if c == 2
    then (
      record st { bold = not st.bold },
      out ++ (if st.bold then codes "</B>" else codes "<B>"),
      cs,
    )
    else if c == 3
    then (fonted, coloured, t)
    else if c == 9
    then (
      record st { italic = not st.italic },
      out ++ (if st.italic then codes "</I>" else codes "<I>"),
      cs,
    )
    else if c == 31
    then (
      record st { underline = not st.underline },
      out ++ (if st.underline then codes "</U>" else codes "<U>"),
      cs,
    )
    else if c == 7 || c == 22
    then (st, out, cs)
    else if c == 15
    then (st, out ++ closings st, cs)
    else (st, out, c ∷ cs)

-- The do-while loop; escape is g_markup_escape_text.
unfoldable pub markup_loop : ℕ → (Text → Text) → Style → Text → Text → Result Text
markup_loop zero escape st out cur = err stuck
markup_loop (suc f) escape st out cur =
    let (after, decoded, next) =
      control st (out ++ escape (upto controls cur)) (onward controls cur) in
    let rest = markup_loop f escape after decoded next in if is_empty next then ok decoded else rest

-- irc2markup of a text that is not NULL
unfoldable pub irc2markup : (Text → Text) → Text → Result Text
irc2markup escape s =
    markup_loop (suc (length s)) escape
      (record { font = false; bold = false; underline = false; italic = false }) [] s
