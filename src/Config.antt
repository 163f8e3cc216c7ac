-- ===== src/Config.antt =====
-- src/core/config.h and src/core/config.cpp: the items of a section of the configuration, the lines
-- that set them, and their defaults. A section here is its items, without one for its
-- name; the sections themselves are in Tree.
pub mod Bounds
pub mod Tree
pub mod Shape
pub mod Walks
pub mod Copies
pub mod Lines
pub mod Opening
pub mod Total
pub mod Declare
pub mod Load
use minbif.Prelude.{
  ℕ, ◌≡◌, Bool, true, false, not, ◌&&◌, ◌||◌, List, [], ◌∷◌, ◌++◌, Option, none, some, Text, codes,
  is_empty, is_digit, all, has, first, text_eq, leb, ◌==◌, if◌then◌else◌,
}
use minbif.Token.{stringtok, skip}

-- int: n, and -1 - n
pub data ℤ : Type 0 where
  pos : ℕ → ℤ
  negsuc : ℕ → ℤ

-- a <= b
unfoldable pub at_most : ℤ → ℤ → Bool
at_most (pos a) (pos b) = leb a b
at_most (pos a) (negsuc b) = false
at_most (negsuc a) (pos b) = true
at_most (negsuc a) (negsuc b) = leb b a

-- The subclasses of ConfigItem, with their min and max.
pub data Kind : Type 0 where
  string_item : Kind
  int_item : ℤ → ℤ → Kind
  intrange_item : ℤ → ℤ → Kind
  bool_item : Kind

pub record Item : Type 0 where
  pub label : Text
  pub def_value : Text
  pub kind : Kind
  pub found : Bool
  -- value of a string, an int and a bool, and value_min and value_max
  pub text : Text
  pub number : ℤ
  pub flag : Bool
  pub value_min : ℤ
  pub value_max : ℤ

-- std::istringstream(s) >> value: what value is behind it, from the text and what it was before
pub record Streams : Type 0 where
  pub extract : Text → ℤ → ℤ

-- The loop of ConfigItem_intrange::SetValue: the digits before and behind the sign between them.
unfoldable pub range_loop : Text → Bool → Text → Text → Option (Text × Text)
range_loop [] on_min min_s max_s = some (min_s, max_s)
range_loop (c ∷ cs) on_min min_s max_s =
    if is_digit c
    then range_loop cs on_min (if on_min then min_s ++ c ∷ [] else min_s)
        (if on_min then max_s else max_s ++ c ∷ [])
    else if on_min && (c == b':' || c == b'-')
    then range_loop cs false min_s max_s
    else none

-- ConfigItem_int::SetValue
unfoldable pub set_int : Streams → ℤ → ℤ → Text → Item → Bool × Item
set_int v low high s i =
    if all is_digit s
    then (let n = v.extract s i.number in
        (at_most low n && at_most n high, record i { number = n }))
    else (false, i)

-- ConfigItem_intrange::SetValue
unfoldable pub set_intrange : Streams → ℤ → ℤ → Text → Item → Bool × Item
set_intrange v low high s i = elim (range_loop s true [] []) [
  | none ↦ (false, i)
  | some (min_s, max_s) ↦
      let a = v.extract min_s i.value_min in
      let b = v.extract max_s i.value_max in
      (at_most low a && (at_most a b && at_most b high), record i { value_min = a; value_max = b })
]

-- ConfigItem_bool::SetValue
unfoldable pub set_bool : Text → Item → Bool × Item
set_bool s i =
    if text_eq s (codes "true") || (text_eq s (codes "on") || text_eq s (codes "yes"))
    then (true, record i { flag = true })
    else if text_eq s (codes "false") || (text_eq s (codes "off") || text_eq s (codes "no"))
    then (true, record i { flag = false })
    else (false, i)

-- SetValue, which is virtual, with that of ConfigItem_string
unfoldable pub set_value : Streams → Text → Item → Bool × Item
set_value v s i = elim i.kind [
  | string_item ↦ (true, record i { text = s })
  | int_item low high ↦ set_int v low high s i
  | intrange_item low high ↦ set_intrange v low high s i
  | bool_item ↦ set_bool s i
]

-- GetItem, SetFound and SetValue on the items: whether there is an error, and the items.
unfoldable pub set_item : Streams → Text → Text → List Item → Bool × List Item
set_item v label value [] = (true, [])
set_item v label value (i ∷ is) =
    let (fine, j) = set_value v value (record i { found = true }) in
    let (wrong, js) = set_item v label value is in
    if text_eq i.label label then (not fine, j ∷ is) else (wrong, i ∷ js)

-- whether GetItem gives an item
unfoldable pub has_item : Text → List Item → Bool
has_item label [] = false
has_item label (i ∷ is) = text_eq i.label label || has_item label is

-- A line of Load with '=', in a section.
unfoldable pub item_line : Streams → Text → List Item → Bool × List Item
item_line v line items =
    let (label, rest) = stringtok (codes " ") (skip (codes " \t") line) in
    if not (has_item label items)
    then (true, items)
    else if is_empty rest
    then (true, items)
    else if is_empty (skip (codes " =\t") rest)
    then (true, items)
    else set_item v label (skip (codes " =\t") rest) items

-- Such lines, one behind the other: whether there was an error, and the items.
unfoldable pub item_lines : Streams → List Text → List Item → Bool × List Item
item_lines v [] items = (false, items)
item_lines v (l ∷ ls) items =
    let (wrong, after) = item_line v l items in
    let (more, last) = item_lines v ls after in (wrong || more, last)

-- The loop of ConfigSection::FindEmpty over the items, in a section that was found or not.
unfoldable pub find_empty : Streams → Bool → List Item → Bool × List Item
find_empty v found [] = (false, [])
find_empty v found (i ∷ is) =
    let (more, js) = find_empty v found is in
    let (fine, j) = if is_empty i.def_value then (false, i) else set_value v i.def_value i in
    if i.found then (more, i ∷ js) else ((not fine && found) || more, j ∷ js)

-- ConfigSection::Clean, on the items
unfoldable pub clean_items : List Item → List Item
clean_items [] = []
clean_items (i ∷ is) = record i { found = false } ∷ clean_items is
