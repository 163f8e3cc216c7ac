-- ===== src/Config/Load.antt =====
-- MyConfig::Load of src/core/config.cpp, and how sections and items are declared.
use minbif.Prelude.{
  ℕ, suc, Bool, true, false, not, ◌&&◌, ◌||◌, List, [], ◌∷◌, Option, none, some, Text, codes,
  is_empty, text_eq, first, has, length, set, ◌==◌, if◌then◌else◌,
}
use minbif.Result.{Result, ok, ◌>>=◌}
use minbif.Token.{stringtok, skip}
use minbif.Config.{set_item, has_item}
use minbif.Config.Tree.{
  Section, Heap, Tree, Loader, is_multiple, section_at, get_section, get_named_section,
  insert_section, copy_section, clean_tree, find_empty_tree,
}

-- What the loop of Load has: whether there was an error, the section it is in, and the sections.
pub record Progress : Type 0 where
  pub error : Bool
  pub section : Option ℕ
  pub tree : Tree

-- Error(...); continue;
unfoldable pub complain : Progress → Result Progress
complain r = ok (record r { error = true })

abbrev pub with_heap : Heap → Progress → Progress
with_heap h r = record r { tree = record r.tree { heap = h } }

-- the SectionMap that a section stands in
unfoldable pub siblings : Section → Tree → Result (List ℕ)
unfolding section_at
siblings s t = elim s.parent [
  | none ↦ ok t.heads
  | some p ↦ section_at p t.heap >>= λ q. ok q.sections
]

-- SetFound and SetValue of the item of a label, in a section that may have got a name
unfoldable pub set_section_item : Loader → ℕ → Section → Text → Text → Progress → Progress
set_section_item e p s label value r =
    let (wrong, items) = set_item e.streams label value s.items in
    record (with_heap (set r.tree.heap p (record s { items = items })) r) {
      error = r.error || wrong;
    }

-- the part of a line with '=' once its item and its value are there
unfoldable pub give_value : Loader → ℕ → Section → Text → Text → Progress → Result Progress
unfolding siblings get_named_section set_section_item complain
give_value e p s label value r =
    if elim s.name_item [ none ↦ false | some l ↦ text_eq l label ]
    then (do
      ks ← siblings s r.tree
      elim (get_named_section s.label value ks r.tree.heap) [
        | some other ↦ complain r
        | none ↦ ok (set_section_item e p (record s { name = value }) label value r)
      ])
    else ok (set_section_item e p s label value r)

-- A line with '='.
unfoldable pub value_line : Loader → Text → Progress → Result Progress
unfolding give_value complain section_at
value_line e line r = elim r.section [
  | none ↦ complain r
  | some p ↦ do
    s ← section_at p r.tree.heap
    let (label, rest) = stringtok (codes " ") line
    let value = skip (codes " =\t") rest
    if not (has_item label s.items) || (is_empty rest || is_empty value)
        then complain r
        else give_value e p s label value r
]

-- A line that begins with '}'.
unfoldable pub end_line : Progress → Result Progress
unfolding complain section_at
end_line r = elim r.section [
  | none ↦ complain r
  | some p ↦ do
    s ← section_at p r.tree.heap
    ok (record r { error = r.error || (s.copy && is_empty s.name); section = s.parent })
]

-- section->Parent()->AddSection(section), or AddSection(section)
unfoldable pub add_copy : Loader → ℕ → Section → Tree → Result Tree
unfolding insert_section section_at
add_copy e p s t = elim s.parent [
  | none ↦ ok (record t { heads = insert_section e s.label p t.heads t.heap })
  | some q ↦ do
    o ← section_at q t.heap
    ok (record t {
      heap = set t.heap q (record o { sections = insert_section e s.label p o.sections t.heap });
    })
]

-- The section that begins: one that may stand more than once is copied.
unfoldable pub open_section : Loader → ℕ → Progress → Result Progress
unfolding section_at is_multiple copy_section add_copy
open_section e p r = do
  s ← section_at p r.tree.heap
  let h = set r.tree.heap p (record s { found = true })
  if is_multiple s
      then (do
        (c, h) ← copy_section e (suc (length h)) p h
        o ← section_at c h
        t ←
            add_copy e c (record o { copy = true })
              (record r.tree { heap = set h c (record o { copy = true }) })
        ok (record r { section = some c; tree = t }))
      else ok (record (with_heap h r) { section = some p })

-- Another line.
unfoldable pub section_line : Loader → Text → Progress → Result Progress
unfolding get_section section_at open_section
section_line e line r = do
  let (tab, rest) = stringtok (codes " ") line
  ks ← elim r.section [
    | none ↦ ok r.tree.heads
    | some p ↦ section_at p r.tree.heap >>= λ s. ok s.sections
  ]
  elim (get_section tab ks r.tree.heap) [
    | none ↦ ok (record r { error = true; section = none })
    | some p ↦ open_section e p r
  ]

-- A line, without the blanks it begins with.
unfoldable pub load_line : Loader → Text → Progress → Result Progress
unfolding value_line end_line section_line
load_line e line r =
    if is_empty line || (first line == b'#' || (first line == b'\r' || first line == b'\n'))
    then ok r
    else if has b'=' line
    then value_line e line r
    else if first line == b'}'
    then end_line r
    else section_line e line r

-- the bytes of ligne.c_str(): those before a zero byte
unfoldable pub c_str : Text → Text
c_str [] = []
c_str (c ∷ s) = let rest = c_str s in if c == 0 then [] else c ∷ rest

unfoldable pub load_lines : Loader → List Text → Progress → Result Progress
unfolding load_line c_str
load_lines e [] r = ok r
load_lines e (l ∷ ls) r = load_line e (skip (codes " \t") (c_str l)) r >>= load_lines e ls

unfoldable pub is_in_section : Option ℕ → Bool
is_in_section none = false
is_in_section (some p) = true

-- MyConfig::Load on the lines of a file
unfoldable pub load : Loader → List Text → Tree → Result (Bool × Tree)
unfolding clean_tree load_lines find_empty_tree is_in_section
load e lines t = do
  t ← clean_tree t
  r ← load_lines e lines (record { error = false; section = none; tree = t })
  (missing, t) ← find_empty_tree e r.tree
  let wrong = r.error || (is_in_section r.section || missing)
  ok (not wrong, record t { loaded = t.loaded || not wrong })
