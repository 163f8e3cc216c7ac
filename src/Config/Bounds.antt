-- ===== src/Config/Bounds.antt =====
-- The values of a section that loads without an error (src/core/config.h, src/core/config.cpp).
use minbif.Prelude.{
  ◌≡◌, inl, inr, refl, Bool, true, false, not, ◌&&◌, ◌||◌, List, [], ◌∷◌, Option, none, some, Text,
  codes, is_empty, is_digit, all, text_eq, if◌then◌else◌, arith, Bool-cases,
}
use minbif.Token.{stringtok, skip}
use minbif.Config.{
  ℤ, at_most, Kind, string_item, int_item, intrange_item, bool_item, Item, Streams, range_loop,
  set_value, set_int, set_intrange, set_bool, set_item, has_item, item_line, item_lines, find_empty,
  clean_items,
}

-- Whether the values of an item are within its bounds.
abbrev pub in_bounds : Item → Bool
in_bounds i = elim i.kind [
  | string_item ↦ true
  | int_item low high ↦ at_most low i.number && at_most i.number high
  | intrange_item low high ↦
      at_most low i.value_min && (at_most i.value_min i.value_max && at_most i.value_max high)
  | bool_item ↦ true
]

-- Found items are within their bounds.
abbrev sound : Item → Bool
sound i = not i.found || in_bounds i

-- a range, from what the loop gives
abbrev ranged : Streams → Item → ℤ → ℤ → Option (Text × Text) → Bool × Item
ranged v i low high r = elim r [
  | none ↦ (false, record i { kind = intrange_item low high })
  | some (min_s, max_s) ↦
      let a = v.extract min_s i.value_min in
      let b = v.extract max_s i.value_max in
      (
        at_most low a && (at_most a b && at_most b high),
        record i { kind = intrange_item low high; value_min = a; value_max = b },
      )
]

chosen :
    (b : Bool) (x y : Bool × Item)
    → in_bounds x.1 ≡ true
    → in_bounds y.1 ≡ true
    → in_bounds (if b then x else y).1 ≡ true
chosen true x y g h = g
chosen false x y g h = h

-- an item that was set, of each kind
set_value_of :
    (v : Streams) (s : Text) (i : Item) (k : Kind)
    → (set_value v s (record i { kind = k })).0 ≡ true
    → in_bounds (set_value v s (record i { kind = k })).1 ≡ true
unfolding set_value set_int set_intrange set_bool
set_value_of v s i string_item h = refl
set_value_of v s i (int_item low high) h = elim (Bool-cases (all is_digit s)) [
  | inl e ↦ ground (arith, e, h)
  | inr e ↦ ground (arith, e, h)
]
set_value_of v s i (intrange_item low high) h =
    elim (range_loop s true [] [])
        as (λ r. (ranged v i low high r).0 ≡ true → in_bounds (ranged v i low high r).1 ≡ true) [
          | none ↦ λ e. absurd (ground (arith, e))
          | some x ↦ λ e. e
        ]
      h
set_value_of v s i bool_item h =
    chosen (text_eq s (codes "true") || (text_eq s (codes "on") || text_eq s (codes "yes"))) _ _
      refl
      (chosen (text_eq s (codes "false") || (text_eq s (codes "off") || text_eq s (codes "no"))) _ _
        refl refl)

set_value-in_bounds :
    (v : Streams) (s : Text) (i : Item)
    → (set_value v s i).0 ≡ true
    → in_bounds (set_value v s i).1 ≡ true
set_value-in_bounds v s i h = set_value_of v s i i.kind h

-- a step that branches
abbrev Keeps : (Item → Bool) → Bool × List Item → Type 0
Keeps p x = x.0 ≡ false → all p x.1 ≡ true

branch :
    (p : Item → Bool) (b : Bool) (x y : Bool × List Item)
    → (b ≡ true → Keeps p x)
    → (b ≡ false → Keeps p y)
    → Keeps p (if b then x else y)
branch p true x y f g e = f refl e
branch p false x y f g e = g refl e

-- Each step keeps found items within their bounds, unless it reports an error.
set_item-sound :
    (v : Streams) (label value : Text) (items : List Item)
    → all sound items ≡ true
    → has_item label items ≡ true
    → (set_item v label value items).0 ≡ false
    → all sound (set_item v label value items).1 ≡ true
unfolding set_item has_item
set_item-sound v label value [] h t e = absurd (ground arith)
set_item-sound v label value (i ∷ is) h t e =
    let set = set_value v value (record i { found = true }) in
    let rest : all sound is ≡ true = ground arith in
    branch sound (text_eq i.label label) (not set.0, set.1 ∷ is)
      ((set_item v label value is).0, i ∷ (set_item v label value is).1)
      (λ b f.
        let fine : set.0 ≡ true = ground (arith, f) in
        let kept = set_value-in_bounds v value (record i { found = true }) fine in
        ground (arith, kept, rest))
      (λ b f.
        let there : has_item label is ≡ true = ground (arith, t, b) in
        let kept = set_item-sound v label value is rest there f in ground (arith, kept, h))
      e

item_line-sound :
    (v : Streams) (line : Text) (items : List Item)
    → all sound items ≡ true
    → (item_line v line items).0 ≡ false
    → all sound (item_line v line items).1 ≡ true
unfolding item_line
item_line-sound v line items h e =
    let label = (stringtok (codes " ") (skip (codes " \t") line)).0 in
    let rest = (stringtok (codes " ") (skip (codes " \t") line)).1 in
    let refused : Keeps sound (true, items) = λ f. h in
    branch sound (not (has_item label items)) (true, items) _ (λ b. refused)
      (λ b.
        branch sound (is_empty rest) (true, items) _ (λ c. refused)
          (λ c.
            branch sound (is_empty (skip (codes " =\t") rest)) (true, items)
              (set_item v label (skip (codes " =\t") rest) items) (λ d. refused)
              (λ d f.
                set_item-sound v label (skip (codes " =\t") rest) items h (ground (arith, b)) f)))
      e

item_lines-sound :
    (v : Streams) (lines : List Text) (items : List Item)
    → all sound items ≡ true
    → (item_lines v lines items).0 ≡ false
    → all sound (item_lines v lines items).1 ≡ true
unfolding item_lines
item_lines-sound v [] items h e = h
item_lines-sound v (l ∷ ls) items h e =
    item_lines-sound v ls (item_line v l items).1 (item_line-sound v l items h (ground (arith, e)))
      (ground (arith, e))

tried_in_bounds :
    (b : Bool) (x y : Bool × Item)
    → (x.0 ≡ true → in_bounds x.1 ≡ true)
    → (y.0 ≡ true → in_bounds y.1 ≡ true)
    → (if b then x else y).0 ≡ true
    → in_bounds (if b then x else y).1 ≡ true
tried_in_bounds true x y f g = f
tried_in_bounds false x y f g = g

default_in_bounds :
    (v : Streams) (i : Item)
    → (if is_empty i.def_value then (false, i) else set_value v i.def_value i).0 ≡ true
    → in_bounds (if is_empty i.def_value then (false, i) else set_value v i.def_value i).1 ≡ true
default_in_bounds v i =
    tried_in_bounds (is_empty i.def_value) (false, i) (set_value v i.def_value i)
      (λ e. absurd (ground (arith, e))) (set_value-in_bounds v i.def_value i)

find_empty-in_bounds :
    (v : Streams) (items : List Item)
    → all sound items ≡ true
    → (find_empty v true items).0 ≡ false
    → all in_bounds (find_empty v true items).1 ≡ true
unfolding find_empty
find_empty-in_bounds v [] h e = refl
find_empty-in_bounds v (i ∷ is) h e =
    let more = find_empty v true is in
    let tried : Bool × Item =
      if is_empty i.def_value then (false, i) else set_value v i.def_value i in
    let rest : all sound is ≡ true = ground arith in
    branch in_bounds i.found (more.0, i ∷ more.1)
      ((not tried.0 && true) || more.0, tried.1 ∷ more.1)
      (λ b f. let kept = find_empty-in_bounds v is rest f in ground (arith, kept, h, b))
      (λ b f.
        let kept = find_empty-in_bounds v is rest (ground (arith, f)) in
        let good = default_in_bounds v i (ground (arith, f)) in ground (arith, kept, good))
      e

clean_items-sound : (items : List Item) → all sound (clean_items items) ≡ true
unfolding clean_items
clean_items-sound [] = refl
clean_items-sound (i ∷ is) = clean_items-sound is

-- Whatever the streams read, and whatever lines with '=' stand in a section that is found: when no line
-- and no default value is reported as an error, the value of every item of the section is within the
-- item's bounds.
pub loaded-in_bounds :
    (v : Streams) (lines : List Text) (items : List Item)
    → (item_lines v lines (clean_items items)).0 ≡ false
    → (find_empty v true (item_lines v lines (clean_items items)).1).0 ≡ false
    → all in_bounds (find_empty v true (item_lines v lines (clean_items items)).1).1 ≡ true
loaded-in_bounds v lines items e f =
    find_empty-in_bounds v (item_lines v lines (clean_items items)).1
      (item_lines-sound v lines (clean_items items) (clean_items-sound items) e) f
