-- ===== src/Config/Tree.antt =====
-- src/core/config.h and src/core/config.cpp: the sections of the configuration, which point to each
-- other. They stand in a list, and a pointer is a position in it; what is deleted stays there, with
-- nothing that points to it.
use minbif.Prelude.{
  ℕ, zero, suc, Bool, true, false, not, ◌&&◌, ◌||◌, List, [], ◌∷◌, ◌++◌, map, Option, none, some,
  Text, text_eq, length, get_elem?, set, if◌then◌else◌,
}
use minbif.Result.{Result, ok, err, stuck, undefined, ◌>>=◌}
use minbif.Config.{ℤ, Item, Streams, find_empty, clean_items}

-- MyConfig::section_t
pub data SectionType : Type 0 where
  normal multiple optional : SectionType

-- ConfigSection; name_item is the label of the item.
pub record Section : Type 0 where
  pub label : Text
  pub name : Text
  pub type : SectionType
  pub items : List Item
  pub name_item : Option Text
  pub sections : List ℕ
  pub parent : Option ℕ
  pub copy : Bool
  pub found : Bool

abbrev pub Heap : Type 0
Heap = List Section

-- MyConfig
pub record Tree : Type 0 where
  pub heads : List ℕ
  pub heap : Heap
  pub loaded : Bool

-- The streams, the order of std::string, and what an int and a bool are before they are set.
pub record Loader : Type 0 where
  pub streams : Streams
  pub less : Text → Text → Bool
  pub raw_number : ℤ
  pub raw_flag : Bool

unfoldable pub is_multiple : Section → Bool
is_multiple s = elim s.type [ normal ↦ false | multiple ↦ true | optional ↦ false ]

unfoldable pub is_optional : Section → Bool
is_optional s = elim s.type [ normal ↦ false | multiple ↦ true | optional ↦ true ]

-- *p
unfoldable pub section_at : ℕ → Heap → Result Section
section_at k h = elim (get_elem? h k) [ none ↦ err undefined | some s ↦ ok s ]

-- GetSection of a label, in a SectionMap
unfoldable pub get_section : Text → List ℕ → Heap → Option ℕ
get_section label [] h = none
get_section label (k ∷ ks) h =
    let rest = get_section label ks h in
    elim (get_elem? h k) [
      | none ↦ rest
      | some s ↦ if text_eq s.label label && not s.copy then some k else rest
    ]

-- GetSection of a label and a name
unfoldable pub get_named_section : Text → Text → List ℕ → Heap → Option ℕ
unfolding is_multiple
get_named_section label name [] h = none
get_named_section label name (k ∷ ks) h =
    let rest = get_named_section label name ks h in
    elim (get_elem? h k) [
      | none ↦ rest
      | some s ↦
          if text_eq s.label label && (is_multiple s && text_eq s.name name) then some k else rest
    ]

-- sections.insert(std::make_pair(label, p)): behind those that are not above the label
unfoldable pub insert_section : Loader → Text → ℕ → List ℕ → Heap → List ℕ
insert_section e label p [] h = p ∷ []
insert_section e label p (k ∷ ks) h =
    let rest = insert_section e label p ks h in
    elim (get_elem? h k) [
      | none ↦ k ∷ rest
      | some s ↦ if e.less label s.label then p ∷ k ∷ ks else k ∷ rest
    ]

-- ConfigItem::Clone
unfoldable pub clone : Loader → Item → Item
clone e i = record i {
  found = false;
  text = [];
  number = e.raw_number;
  flag = e.raw_flag;
  value_min = e.raw_number;
  value_max = e.raw_number;
}

-- the loop over the sections in the copy constructor of ConfigSection
unfoldable pub copy_all : (ℕ → Heap → Result (ℕ × Heap)) → List ℕ → Heap → Result (List ℕ × Heap)
copy_all f [] h = ok ([], h)
copy_all f (k ∷ ks) h = do (c, h) ← f k h; (cs, h) ← copy_all f ks h; ok (c ∷ cs, h)

-- new ConfigSection(*p), on fuel for the depth: the parent is that of *p
unfoldable pub copy_section : Loader → ℕ → ℕ → Heap → Result (ℕ × Heap)
unfolding copy_all section_at clone
copy_section e zero p h = err stuck
copy_section e (suc fuel) p h = do
  s ← section_at p h
  let made = record s { name = []; items = map (clone e) s.items; sections = [] }
  (cs, g) ← copy_all (copy_section e fuel) s.sections (h ++ made ∷ [])
  ok (length h, set g (length h) (record made { sections = cs }))

-- the loop of Clean over a SectionMap
unfoldable pub clean_all : (ℕ → Heap → Result Heap) → List ℕ → Heap → Result (List ℕ × Heap)
unfolding section_at
clean_all f [] h = ok ([], h)
clean_all f (k ∷ ks) h = do
  s ← section_at k h
  if s.copy then clean_all f ks h else (do
    h ← f k (set h k (record s { found = false }))
    (rest, h) ← clean_all f ks h
    ok (k ∷ rest, h))

-- ConfigSection::Clean
unfoldable pub clean_section : ℕ → ℕ → Heap → Result Heap
unfolding clean_all section_at
clean_section zero p h = err stuck
clean_section (suc fuel) p h = do
  s ← section_at p h
  (ks, h) ← clean_all (clean_section fuel) s.sections h
  s ← section_at p h
  ok (set h p (record s { sections = ks; items = clean_items s.items }))

-- MyConfig::Clean
unfoldable pub clean_tree : Tree → Result Tree
unfolding clean_all clean_section
clean_tree t = do
  (ks, h) ← clean_all (clean_section (suc (length t.heap))) t.heads t.heap
  ok (record t { heads = ks; heap = h })

-- a section that misses: it is not found, and not optional
unfoldable pub misses : Section → Bool
unfolding is_optional
misses s = not s.found && not (is_optional s)

-- The loop of FindEmpty over a SectionMap, which drops what the sections give.
unfoldable pub find_all : (ℕ → Heap → Result (Bool × Heap)) → List ℕ → Heap → Result (Bool × Heap)
unfolding misses section_at
find_all f [] h = ok (false, h)
find_all f (k ∷ ks) h = do
  s ← section_at k h
  if misses s
      then (do (error, h) ← find_all f ks h; ok (true, h))
      else (do (dropped, h) ← f k h; find_all f ks h)

-- ConfigSection::FindEmpty
unfoldable pub find_empty_section : Loader → ℕ → ℕ → Heap → Result (Bool × Heap)
unfolding find_all section_at is_multiple
find_empty_section e zero p h = err stuck
find_empty_section e (suc fuel) p h = do
  s ← section_at p h
  if is_multiple s && not s.copy then ok (true, h) else (do
    let (wrong, items) = find_empty e.streams s.found s.items
    (error, h) ←
        find_all (find_empty_section e fuel) s.sections (set h p (record s { items = items }))
    ok (wrong || error, h))

-- MyConfig::FindEmpty
unfoldable pub find_empty_tree : Loader → Tree → Result (Bool × Tree)
unfolding find_all find_empty_section
find_empty_tree e t = do
  (error, h) ← find_all (find_empty_section e (suc (length t.heap))) t.heads t.heap
  ok (error, record t { heap = h })
