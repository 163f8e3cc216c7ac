-- ===== src/Config/Declare.antt =====
-- AddSection and AddItem of src/core/config.cpp, which the program declares its configuration with.
use minbif.Prelude.{
  ℕ, ◌+◌, ◌<◌, ◌≡◌, refl, sym, subst, Bool, true, false, ◌&&◌, ◌||◌, List, [], ◌∷◌, ◌++◌, Option,
  none, some, Text, text_eq, length, length-append, get_elem?, set, all, any, ltb, arith,
  if◌then◌else◌,
}
use minbif.Config.{Item, has_item}
use minbif.Config.Tree.{SectionType, Section, Heap, Tree, Loader, insert_section}
use minbif.Config.Shape.{between, fits, fits_mono, IsHeap, IsHeap-append, lt_of_get}
use minbif.Config.Lines.{IsTree, below_mono, IsTree-set}
use minbif.Config.Opening.{insert_section-all}

-- ConfigSection::ConfigSection
unfoldable pub new_section : Text → SectionType → Option ℕ → Section
new_section label type parent = record {
  label = label;
  name = [];
  type = type;
  items = [];
  name_item = none;
  sections = [];
  parent = parent;
  copy = false;
  found = false;
}

-- a section of the map has the label
unfoldable pub has_label : Text → List ℕ → Heap → Bool
has_label label ks h =
    any (λ k. elim (get_elem? h k) [ none ↦ false | some s ↦ text_eq s.label label ]) ks

-- MyConfig::AddSection
unfoldable pub add_head : Loader → Text → SectionType → Tree → Option Tree
unfolding new_section has_label insert_section
add_head e label type t =
    if t.loaded || has_label label t.heads t.heap
    then none
    else some (record t {
      heads = insert_section e label (length t.heap) t.heads t.heap;
      heap = t.heap ++ new_section label type none ∷ [];
    })

-- ConfigSection::AddSection, in the section at a position
unfoldable pub add_section : Loader → ℕ → Text → SectionType → Tree → Option Tree
unfolding new_section has_label insert_section
add_section e p label type t = elim (get_elem? t.heap p) [
  | none ↦ none
  | some s ↦
      if has_label label s.sections t.heap
      then none
      else some (record t {
        heap =
            set (t.heap ++ new_section label type (some p) ∷ []) p
              (record s { sections = insert_section e label (length t.heap) s.sections t.heap });
      })
]

-- ConfigSection::AddItem
unfoldable pub add_item : ℕ → Item → Bool → Tree → Option Tree
unfolding has_item
add_item p i is_name t = elim (get_elem? t.heap p) [
  | none ↦ none
  | some s ↦
      if has_item i.label s.items || (is_name && elim s.name_item [ none ↦ false | some l ↦ true ])
      then none
      else some (record t {
        heap = set t.heap p (record s {
          items = s.items ++ i ∷ [];
          name_item = if is_name then some i.label else s.name_item;
        });
      })
]

-- what is declared, if it is, is well-formed
pub data Declared : Option Tree → Type 0 where
  refused : Declared none
  declared : (t : Tree) → IsTree t → Declared (some t)

unless-Declared : (b : Bool) (t : Tree) → IsTree t → Declared (if b then none else some t)
unless-Declared true t w = refused
unless-Declared false t w = declared t w

pub empty-IsHeap : IsHeap []
empty-IsHeap = record { all_fit = λ i s e. absurd (omega (arith, lt_of_get [] i e)) }

pub add_head-Declared :
    (e : Loader) (label : Text) (type : SectionType) (t : Tree)
    → IsTree t
    → Declared (add_head e label type t)
unfolding add_head new_section
add_head-Declared e label type t w = unless-Declared _ _ (record {
  heap_ok = IsHeap-append t.heap (new_section label type none) w.heap_ok refl;
  heads_ok =
      subst (λ m. all (λ k. ltb k m) (insert_section e label (length t.heap) t.heads t.heap) ≡ true)
        (sym (length-append t.heap (new_section label type none ∷ [])))
        (insert_section-all e (λ k. ltb k (length t.heap + 1)) label (length t.heap) t.heads t.heap
          (ground arith)
          (below_mono (length t.heap) (length t.heap + 1) t.heads (omega arith) w.heads_ok));
})

pub add_section-Declared :
    (e : Loader) (p : ℕ) (label : Text) (type : SectionType) (t : Tree)
    → IsTree t
    → Declared (add_section e p label type t)
unfolding add_section new_section
add_section-Declared e p label type t w = in_section (get_elem? t.heap p) refl
  where
    grown : Heap
    grown = t.heap ++ new_section label type (some p) ∷ []

    size : length grown ≡ length t.heap + 1
    size = length-append t.heap (new_section label type (some p) ∷ [])

    bigger : p < length t.heap → IsTree (record t { heap = grown })
    bigger l = record {
      heap_ok =
          IsHeap-append t.heap (new_section label type (some p)) w.heap_ok (ground (arith, l));
      heads_ok =
          subst (λ m. all (λ k. ltb k m) t.heads ≡ true) (sym size)
            (below_mono (length t.heap) (length t.heap + 1) t.heads (omega arith) w.heads_ok);
    }

    in_section :
        (o : Option Section)
        → get_elem? t.heap p ≡ o
        → Declared (elim o [
          | none ↦ none
          | some s ↦
              if has_label label s.sections t.heap
              then none
              else some (record t {
                heap = set grown p (record s {
                  sections = insert_section e label (length t.heap) s.sections t.heap;
                });
              })
        ])
    in_section none d = refused
    in_section (some s) d =
        let l = lt_of_get t.heap p d in
        let f =
          fits_mono (length t.heap) (length t.heap + 1) p s (omega arith)
            (w.heap_ok.all_fit p s d) in
        unless-Declared _ _ (
          IsTree-set (record t { heap = grown }) p
            (record s { sections = insert_section e label (length t.heap) s.sections t.heap })
            (bigger l)
            (subst
              (λ m.
                fits m p
                  (record s { sections = insert_section e label (length t.heap) s.sections t.heap })
                ≡ true)
              (sym size)
              (ground (
                arith,
                f,
                insert_section-all e (between p (length t.heap + 1)) label (length t.heap)
                    s.sections t.heap (ground (arith, l)),
              ))))

pub add_item-Declared :
    (p : ℕ) (i : Item) (is_name : Bool) (t : Tree) → IsTree t → Declared (add_item p i is_name t)
unfolding add_item
add_item-Declared p i is_name t w = in_section (get_elem? t.heap p) refl
  where
    in_section :
        (o : Option Section)
        → get_elem? t.heap p ≡ o
        → Declared (elim o [
          | none ↦ none
          | some s ↦
              if has_item i.label s.items
                || (is_name && elim s.name_item [ none ↦ false | some l ↦ true ])
              then none
              else some (record t {
                heap = set t.heap p (record s {
                  items = s.items ++ i ∷ [];
                  name_item = if is_name then some i.label else s.name_item;
                });
              })
        ])
    in_section none d = refused
    in_section (some s) d = unless-Declared _ _ (IsTree-set t p _ w (w.heap_ok.all_fit p s d))
