-- ===== src/Config/Lines.antt =====
-- The lines of a file, in MyConfig::Load of src/core/config.cpp, and the shape of the sections.
use minbif.Prelude.{
  ℕ, ◌≤◌, ◌≡◌, refl, sym, subst, Bool, true, List, [], ◌∷◌, Option, none, some, Text, length,
  get_elem?, set, all, ltb, arith,
}
use minbif.Result.{ok}
use minbif.Config.Tree.{Section, Tree, Loader}
use minbif.Config.Load.{
  Progress, complain, with_heap, siblings, set_section_item, give_value, value_line, end_line,
}
use minbif.Config.Shape.{
  Ends, ends, Ends-then, section_at-Ends, is_below, fits, IsHeap, IsHeap-set, length-set,
}
use minbif.Config.Walks.{if-Ends}

-- The sections are well-formed, and those of the first level stand in the list.
pub record IsTree (t : Tree) : Type 0 where
  pub heap_ok : IsHeap t.heap
  pub heads_ok : all (λ k. ltb k (length t.heap)) t.heads ≡ true

-- So is the section that the loop is in.
pub record IsGoing (r : Progress) : Type 0 where
  pub tree_ok : IsTree r.tree
  pub section_ok : is_below (length r.tree.heap) r.section ≡ true

pub below_mono :
    (n m : ℕ) (ks : List ℕ) → n ≤ m → all (λ k. ltb k n) ks ≡ true → all (λ k. ltb k m) ks ≡ true
below_mono n m [] l h = refl
below_mono n m (k ∷ ks) l h = ground (arith, below_mono n m ks l)

pub complain-Ends : (r : Progress) → IsGoing r → Ends IsGoing (complain r)
unfolding complain
complain-Ends r w = ends _ (record { tree_ok = w.tree_ok; section_ok = w.section_ok })

-- a section that is written has the pointers that it had
pub IsTree-set :
    (t : Tree) (p : ℕ) (v : Section)
    → IsTree t
    → fits (length t.heap) p v ≡ true
    → IsTree (record t { heap = set t.heap p v })
IsTree-set t p v w f = record {
  heap_ok = IsHeap-set t.heap p v w.heap_ok f;
  heads_ok =
      subst (λ m. all (λ k. ltb k m) t.heads ≡ true) (sym (length-set t.heap p v)) w.heads_ok;
}

pub IsGoing-set :
    (r : Progress) (b : Bool) (p : ℕ) (v : Section)
    → IsGoing r
    → fits (length r.tree.heap) p v ≡ true
    → IsGoing (record (with_heap (set r.tree.heap p v) r) { error = b })
IsGoing-set r b p v w f = record {
  tree_ok = IsTree-set r.tree p v w.tree_ok f;
  section_ok =
      subst (λ m. is_below m r.section ≡ true) (sym (length-set r.tree.heap p v)) w.section_ok;
}

module _ (e : Loader) where
  siblings-Ends :
      (s : Section) (t : Tree)
      → is_below (length t.heap) s.parent ≡ true
      → Ends (λ (ks : List ℕ). Unit {0}) (siblings s t)
  unfolding siblings
  siblings-Ends s t h = by_parent s.parent h
    where
      by_parent :
          (o : Option ℕ)
          → is_below (length t.heap) o ≡ true
          → Ends (λ (ks : List ℕ). Unit {0}) (siblings (record s { parent = o }) t)
      by_parent none h = ends t.heads tt
      by_parent (some p) h =
          Ends-then (section_at-Ends p t.heap (ground arith)) λ q d. ends q.sections tt

  named-Ends :
      (o : Option ℕ) (r done : Progress)
      → IsGoing r
      → IsGoing done
      → Ends IsGoing (elim o [ none ↦ ok done | some other ↦ complain r ])
  named-Ends none r done w v = ends done v
  named-Ends (some other) r done w v = complain-Ends r w

  give_value-Ends :
      (p : ℕ) (s : Section) (label value : Text) (r : Progress)
      → get_elem? r.tree.heap p ≡ some s
      → IsGoing r
      → Ends IsGoing (give_value e p s label value r)
  unfolding give_value set_section_item
  give_value-Ends p s label value r d w =
      let f = w.tree_ok.heap_ok.all_fit p s d in
      if-Ends _
        (Ends-then (siblings-Ends s r.tree (ground (arith, f)))
          λ ks u. named-Ends _ r _ w (IsGoing-set r _ p _ w f))
        (ends _ (IsGoing-set r _ p _ w f))

  pub value_line-Ends :
      (line : Text) (r : Progress) → IsGoing r → Ends IsGoing (value_line e line r)
  unfolding value_line
  value_line-Ends line r w = by_section r.section w
    where
      by_section :
          (o : Option ℕ)
          → IsGoing (record r { section = o })
          → Ends IsGoing (value_line e line (record r { section = o }))
      by_section none w = complain-Ends _ w
      by_section (some p) w =
          Ends-then (section_at-Ends p r.tree.heap (ground (arith, w.section_ok)))
            λ s d. if-Ends _ (complain-Ends _ w) (give_value-Ends p s _ _ _ d w)

  pub end_line-Ends : (r : Progress) → IsGoing r → Ends IsGoing (end_line r)
  unfolding end_line
  end_line-Ends r w = by_section r.section w
    where
      by_section :
          (o : Option ℕ)
          → IsGoing (record r { section = o })
          → Ends IsGoing (end_line (record r { section = o }))
      by_section none w = complain-Ends _ w
      by_section (some p) w =
          Ends-then (section_at-Ends p r.tree.heap (ground (arith, w.section_ok))) λ s d.
            let f = w.tree_ok.heap_ok.all_fit p s d in
            ends _ (record { tree_ok = w.tree_ok; section_ok = ground (arith, f) })
