-- ===== src/Config/Total.antt =====
-- MyConfig::Load of src/core/config.cpp, to its end.
use minbif.Prelude.{
  ℕ, suc, ◌<◌, ◌≡◌, refl, sym, subst, Bool, true, false, not, ◌||◌, List, none, Text, length, all,
  any, ltb, arith,
}
use minbif.Result.{Result, ok}
use minbif.Config.Tree.{
  Tree, Loader, clean_section, clean_tree, find_empty_section, find_empty_tree,
}
use minbif.Config.Load.{Progress, load, load_lines, is_in_section}
use minbif.Config.Shape.{Ends, ends, Ends-then}
use minbif.Config.Walks.{
  missing, clean_all-Ends, clean_section-Ends, find_all-Ends, find_empty_section-Ends,
}
use minbif.Config.Lines.{IsTree}
use minbif.Config.Opening.{load_lines-Ends}

below_bound : (n k : ℕ) → ltb k n ≡ true → k < n
below_bound n k h = ground arith

clean_tree-Ends : (t : Tree) → IsTree t → Ends IsTree (clean_tree t)
unfolding clean_tree
clean_tree-Ends t w =
    let n = length t.heap in
    Ends-then
      (clean_all-Ends n (λ k. ltb k n) (below_bound n) (clean_section (suc n))
        (λ k h b u. clean_section-Ends n (suc n) k h (omega arith) (below_bound n k b) u) t.heads
        t.heap w.heads_ok (w.heap_ok, refl))
      λ r v. ends _ (record {
        heap_ok = v.1.0;
        heads_ok = subst (λ m. all (λ k. ltb k m) r.0 ≡ true) (sym v.1.1) v.0;
      })

-- a section of the first level misses
abbrev pub misses_one : Tree → Bool
misses_one t = any (missing t.heap) t.heads

find_empty_tree-Ends :
    (e : Loader) (t : Tree)
    → IsTree t
    → Ends (λ (r : Bool × Tree). (r.0 ≡ misses_one t) × IsTree r.1) (find_empty_tree e t)
unfolding find_empty_tree
find_empty_tree-Ends e t w =
    let n = length t.heap in
    Ends-then
      (find_all-Ends n (λ k. ltb k n) (below_bound n) (find_empty_section e (suc n))
        (λ k h b u. find_empty_section-Ends n e (suc n) k h (omega arith) (below_bound n k b) u)
        t.heads t.heap w.heads_ok (w.heap_ok, refl))
      λ r v. ends _ (
        v.0,
        record {
          heap_ok = v.1.0;
          heads_ok = subst (λ m. all (λ k. ltb k m) t.heads ≡ true) (sym v.1.1) w.heads_ok;
        },
      )

result_of :
    {A : Type 0} {good : A → Type 0} {x : Result A} → Ends good x → (a : A) × (x ≡ ok a) × good a
result_of (ends a h) = (a, refl, h)

-- Load from its parts
load_parts :
    (e : Loader) (lines : List Text) (t u : Tree) (r : Progress) (x : Bool × Tree) (m : Bool)
    → clean_tree t ≡ ok u
    → load_lines e lines (record { error = false; section = none; tree = u }) ≡ ok r
    → find_empty_tree e r.tree ≡ ok x
    → x.0 ≡ m
    → load e lines t
      ≡ ok (
        not (r.error || (is_in_section r.section || m)),
        record x.1 { loaded = x.1.loaded || not (r.error || (is_in_section r.section || m)) },
      )
unfolding load
load_parts e lines t u r x m a b c d = rw (a, b, c, d) refl

-- On sections that point to each other, those of a section standing behind it, Load ends, whatever the
-- file: it follows no pointer to nothing, and leaves sections that point to each other in the same way.
-- It succeeds exactly when no line is an error, no section is open at the end, and no section of the
-- first level misses: what misses in a section, items and sections, does not count.
pub load_lem :
    (e : Loader) (lines : List Text) (t : Tree)
    → IsTree t
    → (u : Tree) × (r : Progress) × (s : Tree) × (clean_tree t ≡ ok u)
      × (load_lines e lines (record { error = false; section = none; tree = u }) ≡ ok r)
      × (load e lines t ≡ ok (not (r.error || (is_in_section r.section || misses_one r.tree)), s))
      × IsTree s
load_lem e lines t w =
    let (u, a, v) = result_of (clean_tree-Ends t w) in
    let (r, b, g) = result_of (
      load_lines-Ends e lines (record { error = false; section = none; tree = u })
        (record { tree_ok = v; section_ok = refl })) in
    let (x, c, y) = result_of (find_empty_tree-Ends e r.tree g.tree_ok) in
    let done = not (r.error || (is_in_section r.section || misses_one r.tree)) in
    (
      u,
      r,
      record x.1 { loaded = x.1.loaded || done },
      a,
      b,
      load_parts e lines t u r x (misses_one r.tree) a b c y.0,
      record { heap_ok = y.1.heap_ok; heads_ok = y.1.heads_ok },
    )
