-- ===== src/Config/Opening.antt =====
-- A section that begins, in MyConfig::Load of src/core/config.cpp, and the shape of the sections.
use minbif.Prelude.{
  ℕ, suc, ◌<◌, ◌≡◌, refl, sym, subst, Bool, true, false, not, ◌&&◌, List, [], ◌∷◌, Option, none,
  some, Text, length, get_elem?, set, all, ltb, arith, if◌then◌else◌, text_eq, codes,
}
use minbif.Result.{ok, ◌>>=◌}
use minbif.Token.{skip}
use minbif.Config.Tree.{
  Section, Heap, Tree, Loader, section_at, is_multiple, get_section, insert_section, copy_section,
}
use minbif.Config.Load.{
  Progress, with_heap, add_copy, open_section, section_line, load_line, load_lines, c_str,
}
use minbif.Config.Shape.{
  Ends, ends, Ends-then, section_at-Ends, between, is_below, IsHeap-set, length-set, get-set,
  lt_of_get,
}
use minbif.Config.Walks.{if-Ends}
use minbif.Config.Copies.{IsPrefix-refl, copy_section-Ends}
use minbif.Config.Lines.{
  IsTree, IsGoing, below_mono, IsTree-set, IsGoing-set, value_line-Ends, end_line-Ends,
}

between_below : (i n : ℕ) (ks : List ℕ) → all (between i n) ks ≡ true → all (λ k. ltb k n) ks ≡ true
between_below i n [] h = refl
between_below i n (k ∷ ks) h = ground (arith, between_below i n ks)

module _ (e : Loader) where
  place-all :
      (q : ℕ → Bool) (label : Text) (p k : ℕ) (ks rest : List ℕ) (o : Option Section)
      → q p ≡ true
      → all q (k ∷ ks) ≡ true
      → all q rest ≡ true
      → all q (elim o [
        | none ↦ k ∷ rest
        | some s ↦ if e.less label s.label then p ∷ k ∷ ks else k ∷ rest
      ])
        ≡ true
  place-all q label p k ks rest none a b c = ground arith
  place-all q label p k ks rest (some s) a b c = ground arith

  -- inserting keeps what all sections of a map have
  pub insert_section-all :
      (q : ℕ → Bool) (label : Text) (p : ℕ) (ks : List ℕ) (h : Heap)
      → q p ≡ true
      → all q ks ≡ true
      → all q (insert_section e label p ks h) ≡ true
  unfolding insert_section
  insert_section-all q label p [] h a b = ground (arith, a)
  insert_section-all q label p (k ∷ ks) h a b =
      place-all q label p k ks (insert_section e label p ks h) (get_elem? h k) a b
        (insert_section-all q label p ks h a (ground arith))

  -- a section that is found stands in the map
  abbrev takes : (ℕ → Bool) → Option ℕ → Bool
  takes q none = true
  takes q (some p) = q p

  found-takes :
      (q : ℕ → Bool) (label : Text) (k : ℕ) (rest : Option ℕ) (o : Option Section)
      → q k ≡ true
      → takes q rest ≡ true
      → takes q (elim o [
        | none ↦ rest
        | some s ↦ if text_eq s.label label && not s.copy then some k else rest
      ])
        ≡ true
  found-takes q label k rest none a b = b
  found-takes q label k rest (some s) a b = choose (text_eq s.label label && not s.copy)
    where
      choose : (c : Bool) → takes q (if c then some k else rest) ≡ true
      choose true = a
      choose false = b

  get_section-takes :
      (q : ℕ → Bool) (label : Text) (ks : List ℕ) (h : Heap)
      → all q ks ≡ true
      → takes q (get_section label ks h) ≡ true
  unfolding get_section
  get_section-takes q label [] h a = refl
  get_section-takes q label (k ∷ ks) h a =
      found-takes q label k (get_section label ks h) (get_elem? h k) (ground arith)
        (get_section-takes q label ks h (ground arith))

  add_copy-Ends :
      (c : ℕ) (s : Section) (t : Tree)
      → get_elem? t.heap c ≡ some s
      → is_below c s.parent ≡ true
      → IsTree t
      → Ends (λ (u : Tree). IsTree u × (length u.heap ≡ length t.heap)) (add_copy e c s t)
  unfolding add_copy
  add_copy-Ends c s t d up w = by_parent s.parent up
    where
      l : c < length t.heap
      l = lt_of_get t.heap c d

      by_parent :
          (o : Option ℕ)
          → is_below c o ≡ true
          → Ends
              (λ (u : Tree). IsTree u × (length u.heap ≡ length t.heap))
              (add_copy e c (record s { parent = o }) t)
      by_parent none h = ends _ (
        record {
          heap_ok = w.heap_ok;
          heads_ok =
              insert_section-all (λ k. ltb k (length t.heap)) s.label c t.heads t.heap
                (ground (arith, l)) w.heads_ok;
        },
        refl,
      )
      by_parent (some q) h = Ends-then (section_at-Ends q t.heap (ground (arith, l))) λ o g.
          let f = w.heap_ok.all_fit q o g in
          let v = record o { sections = insert_section e s.label c o.sections t.heap } in
          ends _ (
            IsTree-set t q v w (
                ground (
                  arith,
                  f,
                  insert_section-all (between q (length t.heap)) s.label c o.sections t.heap
                      (ground (arith, l)),
                )),
            length-set t.heap q v,
          )

  copied-Ends :
      (p : ℕ) (r : Progress)
      → IsGoing r
      → p < length r.tree.heap
      → Ends IsGoing (do
        (c, h) ← copy_section e (suc (length r.tree.heap)) p r.tree.heap
        o ← section_at c h
        t ←
            add_copy e c
              (record o { copy = true })
              (record r.tree { heap = set h c (record o { copy = true }) })
        ok (record r { section = some c; tree = t }))
  copied-Ends p r w l =
      Ends-then
        (copy_section-Ends e r.tree.heap w.tree_ok.heap_ok (suc (length r.tree.heap)) p r.tree.heap
          (omega arith) l w.tree_ok.heap_ok (IsPrefix-refl r.tree.heap))
        λ x y.
          let (c_eq, c_lt, g_heap, g_pre, c_up) = y in
          Ends-then (section_at-Ends x.0 x.1 c_lt) λ o d.
            let v = record o { copy = true } in
            let size = length-set x.1 x.0 v in
            let tree : IsTree (record r.tree { heap = set x.1 x.0 v }) = record {
              heap_ok = IsHeap-set x.1 x.0 v g_heap (g_heap.all_fit x.0 o d);
              heads_ok =
                  subst (λ m. all (λ k. ltb k m) r.tree.heads ≡ true) (sym size)
                    (below_mono (length r.tree.heap) (length x.1) r.tree.heads g_pre.not_shorter
                      w.tree_ok.heads_ok);
            } in
            Ends-then
              (add_copy-Ends x.0 v (record r.tree { heap = set x.1 x.0 v }) (get-set x.1 x.0 v c_lt)
                (subst (λ m. is_below m o.parent ≡ true) (sym c_eq) (c_up o d)) tree)
              λ t u. ends _ (record { tree_ok = u.0; section_ok = ground (arith, u.1, size, c_lt) })

  open_section-Ends :
      (p : ℕ) (r : Progress)
      → IsGoing r
      → p < length r.tree.heap
      → Ends IsGoing (open_section e p r)
  unfolding open_section
  open_section-Ends p r w l = Ends-then (section_at-Ends p r.tree.heap l) λ s d.
      let f = w.tree_ok.heap_ok.all_fit p s d in
      let v = record s { found = true } in
      let going : IsGoing (with_heap (set r.tree.heap p v) r) = IsGoing-set r r.error p v w f in
      let there : p < length (set r.tree.heap p v) =
        subst (λ m. p < m) (sym (length-set r.tree.heap p v)) l in
      if-Ends (is_multiple s) (copied-Ends p (with_heap (set r.tree.heap p v) r) going there)
        (ends _ (record { tree_ok = going.tree_ok; section_ok = ground (arith, there) }))

  bounded : Progress → ℕ → Bool
  bounded r k = ltb k (length r.tree.heap)

  found-Ends :
      (o : Option ℕ) (r : Progress)
      → takes (bounded r) o ≡ true
      → IsGoing r
      → Ends IsGoing (elim o [
        | none ↦ ok (record r { error = true; section = none })
        | some p ↦ open_section e p r
      ])
  unfolding bounded
  found-Ends none r b w = ends _ (record { tree_ok = w.tree_ok; section_ok = refl })
  found-Ends (some p) r b w = open_section-Ends p r w (ground arith)

  maps-Ends :
      (o : Option ℕ) (r : Progress)
      → is_below (length r.tree.heap) o ≡ true
      → IsGoing r
      → Ends
          (λ (ks : List ℕ). all (bounded r) ks ≡ true)
          (elim o [
            | none ↦ ok r.tree.heads
            | some p ↦ section_at p r.tree.heap >>= λ s. ok s.sections
          ])
  unfolding bounded
  maps-Ends none r b w = ends r.tree.heads w.tree_ok.heads_ok
  maps-Ends (some p) r b w = Ends-then (section_at-Ends p r.tree.heap (ground arith)) λ s d.
      ends s.sections (
        between_below p (length r.tree.heap) s.sections
          (ground (arith, w.tree_ok.heap_ok.all_fit p s d)))

  section_line-Ends :
      (line : Text) (r : Progress) → IsGoing r → Ends IsGoing (section_line e line r)
  unfolding section_line
  section_line-Ends line r w =
      Ends-then (maps-Ends r.section r w.section_ok w)
        λ ks a. found-Ends _ r (get_section-takes (bounded r) _ ks r.tree.heap a) w

  load_line-Ends : (line : Text) (r : Progress) → IsGoing r → Ends IsGoing (load_line e line r)
  unfolding load_line
  load_line-Ends line r w = if-Ends _ (ends r w) (
      if-Ends _ (value_line-Ends e line r w)
        (if-Ends _ (end_line-Ends e r w) (section_line-Ends line r w)))

  pub load_lines-Ends :
      (lines : List Text) (r : Progress) → IsGoing r → Ends IsGoing (load_lines e lines r)
  unfolding load_lines
  load_lines-Ends [] r w = ends r w
  load_lines-Ends (l ∷ ls) r w =
      Ends-then (load_line-Ends (skip (codes " \t") (c_str l)) r w) (load_lines-Ends ls)
