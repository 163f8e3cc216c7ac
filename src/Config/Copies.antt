-- ===== src/Config/Copies.antt =====
-- The copy constructor of ConfigSection in src/core/config.cpp.
use minbif.Prelude.{
  ℕ, zero, suc, ◌+◌, ◌≤◌, ◌<◌, ◌≡◌, refl, sym, subst, ◌∙◌, true, List, [], ◌∷◌, ◌++◌, map, some,
  length, length-append, get_elem?, set, all, arith,
}
use minbif.Result.{Result}
use minbif.Config.Tree.{Section, Heap, Loader, clone, copy_all, copy_section}
use minbif.Config.Shape.{
  Ends, ends, Ends-then, section_at-Ends, between, is_below, is_below_mono, fits, IsHeap,
  IsHeap-set, IsHeap-append, length-set, some_inj, get-set, get-set_other, get-append,
}

-- All that is in the first list of sections is in the second, at its place.
pub record IsPrefix (h g : Heap) : Type 0 where
  pub not_shorter : length h ≤ length g
  pub kept : (i : ℕ) → i < length h → get_elem? g i ≡ get_elem? h i

pub IsPrefix-refl : (h : Heap) → IsPrefix h h
IsPrefix-refl h = record { not_shorter = omega arith; kept = λ i l. refl }

IsPrefix-trans : (a b c : Heap) → IsPrefix a b → IsPrefix b c → IsPrefix a c
IsPrefix-trans a b c u v = record {
  not_shorter = omega (arith, u.not_shorter, v.not_shorter);
  kept = λ i l. v.kept i (omega (arith, u.not_shorter)) ∙ u.kept i l;
}

IsPrefix-append : (h : Heap) (v : Section) → IsPrefix h (h ++ v ∷ [])
IsPrefix-append h v = record {
  not_shorter = omega (arith, length-append h (v ∷ []));
  kept = λ i l. get-append h (v ∷ []) i l;
}

IsPrefix-set :
    (h g : Heap) (p : ℕ) (v : Section) → length h ≤ p → IsPrefix h g → IsPrefix h (set g p v)
IsPrefix-set h g p v l u = record {
  not_shorter = subst (λ m. length h ≤ m) (sym (length-set g p v)) u.not_shorter;
  kept = λ i b. get-set_other g p i v (ground arith) ∙ u.kept i b;
}

module _ (e : Loader) (base : Heap) (w : IsHeap base) where
  -- a copy at the end of some sections, with its own behind it
  abbrev pub Copied : Heap → ℕ × Heap → Type 0
  Copied h r =
      (r.0 ≡ length h)
      × (r.0 < length r.1)
      × IsHeap r.1
      × IsPrefix h r.1
      × ((o : Section) → get_elem? r.1 r.0 ≡ some o → is_below (length h) o.parent ≡ true)

  abbrev pub CopiedAll : ℕ → Heap → List ℕ × Heap → Type 0
  CopiedAll i h r = (all (between i (length r.1)) r.0 ≡ true) × IsHeap r.1 × IsPrefix h r.1

  copy_all-Ends :
      (f : ℕ → Heap → Result (ℕ × Heap)) (p : ℕ)
      → ((k : ℕ) (h : Heap)
          → between p (length base) k ≡ true
          → IsHeap h
          → IsPrefix base h
          → Ends (Copied h) (f k h))
      → (ks : List ℕ) (i : ℕ) (h : Heap) → all (between p (length base)) ks ≡ true
      → i < length h
      → IsHeap h
      → IsPrefix base h
      → Ends (CopiedAll i h) (copy_all f ks h)
  unfolding copy_all
  copy_all-Ends f p step [] i h a l u b = ends ([], h) (refl, u, IsPrefix-refl h)
  copy_all-Ends f p step (k ∷ ks) i h a l u b = Ends-then (step k h (ground arith) u b) λ r v.
      let g = r.1 in
      let (c_eq, c_lt, g_heap, g_pre, c_up) = v in
      Ends-then
        (copy_all-Ends f p step ks i g (ground arith) (omega (arith, g_pre.not_shorter)) g_heap
          (IsPrefix-trans base h g b g_pre))
        λ x y.
          let (cs_fit, x_heap, x_pre) = y in
          ends (r.0 ∷ x.0, x.1)
            (
              ground (arith, c_eq, c_lt, x_pre.not_shorter, cs_fit, l),
              x_heap,
              IsPrefix-trans h g x.1 g_pre x_pre,
            )

  pub copy_section-Ends :
      (fuel p : ℕ) (h : Heap)
      → length base < fuel + p
      → p < length base
      → IsHeap h
      → IsPrefix base h
      → Ends (Copied h) (copy_section e fuel p h)
  unfolding copy_section
  copy_section-Ends zero p h l b u pre = absurd (omega arith)
  copy_section-Ends (suc fuel) p h l b u pre =
      Ends-then (section_at-Ends p h (omega (arith, pre.not_shorter))) λ s d.
        let made = record s { name = []; items = map (clone e) s.items; sections = [] } in
        let own : fits (length base) p s ≡ true = w.all_fit p s (sym (pre.kept p b) ∙ d) in
        let up : is_below (length h) s.parent ≡ true = ground (arith, u.all_fit p s d) in
        let new_heap : IsHeap (h ++ made ∷ []) =
          IsHeap-append h made u
            (ground (arith, is_below_mono (length h) (suc (length h)) s.parent (omega arith) up)) in
        Ends-then
          (copy_all-Ends (copy_section e fuel) p
            (λ k g t v pre'.
              copy_section-Ends fuel k g (ground (arith, t)) (ground (arith, t)) v pre')
            s.sections (length h) (h ++ made ∷ []) (ground (arith, own))
            (omega (arith, length-append h (made ∷ []))) new_heap
            (IsPrefix-trans base h (h ++ made ∷ []) pre (IsPrefix-append h made)))
          λ r y.
            let (cs_fit, g_heap, g_pre) = y in
            let longer : length h < length r.1 =
              omega (arith, g_pre.not_shorter, length-append h (made ∷ [])) in
            let v = record made { sections = r.0 } in
            ends (length h, set r.1 (length h) v)
              (
                refl,
                subst (λ m. length h < m) (sym (length-set r.1 (length h) v)) longer,
                IsHeap-set r.1 (length h) v g_heap (
                    ground (
                      arith,
                      cs_fit,
                      is_below_mono (length h) (length r.1) s.parent (omega arith) up,
                    )),
                IsPrefix-set h r.1 (length h) v (omega arith)
                    (IsPrefix-trans h (h ++ made ∷ []) r.1 (IsPrefix-append h made) g_pre),
                λ o t.
                    subst (λ (x : Section). is_below (length h) x.parent ≡ true)
                      (some_inj v o (sym (get-set r.1 (length h) v longer) ∙ t)) up,
              )
