-- ===== src/Skiplist/Freeing.antt =====
-- `slFree`.
use quick.Prelude.{
  ℕ, ◌<◌, ◌≡◌, ◌≢◌, refl, sym, subst, ap, ◌∙◌, none, some, [], ◌∷◌, ◌++◌, length, arith,
  append_assoc,
}
use quick.Skiplist.Nodes.{
  Address, level, Heap, SkipList, max_level, get_level, write, free_from, free_list,
}
use quick.Skiplist.Cells.{
  height_of-append, Heights-split, Cells, next_at, gap_at, end_of, height_of, Linked,
}
use quick.Skiplist.Apart.{Absent, Distinct}
use quick.Skiplist.Memory.{write-same, write-other}
use quick.Skiplist.Trails.{Distinct-Absent}
use quick.Skiplist.State.{Represents}
use quick.Skiplist.Splits.{end_of-cell}

module _ {A : Type 0} where
  abbrev Kept : Heap A → Heap A → Cells A → Type 0
  Kept g h [] = Unit
  Kept g h (c ∷ cs) = (g c.at ≡ h c.at) × Kept g h cs

  -- The nodes are no longer in memory.
  abbrev pub Gone : Heap A → Cells A → Type 0
  Gone g [] = Unit
  Gone g (c ∷ cs) = (g c.at ≡ none) × Gone g cs

  Kept-write :
      (g h : Heap A) (x : Address) (cs : Cells A)
      → Absent x cs
      → Kept g h cs
      → Kept (write g x none) h cs
  Kept-write g h x [] away v = tt
  Kept-write g h x (c ∷ cs) away v =
      (write-other g x none c.at away.0 ∙ v.0, Kept-write g h x cs away.1 v.1)

  Kept-same : (h : Heap A) (cs : Cells A) → Kept h h cs
  Kept-same h [] = tt
  Kept-same h (c ∷ cs) = (refl, Kept-same h cs)

  get_level-same :
      (g h : Heap A) (q : Address) (i : ℕ) → g q ≡ h q → get_level g q i ≡ get_level h q i
  unfolding get_level
  get_level-same g h q i e = rw e refl

  record Freed (fuel : ℕ) (g : Heap A) (r : Cells A) : Type 0 where
    after : Heap A
    runs : free_from fuel (next_at 0 r) g ≡ some after
    gone : Gone after r
    kept : (q : Address) → Absent q r → after q ≡ g q

  free_from_lem :
      (h g : Heap A) (header n : ℕ) (d r : Cells A)
      → Linked h header n (d ++ r)
      → Distinct (end_of header d) r
      → Kept g h r
      → Freed (length r) g r
  unfolding free_from
  free_from_lem h g header n d [] v apart kept = record {
    after = g;
    runs = refl;
    gone = tt;
    kept = λ q away. refl;
  }
  free_from_lem h g header n d (c ∷ r) v apart kept =
      let heights = (Heights-split n d (c ∷ r) v.heights).1 in
      let first : next_at 0 (c ∷ r) ≡ some c.at = ground (arith, heights.0) in
      let d' = d ++ (c ∷ []) in
      let split : d ++ (c ∷ r) ≡ d' ++ r = sym (append_assoc d (c ∷ []) r) in
      let ends : end_of header d' ≡ c.at = end_of-cell header d c in
      let tall : 0 < height_of max_level d' =
        omega (arith, heights.0, height_of-append max_level d (c ∷ [])) in
      let here : get_level g c.at 0 ≡ some (level (next_at 0 r) (gap_at 0 r)) =
        get_level-same g h c.at 0 kept.0
        ∙ ap (λ q. get_level h q 0) (sym ends)
        ∙ v.links d' r 0 split (omega (arith, v.at_least)) tall in
      let away = Distinct-Absent c.at r apart.2 in
      let rest =
        free_from_lem h (write g c.at none) header n d' r
          (subst (λ ys. Linked h header n ys) split v)
          (subst (λ a. Distinct a r) (sym ends) apart.2) (Kept-write g h c.at r away kept.1) in
      record {
        after = rest.after;
        runs = rw (first, here) rest.runs;
        gone = (rest.kept c.at away ∙ write-same g c.at none, rest.gone);
        kept = λ q off. rest.kept q off.1 ∙ write-other g c.at none q (λ e. off.0 (sym e));
      }

-- In a list that holds the entries `xs`, `slFree` ends without a fault: the header and the nodes of
-- all entries are no longer in memory, each freed once, and all else is as before.
pub free_list-Gone :
    {A : Type 0} (s : SkipList A) (xs : Cells A)
    → Represents s xs
    → (after : Heap A) × (free_list s ≡ some after)
      × (after s.header ≡ none)
      × Gone after xs
      × ((q : Address) → q ≢ s.header → Absent q xs → after q ≡ s.heap q)
unfolding free_list
free_list-Gone s xs v =
    let l = v.linked in
    let first = l.links [] xs 0 refl (omega (arith, l.at_least)) (omega arith) in
    let away = Distinct-Absent s.header xs v.apart.distinct in
    let t =
      free_from_lem s.heap (write s.heap s.header none) s.header s.level [] xs l v.apart.distinct
        (Kept-write s.heap s.heap s.header xs away (Kept-same s.heap xs)) in
    (
      t.after,
      rw (first, v.count) t.runs,
      t.kept s.header away ∙ write-same s.heap s.header none,
      t.gone,
      λ q ne off. t.kept q off ∙ write-other s.heap s.header none q ne,
    )
