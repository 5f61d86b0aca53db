-- ===== src/Skiplist/Joining.antt =====
-- The loop of `slInsert` that links the new node: what stands on each level of each node behind it.
use quick.Prelude.{
  ℕ, zero, suc, ◌+◌, ◌≤◌, ◌<◌, ◌≡◌, ◌≢◌, refl, sym, ap, ap₂, ◌∙◌, some, arith, inl, inr, Bool-cases,
  ◌==◌,
}
use quick.Skiplist.Nodes.{Address, Level, level, Heap, get_level, add32, sub32}
use quick.Skiplist.Search.{Trail}
use quick.Skiplist.Insert.{link}
use quick.Skiplist.Cells.{info}
use quick.Skiplist.Memory.{set_level-runs}
use quick.Skiplist.Linking.{
  Outside, Outside-suc, Outside-other, OffTrail, Place, Placed, move_place, move-Placed, one_place,
}

module _ (x rank : ℕ) where
  abbrev x_level : Level → ℕ → Level
  x_level l r = level l.forward (sub32 l.span (sub32 rank r))

  abbrev u_level : ℕ → Level
  u_level r = level (some x) (add32 (sub32 rank r) 1)

-- `x` is the new node, and `rank` its rank less one.
module _ {A : Type 0} (trail : Trail) (x rank : ℕ) where
  pub record Joined (h : Heap A) (i k : ℕ) : Type 0 where
    pub after : Heap A
    pub runs : link k i x rank trail h ≡ some after
    pub new_level :
        (j : ℕ) (u : Address) (r : ℕ) (l : Level)
        → i ≤ j
        → j < i + k
        → Place trail h j u r l
        → get_level after x j ≡ some (level l.forward (sub32 l.span (sub32 rank r)))
    pub before_level :
        (j : ℕ) (u : Address) (r : ℕ) (l : Level)
        → i ≤ j
        → j < i + k
        → Place trail h j u r l
        → get_level after u j ≡ some (level (some x) (add32 (sub32 rank r) 1))
    pub other_node :
        (q : Address) (j : ℕ) → q ≢ x → OffTrail trail j q → get_level after q j ≡ get_level h q j
    pub other_level : (q : Address) (j : ℕ) → Outside i k j → get_level after q j ≡ get_level h q j
    pub infos_same : (q : Address) → info after q ≡ info h q

  -- One round of the loop.
  record Step (h : Heap A) (i : ℕ) (u : Address) (r : ℕ) (l : Level) : Type 0 where
    after : Heap A
    runs : (k : ℕ) → link (suc k) i x rank trail h ≡ link k (suc i) x rank trail after
    new_here : get_level after x i ≡ some (x_level x rank l r)
    before_here : get_level after u i ≡ some (u_level x rank r)
    other_level : (q : Address) (j : ℕ) → j ≢ i → get_level after q j ≡ get_level h q j
    other_node : (q : Address) → q ≢ x → q ≢ u → get_level after q i ≡ get_level h q i
    infos_same : (q : Address) → info after q ≡ info h q

  link-Step :
      (h : Heap A) (i : ℕ) (u : Address) (r : ℕ) (l old : Level)
      → Place trail h i u r l
      → x ≢ u
      → get_level h x i ≡ some old
      → Step h i u r l
  unfolding link
  link-Step h i u r l old p apart room =
      let t1 = set_level-runs h x i (x_level x rank l r) old room in
      let holds1 = t1.other_node u i (λ e. apart (sym e)) ∙ p.holds in
      let t2 = set_level-runs t1.after u i (u_level x rank r) l holds1 in
      record {
        after = t2.after;
        runs = λ k. rw (p.entry, p.holds, t1.runs, t2.runs) refl;
        new_here = t2.other_node x i apart ∙ t1.here;
        before_here = t2.here;
        other_level = λ q j ne. t2.other_level q j ne ∙ t1.other_level q j ne;
        other_node = λ q nx nu. t2.other_node q i nu ∙ t1.other_node q i nx;
        infos_same = λ q. t2.infos_same q ∙ t1.infos_same q;
      }

  pub link_lem :
      (h : Heap A) (i k : ℕ)
      → ((j : ℕ) → i ≤ j → j < i + k → Placed trail h j)
      → ((j : ℕ) → i ≤ j → j < i + k → OffTrail trail j x)
      → ((j : ℕ) → i ≤ j → j < i + k → (l : Level) × (get_level h x j ≡ some l))
      → Joined h i k
  unfolding link
  link_lem h i zero placed off fresh = record {
    after = h;
    runs = refl;
    new_level = λ j u r l le lt p. absurd (omega arith);
    before_level = λ j u r l le lt p. absurd (omega arith);
    other_node = λ q j ne off. refl;
    other_level = λ q j out. refl;
    infos_same = λ q. refl;
  }
  link_lem h i (suc k) placed off fresh =
      let p = placed i (omega arith) (omega arith) in
      let room = fresh i (omega arith) (omega arith) in
      let apart = off i (omega arith) (omega arith) p.node p.rank p.place.entry in
      let t = link-Step h i p.node p.rank p.old room.0 p.place apart room.1 in
      let rest =
        link_lem t.after (suc i) k
          (λ j le lt.
            move-Placed trail h t.after j (λ u r e. t.other_level u j (λ e. omega (arith, e)))
              (placed j (omega arith) (omega arith)))
          (λ j le lt. off j (omega arith) (omega arith))
          (λ j le lt.
            let there = fresh j (omega arith) (omega arith) in
            (there.0, t.other_level x j (λ e. omega (arith, e)) ∙ there.1)) in
      let still : (q : Address) (j : ℕ) → j ≡ i → get_level rest.after q j ≡ get_level t.after q i =
        λ q j here.
          rest.other_level q j (inl (omega (arith, here))) ∙ ap (λ n. get_level t.after q n) here in
      let moved : (j : ℕ) (u : Address) (r : ℕ) (l : Level)
          → j ≢ i
          → Place trail h j u r l
          → Place trail t.after j u r l =
        λ j u r l ne p'. move_place trail h t.after j u r l (t.other_level u j ne) p' in
      record {
        after = rest.after;
        runs = t.runs k ∙ rest.runs;
        new_level = λ j u r l le lt p'. elim (Bool-cases (j == i)) [
          | inl same ↦
              let here : j ≡ i = ground arith in
              let one = one_place trail h j i u p.node r p.rank l p.old here p' p.place in
              still x j here
              ∙ t.new_here
              ∙ ap₂ (λ m n. some (x_level x rank m n)) (sym one.2) (sym one.1)
          | inr other ↦
              rest.new_level j u r l (ground arith) (omega arith) (moved j u r l (ground arith) p')
        ];
        before_level = λ j u r l le lt p'. elim (Bool-cases (j == i)) [
          | inl same ↦
              let here : j ≡ i = ground arith in
              let one = one_place trail h j i u p.node r p.rank l p.old here p' p.place in
              still u j here
              ∙ ap (λ q. get_level t.after q i) one.0
              ∙ t.before_here
              ∙ ap (λ n. some (u_level x rank n)) (sym one.1)
          | inr other ↦
              rest.before_level j u r l (ground arith) (omega arith)
                (moved j u r l (ground arith) p')
        ];
        other_node = λ q j ne off. rest.other_node q j ne off ∙ elim (Bool-cases (j == i)) [
          | inl same ↦
              let here : j ≡ i = ground arith in
              let away = off p.node p.rank (ap trail here ∙ p.place.entry) in
              ap (λ n. get_level t.after q n) here
              ∙ t.other_node q ne away
              ∙ ap (λ n. get_level h q n) (sym here)
          | inr other ↦ t.other_level q j (ground arith)
        ];
        other_level = λ q j out.
            rest.other_level q j (Outside-suc i k j out)
            ∙ t.other_level q j (Outside-other i k j out);
        infos_same = λ q. rest.infos_same q ∙ t.infos_same q;
      }
