-- ===== src/Skiplist/Linking.antt =====
-- The last loop of `slInsert`, over the levels above the new node: what stands on each level of each
-- node behind it. Places on the trail.
use quick.Prelude.{
  ℕ, zero, suc, ◌+◌, ◌≤◌, ◌<◌, ◌≡◌, ◌≢◌, refl, sym, ap, ap₂, ◌∙◌, Option, some, arith, ◌⊎◌, inl,
  inr, Bool-cases, ◌==◌,
}
use quick.Skiplist.Nodes.{Address, Level, level, Heap, get_level, add32}
use quick.Skiplist.Search.{Trail}
use quick.Skiplist.Insert.{widen}
use quick.Skiplist.Cells.{info}
use quick.Skiplist.Memory.{set_level-runs}

-- A level outside the ones of the loop, and a node that is not on the trail there.
abbrev pub Outside : ℕ → ℕ → ℕ → Type 0
Outside i k j = (j < i) ⊎ (i + k ≤ j)

pub Outside-suc : (i k j : ℕ) → Outside i (suc k) j → Outside (suc i) k j
Outside-suc i k j (inl lt) = inl (omega arith)
Outside-suc i k j (inr le) = inr (omega arith)

pub Outside-other : (i k j : ℕ) → Outside i (suc k) j → j ≢ i
Outside-other i k j (inl lt) e = omega (arith, e)
Outside-other i k j (inr le) e = omega (arith, e)

abbrev pub OffTrail : Trail → ℕ → Address → Type 0
OffTrail trail j q = (u : Address) (r : ℕ) → trail j ≡ some (u, r) → q ≢ u

-- The node to change on a level, and what the level holds.
pub record Place {A : Type 0} (trail : Trail) (h : Heap A) (j : ℕ) (u : Address) (r : ℕ) (l : Level)
    : Type 0 where
  pub entry : trail j ≡ some (u, r)
  pub holds : get_level h u j ≡ some l

pub record Placed {A : Type 0} (trail : Trail) (h : Heap A) (j : ℕ) : Type 0 where
  pub node : Address
  pub rank : ℕ
  pub old : Level
  pub place : Place trail h j node rank old

module _ {A : Type 0} (trail : Trail) where
  -- A place is still there where its level has not changed.
  pub move_place :
      (h g : Heap A) (j : ℕ) (u : Address) (r : ℕ) (l : Level)
      → get_level g u j ≡ get_level h u j
      → Place trail h j u r l
      → Place trail g j u r l
  move_place h g j u r l same p = record { entry = p.entry; holds = same ∙ p.holds }

  pub move-Placed :
      (h g : Heap A) (j : ℕ)
      → ((u : Address) (r : ℕ) → trail j ≡ some (u, r) → get_level g u j ≡ get_level h u j)
      → Placed trail h j
      → Placed trail g j
  move-Placed h g j same p = record {
    node = p.node;
    rank = p.rank;
    old = p.old;
    place = move_place h g j p.node p.rank p.old (same p.node p.rank p.place.entry) p.place;
  }

  -- There is one place on a level.
  pub one_place :
      (h : Heap A) (i j : ℕ) (u u' : Address) (r r' : ℕ) (l l' : Level)
      → i ≡ j
      → Place trail h i u r l
      → Place trail h j u' r' l'
      → (u ≡ u') × (r ≡ r') × (l ≡ l')
  one_place h i j u u' r r' l l' here p p' =
      let entries : ◌≡◌ {A = Option (Address × ℕ)} (some (u, r)) (some (u', r')) =
        sym p.entry ∙ ap trail here ∙ p'.entry in
      let pairs : ◌≡◌ {A = Address × ℕ} (u, r) (u', r') = cc in
      let nodes : u ≡ u' = ap (λ t. t.0) pairs in
      let ranks : r ≡ r' = ap (λ t. t.1) pairs in
      let levels : some l ≡ some l' =
        sym p.holds ∙ ap₂ (λ q n. get_level h q n) nodes here ∙ p'.holds in
      (nodes, ranks, cc)

  pub record Widened (h : Heap A) (i k : ℕ) : Type 0 where
    pub after : Heap A
    pub runs : widen k i trail h ≡ some after
    pub wider :
        (j : ℕ) (u : Address) (r : ℕ) (l : Level)
        → i ≤ j
        → j < i + k
        → Place trail h j u r l
        → get_level after u j ≡ some (level l.forward (add32 l.span 1))
    pub other_node :
        (q : Address) (j : ℕ) → OffTrail trail j q → get_level after q j ≡ get_level h q j
    pub other_level : (q : Address) (j : ℕ) → Outside i k j → get_level after q j ≡ get_level h q j
    pub infos_same : (q : Address) → info after q ≡ info h q

  pub widen_lem :
      (h : Heap A) (i k : ℕ) → ((j : ℕ) → i ≤ j → j < i + k → Placed trail h j) → Widened h i k
  unfolding widen
  widen_lem h i zero placed = record {
    after = h;
    runs = refl;
    wider = λ j u r l le lt p. absurd (omega arith);
    other_node = λ q j off. refl;
    other_level = λ q j out. refl;
    infos_same = λ q. refl;
  }
  widen_lem h i (suc k) placed =
      let p = placed i (omega arith) (omega arith) in
      let wide = λ (l : Level). level l.forward (add32 l.span 1) in
      let t = set_level-runs h p.node i (wide p.old) p.old p.place.holds in
      let rest = widen_lem t.after (suc i) k (λ j le lt.
        move-Placed h t.after j (λ u r e. t.other_level u j (λ e. omega (arith, e)))
          (placed j (omega arith) (omega arith))) in
      record {
        after = rest.after;
        runs = rw (p.place.entry, p.place.holds, t.runs) rest.runs;
        wider = λ j u r l le lt p'. elim (Bool-cases (j == i)) [
          | inl same ↦
              let here : j ≡ i = ground arith in
              let one = one_place h j i u p.node r p.rank l p.old here p' p.place in
              rest.other_level u j (inl (omega (arith, here)))
              ∙ ap₂ (λ q n. get_level t.after q n) one.0 here
              ∙ t.here
              ∙ ap (λ m. some (wide m)) (sym one.2)
          | inr other ↦
              rest.wider j u r l (ground arith) (omega arith)
                (move_place h t.after j u r l (t.other_level u j (ground arith)) p')
        ];
        other_node = λ q j off. rest.other_node q j off ∙ elim (Bool-cases (j == i)) [
          | inl same ↦
              let here : j ≡ i = ground arith in
              t.other_node q j (off p.node p.rank (ap trail here ∙ p.place.entry))
          | inr other ↦ t.other_level q j (ground arith)
        ];
        other_level = λ q j out.
            rest.other_level q j (Outside-suc i k j out)
            ∙ t.other_level q j (Outside-other i k j out);
        infos_same = λ q. rest.infos_same q ∙ t.infos_same q;
      }
