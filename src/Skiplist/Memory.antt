-- ===== src/Skiplist/Memory.antt =====
-- Laws of the memory that skiplist.c writes: what stands where after a write of a node, of one of
-- its levels and of its `backward`.
use quick.Prelude.{
  length, ◌+◌, ◌≤◌, length-set, Bool-cases, inr, inl, Option-cases, ◌≢◌, ℕ, zero, suc, ◌<◌, ◌≡◌,
  refl, sym, ap, ◌∙◌, Option, none, some, List, [], ◌∷◌, if◌then◌else◌, arith, get_elem?, set, ◌==◌,
  ◌&&◌, false,
}
use quick.Skiplist.Objects.{Obj}
use quick.Skiplist.Nodes.{
  Garbage, first_levels, clear_levels, Address, Level, level, Node, Heap, get_level, write,
  create_node, set_level, set_backward,
}
use quick.Skiplist.Cells.{Info, info, info_of}

get_elem?-first_levels :
    (n i : ℕ) (f : ℕ → Level) → i < n → get_elem? (first_levels n f) i ≡ some (f i)
get_elem?-first_levels zero i f lt = absurd (omega arith)
get_elem?-first_levels (suc n) zero f lt = refl
get_elem?-first_levels (suc n) (suc i) f lt =
    get_elem?-first_levels n i (λ j. f (suc j)) (omega arith)

length-first_levels : (n : ℕ) (f : ℕ → Level) → length (first_levels n f) ≡ n
length-first_levels zero f = refl
length-first_levels (suc n) f = ap suc (length-first_levels n (λ i. f (suc i)))

module _ {A : Type 0} where
  pub get_elem?-set :
      (xs : List A) (i j : ℕ) (x old : A)
      → get_elem? xs i ≡ some old
      → get_elem? (set xs i x) j ≡ (if j == i then some x else get_elem? xs j)
  get_elem?-set [] i j x old e = cc
  get_elem?-set (y ∷ xs) zero zero x old e = refl
  get_elem?-set (y ∷ xs) zero (suc j) x old e = ground arith
  get_elem?-set (y ∷ xs) (suc i) zero x old e = ground arith
  get_elem?-set (y ∷ xs) (suc i) (suc j) x old e = get_elem?-set xs i j x old e ∙ ground arith

module _ {A : Type 0} (h : Heap A) (p : Address) where
  pub write-same : (b : Option (Node A)) → write h p b p ≡ b
  unfolding write
  write-same b = ground arith

  pub write-other : (b : Option (Node A)) (q : Address) → q ≢ p → write h p b q ≡ h q
  unfolding write
  write-other b q ne = ground arith

  -- A node of which the parts are known.
  pub record Stored (m : Info A) : Type 0 where
    pub node : Node A
    pub found : h p ≡ some node
    pub parts : info_of node ≡ m

  pub node_of : (m : Info A) → info h p ≡ some m → Stored m
  unfolding info
  node_of m e = elim (Option-cases (h p)) [
    | inl z ↦ let none_is : none ≡ some m = sym (rw z refl) ∙ e in cc
    | inr (b, z) ↦
        let same : some (info_of b) ≡ some m = sym (rw z refl) ∙ e in
        record { node = b; found = z; parts = cc }
  ]

  -- What changes when a level is set.
  pub record LevelSet (i : ℕ) (l : Level) : Type 0 where
    pub after : Heap A
    pub runs : set_level p i l h ≡ some after
    pub here : get_level after p i ≡ some l
    pub other_level : (q : Address) (j : ℕ) → j ≢ i → get_level after q j ≡ get_level h q j
    pub other_node : (q : Address) (j : ℕ) → q ≢ p → get_level after q j ≡ get_level h q j
    pub infos_same : (q : Address) → info after q ≡ info h q

  pub set_level-runs : (i : ℕ) (l old : Level) → get_level h p i ≡ some old → LevelSet i l
  unfolding set_level get_level info write
  set_level-runs i l old e = elim (Option-cases (h p)) [
    | inl z ↦ let none_is : none ≡ some old = sym (rw z refl) ∙ e in cc
    | inr (b, z) ↦
        let old_is : get_elem? b.levels i ≡ some old = sym (rw z refl) ∙ e in
        let b' = record b { levels = set b.levels i l } in
        let levels_are : (q : Address) (j : ℕ)
            → get_level (write h p (some b')) q j
              ≡ (if q == p && j == i then some l else get_level h q j) =
          λ q j. elim (Bool-cases (q == p)) [
            | inl same ↦
                let found : h q ≡ some b = ap h (ground arith) ∙ z in
                rw (same, found) (get_elem?-set b.levels i j l old old_is)
            | inr other ↦ rw other refl
          ] in
        record {
          after = write h p (some b');
          runs = rw (z, old_is) refl;
          here = levels_are p i ∙ ground arith;
          other_level = λ q j ne. levels_are q j ∙ ground (arith, ne);
          other_node = λ q j ne. levels_are q j ∙ ground (arith, ne);
          infos_same = λ q. elim (Bool-cases (q == p)) [
            | inl same ↦
                let found : h q ≡ some b = ap h (ground arith) ∙ z in
                rw (same, found)
                  (ap (λ k. some (b.obj, b.score, b.backward, k)) (length-set b.levels i l))
            | inr other ↦ rw other refl
          ];
        }
  ]

  -- What changes when `backward` is set.
  pub record BackwardSet (back : Option Address) (o : Option Obj) (s : A) (k : ℕ) : Type 0 where
    pub after : Heap A
    pub runs : set_backward p back h ≡ some after
    pub levels_same : (q : Address) (j : ℕ) → get_level after q j ≡ get_level h q j
    pub infos_are :
        (q : Address) → info after q ≡ (if q == p then some (o, s, back, k) else info h q)

  pub set_backward-runs :
      (back old : Option Address) (o : Option Obj) (s : A) (k : ℕ)
      → info h p ≡ some (o, s, old, k)
      → BackwardSet back o s k
  unfolding set_backward get_level info write
  set_backward-runs back old o s k e =
      let m = node_of (o, s, old, k) e in
      let with_back : Info A → Option (Info A) = λ (o', s', x, k'). some (o', s', back, k') in
      let b' = record m.node { backward = back } in
      record {
        after = write h p (some b');
        runs = rw (m.found) refl;
        levels_same = λ q j. elim (Bool-cases (q == p)) [
          | inl same ↦
              let found : h q ≡ some m.node = ap h (ground arith) ∙ m.found in rw (same, found) refl
          | inr other ↦ rw other refl
        ];
        infos_are = λ q. elim (Bool-cases (q == p)) [
          | inl same ↦ rw same (ap with_back m.parts)
          | inr other ↦ rw other refl
        ];
      }

  -- A new node.
  pub levels-create :
      (raw : Garbage) (n : ℕ) (s : A) (o : Option Obj) (q : Address) (j : ℕ)
      → j < n
      → get_level (write h p (some (create_node raw n s o))) q j
        ≡ (if q == p then some (raw.level_at j) else get_level h q j)
  unfolding get_level write
  levels-create raw n s o q j lt = elim (Bool-cases (q == p)) [
    | inl same ↦ rw same (get_elem?-first_levels n j raw.level_at lt)
    | inr other ↦ rw other refl
  ]

  pub levels-create_other :
      (raw : Garbage) (n : ℕ) (s : A) (o : Option Obj) (q : Address) (j : ℕ)
      → q ≢ p
      → get_level (write h p (some (create_node raw n s o))) q j ≡ get_level h q j
  unfolding get_level write
  levels-create_other raw n s o q j ne =
      let other : (q == p) ≡ false = ground arith in rw other refl

  pub info-create :
      (raw : Garbage) (n : ℕ) (s : A) (o : Option Obj) (q : Address)
      → info (write h p (some (create_node raw n s o))) q
        ≡ (if q == p then some (o, s, raw.backward, n) else info h q)
  unfolding info write
  info-create raw n s o q = elim (Bool-cases (q == p)) [
    | inl same ↦
        rw same (ap (λ k. some (o, s, raw.backward, k)) (length-first_levels n raw.level_at))
    | inr other ↦ rw other refl
  ]

module _ {A : Type 0} where
  -- The levels from `j` on have been cleared, and nothing else has changed.
  pub record Cleared (h : Heap A) (header n j : ℕ) : Type 0 where
    pub after : Heap A
    pub runs : clear_levels n j header h ≡ some after
    pub clear : (i : ℕ) → j ≤ i → i < j + n → get_level after header i ≡ some (level none 0)
    pub other_level : (q : Address) (i : ℕ) → i < j → get_level after q i ≡ get_level h q i
    pub infos_same : (q : Address) → info after q ≡ info h q

  pub clear_levels_lem :
      (h : Heap A) (header n j : ℕ)
      → ((i : ℕ) → j ≤ i → i < j + n → (l : Level) × (get_level h header i ≡ some l))
      → Cleared h header n j
  unfolding clear_levels
  clear_levels_lem h header zero j there = record {
    after = h;
    runs = refl;
    clear = λ i le lt. absurd (omega arith);
    other_level = λ q i lt. refl;
    infos_same = λ q. refl;
  }
  clear_levels_lem h header (suc n) j there =
      let (old, e) = there j (omega arith) (omega arith) in
      let t = set_level-runs h header j (level none 0) old e in
      let r = clear_levels_lem t.after header n (suc j) (λ i le lt.
        let (l, f) = there i (omega arith) (omega arith) in
        (l, t.other_level header i (omega arith) ∙ f)) in
      record {
        after = r.after;
        runs = rw (t.runs) r.runs;
        clear = λ i le lt. elim (Bool-cases (i == j)) [
          | inl same ↦
              let at_j : i ≡ j = ground arith in
              r.other_level header i (omega arith) ∙ ap (get_level t.after header) at_j ∙ t.here
          | inr other ↦ r.clear i (ground arith) (omega arith)
        ];
        other_level = λ q i lt. r.other_level q i (omega arith) ∙ t.other_level q i (omega arith);
        infos_same = λ q. r.infos_same q ∙ t.infos_same q;
      }
