-- ===== src/Skiplist/Unlinking.antt =====
-- The loops of `slDeleteNode`: over the levels of the list, and down from its level.
use quick.Prelude.{
  append-nil, ℕ, zero, suc, ◌+◌, ◌≤◌, ◌<◌, ◌≡◌, ◌≢◌, refl, sym, ap, ap₂, ◌∙◌, Option, none, some,
  arith, inl, inr, Bool-cases, Option-cases, ◌==◌, ◌>>=◌, if◌then◌else◌, [], ◌∷◌,
}
use quick.Skiplist.Nodes.{Address, Level, level, Heap, get_level, set_level, add32, sub32}
use quick.Skiplist.Search.{Trail}
use quick.Skiplist.Delete.{unlink, points_to, lower}
use quick.Skiplist.Cells.{
  find-First, next_at-Low, info, Cells, Linked, Low, Heights, next_at, gap_at,
}
use quick.Skiplist.Memory.{set_level-runs}
use quick.Skiplist.Splits.{next_at-First}
use quick.Skiplist.Linking.{
  Place, OffTrail, Outside, Outside-suc, Outside-other, move_place, one_place,
}

-- The level of a node before `x` when `x` goes.
unfoldable pub cut_level : {A : Type 0} → Address → Heap A → ℕ → Level → Option Level
cut_level x h i l = do
  lx ← if points_to l.forward x then get_level h x i else some l
  some (
      if points_to l.forward x
      then level lx.forward (add32 l.span (sub32 lx.span 1))
      else level l.forward (sub32 l.span 1))

module _ {A : Type 0} (trail : Trail) (x : Address) where
  pub record Cuttable (h : Heap A) (j : ℕ) : Type 0 where
    pub node : Address
    pub rank : ℕ
    pub old : Level
    pub new : Level
    pub place : Place trail h j node rank old
    pub cut_is : cut_level x h j old ≡ some new
    pub apart : node ≢ x

  cut_level-same :
      (h g : Heap A) (j : ℕ) (l : Level)
      → get_level g x j ≡ get_level h x j
      → cut_level x g j l ≡ cut_level x h j l
  unfolding cut_level
  cut_level-same h g j l e = rw e refl

  move-Cuttable :
      (h g : Heap A) (j : ℕ)
      → ((q : Address) → get_level g q j ≡ get_level h q j)
      → Cuttable h j
      → Cuttable g j
  move-Cuttable h g j same p = record {
    node = p.node;
    rank = p.rank;
    old = p.old;
    new = p.new;
    place = move_place trail h g j p.node p.rank p.old (same p.node) p.place;
    cut_is = cut_level-same h g j p.old (same x) ∙ p.cut_is;
    apart = p.apart;
  }

  unlink_step :
      (n i : ℕ) (h h' : Heap A) (u : Address) (r : ℕ) (l m : Level)
      → Place trail h i u r l
      → cut_level x h i l ≡ some m
      → set_level u i m h ≡ some h'
      → unlink (suc n) i x trail h ≡ unlink n (suc i) x trail h'
  unfolding unlink cut_level
  unlink_step n i h h' u r l m p cut sets =
      elim (Option-cases (if points_to l.forward x then get_level h x i else some l)) [
        | inl z ↦ let clash : none ≡ some m = sym (rw z refl) ∙ cut in cc
        | inr (lx, z) ↦
            let found : some (
                  if points_to l.forward x
                  then level lx.forward (add32 l.span (sub32 lx.span 1))
                  else level l.forward (sub32 l.span 1))
                ≡ some m =
              sym (rw z refl) ∙ cut in
            let same : (if points_to l.forward x
                  then level lx.forward (add32 l.span (sub32 lx.span 1))
                  else level l.forward (sub32 l.span 1))
                ≡ m =
              cc in
            rw (p.entry, p.holds, z, same, sets) refl
      ]

  pub record Unlinked (h : Heap A) (i k : ℕ) : Type 0 where
    pub after : Heap A
    pub runs : unlink k i x trail h ≡ some after
    pub changed :
        (j : ℕ) (u : Address) (r : ℕ) (l m : Level)
        → i ≤ j
        → j < i + k
        → Place trail h j u r l
        → cut_level x h j l ≡ some m
        → get_level after u j ≡ some m
    pub other_node :
        (q : Address) (j : ℕ) → OffTrail trail j q → get_level after q j ≡ get_level h q j
    pub other_level : (q : Address) (j : ℕ) → Outside i k j → get_level after q j ≡ get_level h q j
    pub infos_same : (q : Address) → info after q ≡ info h q

  pub unlink_lem :
      (h : Heap A) (i k : ℕ) → ((j : ℕ) → i ≤ j → j < i + k → Cuttable h j) → Unlinked h i k
  unfolding unlink
  unlink_lem h i zero cuttable = record {
    after = h;
    runs = refl;
    changed = λ j u r l m le lt p. absurd (omega arith);
    other_node = λ q j off. refl;
    other_level = λ q j out. refl;
    infos_same = λ q. refl;
  }
  unlink_lem h i (suc k) cuttable =
      let p = cuttable i (omega arith) (omega arith) in
      let t = set_level-runs h p.node i p.new p.old p.place.holds in
      let rest = unlink_lem t.after (suc i) k (λ j le lt.
        move-Cuttable h t.after j (λ q. t.other_level q j (λ e. omega (arith, e)))
          (cuttable j (omega arith) (omega arith))) in
      record {
        after = rest.after;
        runs =
            unlink_step k i h t.after p.node p.rank p.old p.new p.place p.cut_is t.runs ∙ rest.runs;
        changed = λ j u r l m le lt p' cut. elim (Bool-cases (j == i)) [
          | inl same ↦
              let here : j ≡ i = ground arith in
              let one = one_place trail h j i u p.node r p.rank l p.old here p' p.place in
              let cuts : some p.new ≡ some m =
                sym p.cut_is ∙ ap₂ (λ n c. cut_level x h n c) (sym here) (sym one.2) ∙ cut in
              rest.other_level u j (inl (omega (arith, here)))
              ∙ ap₂ (λ q n. get_level t.after q n) one.0 here
              ∙ t.here
              ∙ cuts
          | inr other ↦
              rest.changed j u r l m (ground arith) (omega arith)
                (move_place trail h t.after j u r l (t.other_level u j (ground arith)) p')
                (cut_level-same h t.after j l (t.other_level x j (ground arith)) ∙ cut)
        ];
        other_node = λ q j off. rest.other_node q j off ∙ elim (Bool-cases (j == i)) [
          | inl same ↦
              let here : j ≡ i = ground arith in
              t.other_node q j (off p.node p.rank (ap trail here ∙ p.place.entry))
          | inr other ↦ t.other_level q j (ground arith)
        ];
        other_level = λ q j out.
            rest.other_level q j (Outside-suc i k j out)
            ∙ t.other_level q j (Outside-other i k j out);
        infos_same = λ q. rest.infos_same q ∙ t.infos_same q;
      }

module _ {A : Type 0} (h : Heap A) (header : Address) (xs : Cells A) where
  Heights-lower : (n : ℕ) (ys : Cells A) → Heights (suc n) ys → Low n ys → Heights n ys
  Heights-lower n [] v low = tt
  Heights-lower n (c ∷ ys) v low = (v.0, low.0, Heights-lower n ys v.2 low.1)

  Linked-lower : (n : ℕ) → 1 ≤ n → Linked h header (suc n) xs → Low n xs → Linked h header n xs
  Linked-lower n pos v low = record {
    header_info = v.header_info;
    infos = v.infos;
    links = λ d r i split lt tall. v.links d r i split (omega arith) tall;
    spare = λ i le lt. elim (Bool-cases (i == n)) [
      | inl same ↦
          let here : i ≡ n = ground arith in
          let top = v.links [] xs i refl (omega (arith, here)) lt in
          let empty = next_at-Low n xs low in
          (
            gap_at i xs,
            top ∙ ap (λ f. some (level f (gap_at i xs))) (ap (λ k. next_at k xs) here ∙ empty),
          )
      | inr other ↦ v.spare i (ground arith) lt
    ];
    heights = Heights-lower n xs v.heights low;
    at_least = pos;
    at_most = omega (arith, v.at_most);
  }

  pub record Lowered (n : ℕ) : Type 0 where
    pub left : ℕ
    pub runs : lower h header n ≡ some left
    pub linked : Linked h header left xs

  pub lower_lem : (n : ℕ) → Linked h header n xs → Lowered n
  unfolding lower
  lower_lem zero v = absurd (omega (arith, v.at_least))
  lower_lem (suc zero) v = record { left = 1; runs = refl; linked = v }
  lower_lem (suc (suc n)) v =
      let top = v.links [] xs (suc n) refl (omega arith) (omega (arith, v.at_most)) in
      elim (find-First (suc n) xs) [
        | inl low ↦
            let rest = lower_lem (suc n) (Linked-lower (suc n) (omega arith) v low) in
            record {
              left = rest.left;
              runs = rw (top, next_at-Low (suc n) xs low) rest.runs;
              linked = rest.linked;
            }
        | inr t ↦
            let next : next_at (suc n) xs ≡ some t.cell.at =
              ap (next_at (suc n)) (sym (append-nil xs)) ∙ next_at-First (suc n) xs [] t in
            record { left = suc (suc n); runs = rw (top, next) refl; linked = v }
      ]
