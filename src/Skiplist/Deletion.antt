-- ===== src/Skiplist/Deletion.antt =====
-- `slDelete`: the walk, the test of the node behind it, and the node that is taken out.
use quick.Prelude.{
  if◌then◌else◌, none, inr, inl, ℕ, suc, ◌+◌, ◌≤◌, ◌<◌, ◌≡◌, refl, sym, subst, ap, ◌∙◌, Option,
  some, [], ◌∷◌, ◌++◌, length, arith, Bool, true, false, ◌&&◌, Bool-cases, ltb, ◌>>=◌,
}
use quick.Skiplist.Objects.{Scores, Obj, equal_obj}
use quick.Skiplist.Nodes.{Node, SkipList, max_level, add64}
use quick.Skiplist.Search.{key_before, Trail, node_test, before}
use quick.Skiplist.Delete.{delete_node, delete, delete_at, is_key, free_node}
use quick.Skiplist.Cells.{Heights-split, Cell, Cells, Info, next_at, height_of, prev_of, Heights}
use quick.Skiplist.ObjectOrder.{Fits}
use quick.Skiplist.Order.{ScoreLaws, Every, AllFit, Every-test, precedes, Sorted}
use quick.Skiplist.Sorting.{Cut, cut}
use quick.Skiplist.State.{Represents}
use quick.Skiplist.Memory.{write-same, node_of}
use quick.Skiplist.Walk.{Reached}
use quick.Skiplist.Insertion.{walk_lem, before-cell}
use quick.Skiplist.Deleted.{delete_node_lem}
use quick.Skiplist.Taking.{
  taken-others, taken-front, first_taken, taken, has_key, take_first, take_key, keep_all,
  take_key-others, take_key-front, keep_all-pair, Sorted-remove, AllFit-remove,
}

module _ {A : Type 0} ⦃o : Scores A⦄ where
  height_of-positive : (n k : ℕ) (xs : Cells A) → 1 ≤ k → Heights n xs → 0 < height_of k xs
  height_of-positive n k [] le v = omega arith
  height_of-positive n k (c ∷ xs) le v = height_of-positive n c.height xs v.0 v.2

  -- If no entry was taken out, the list is as it was; the memory of one that was is free.
  abbrev pub Released : SkipList A → SkipList A → Option (Cell A) → Type 0
  Released s after none = after ≡ s
  Released s after (some c) = after.heap c.at ≡ none

  -- What is left of a list of which the entries `ys` are.
  pub record Shrunk (s : SkipList A) (xs : Cells A) (score : A) (obj : Obj) : Type 0 where
    pub found : Bool
    pub left : Cells A
    pub after : SkipList A
    pub runs : delete score obj s ≡ some (found, after)
    pub left_is : take_key score obj xs ≡ (found, left)
    pub represents : Represents after left
    pub released : Released s after (taken score obj xs)
    pub sorted : Sorted left
    pub fits : AllFit left

module _ {A : Type 0} ⦃o : Scores A⦄ (s : SkipList A) (good bad : Cells A) (score : A) (obj : Obj)
    (trail : Trail) (v : Represents s (good ++ bad)) where
  is_key-cell :
      (c : Cell A) (r : Cells A)
      → bad ≡ c ∷ r
      → (b : Node A) × (s.heap c.at ≡ some b) × (is_key score obj b ≡ some (has_key score obj c))
  is_key-cell c r back =
      let m =
        node_of s.heap c.at (some c.obj, c.score, prev_of good, c.height)
          (v.linked.infos good c r (ap (λ ys. good ++ ys) back)) in
      let tested : Info A → Option Bool =
        λ (a, t, q, j). a >>= λ b. some (o.same score t && equal_obj b obj) in
      (m.node, m.found, ap tested m.parts)

  first_is : (c : Cell A) (r : Cells A) → bad ≡ c ∷ r → next_at 0 bad ≡ some c.at
  first_is c r back =
      let heights =
        subst (λ ys. Heights s.level ys) back (Heights-split s.level good bad v.linked.heights).1 in
      ap (next_at 0) back ∙ ground (arith, heights.0)

  delete_at-missing :
      (c : Cell A) (r : Cells A)
      → bad ≡ c ∷ r
      → has_key score obj c ≡ false
      → delete_at score obj (some c.at) trail s ≡ some (false, s)
  delete_at-missing c r back other =
      let (b, found, tested) = is_key-cell c r back in rw (found, tested, other) refl

  delete_at-found :
      (c : Cell A) (r : Cells A) (s' : SkipList A)
      → bad ≡ c ∷ r
      → has_key score obj c ≡ true
      → delete_node c.at trail s ≡ some s'
      → delete_at score obj (some c.at) trail s ≡ some (true, free_node c.at s')
  delete_at-found c r s' back same runs =
      let (b, found, tested) = is_key-cell c r back in rw (found, tested, same, runs) refl

  Shrunk-cases :
      (reached : (j : ℕ) → j < s.level → Reached s.header good j (trail j))
      → ((f : Bool) (after : SkipList A)
          → delete_at score obj (next_at 0 bad) trail s ≡ some (f, after)
          → delete score obj s ≡ some (f, after))
      → Every (λ x. key_before x.score x.obj score obj) true good
      → Every (λ x. key_before x.score x.obj score obj) false bad
      → Sorted (good ++ bad)
      → AllFit (good ++ bad)
      → (ys : Cells A) → bad ≡ ys
      → Shrunk s (good ++ bad) score obj
  Shrunk-cases reached runs passed others sorted fits [] back =
      let gone : taken score obj (good ++ bad) ≡ first_taken score obj bad =
        taken-front score obj good bad passed ∙ taken-others score obj bad others in
      record {
        found = false;
        left = good ++ bad;
        after = s;
        runs = runs false s (rw back refl);
        left_is =
            take_key-front score obj good bad passed
            ∙ ap (λ zs. keep_all good (take_key score obj zs)) back
            ∙ keep_all-pair good false []
            ∙ ap (λ zs. (false, good ++ zs)) (sym back);
        represents = v;
        released =
            subst (λ (o : Option (Cell A)). Released s s o)
              (sym (gone ∙ ap (λ zs. first_taken score obj zs) back)) refl;
        sorted = sorted;
        fits = fits;
      }
  Shrunk-cases reached runs passed others sorted fits (c ∷ r) back =
      let split : good ++ bad ≡ good ++ (c ∷ r) = ap (λ ys. good ++ ys) back in
      let gone : taken score obj (good ++ bad) ≡ first_taken score obj bad =
        taken-front score obj good bad passed ∙ taken-others score obj bad others in
      let picks : (b : Bool)
          → has_key score obj c ≡ b
          → first_taken score obj (c ∷ r) ≡ (if b then some c else none) =
        λ b e. rw e refl in
      let takes : take_key score obj (good ++ bad) ≡ keep_all good (take_first score obj bad) =
        take_key-front score obj good bad passed
        ∙ ap (keep_all good) (take_key-others score obj bad others) in
      elim (Bool-cases (has_key score obj c)) [
        | inl same ↦
            let t =
              delete_node_lem s good r c trail (subst (λ ys. Represents s ys) split v) reached in
            record {
              found = true;
              left = good ++ r;
              after = free_node c.at t.after;
              runs = runs true (free_node c.at t.after) (
                  ap (λ f. delete_at score obj f trail s) (first_is c r back)
                  ∙ delete_at-found c r t.after back same t.runs);
              left_is =
                  takes
                  ∙ ap (λ zs. keep_all good (take_first score obj zs)) back
                  ∙ rw same (keep_all-pair good true r);
              represents = t.represents;
              released =
                  subst (λ (o : Option (Cell A)). Released s (free_node c.at t.after) o)
                    (sym (gone ∙ ap (λ zs. first_taken score obj zs) back ∙ picks true same))
                    (write-same t.after.heap c.at none);
              sorted = Sorted-remove good r c (subst Sorted split sorted);
              fits = AllFit-remove good r c (subst AllFit split fits);
            }
        | inr other ↦ record {
          found = false;
          left = good ++ bad;
          after = s;
          runs = runs false s (
              ap (λ f. delete_at score obj f trail s) (first_is c r back)
              ∙ delete_at-missing c r back other);
          left_is =
              takes
              ∙ ap (λ zs. keep_all good (take_first score obj zs)) back
              ∙ rw other (keep_all-pair good false (c ∷ r))
              ∙ ap (λ zs. (false, good ++ zs)) (sym back);
          represents = v;
          released =
              subst (λ (o : Option (Cell A)). Released s s o)
                (sym (gone ∙ ap (λ zs. first_taken score obj zs) back ∙ picks false other)) refl;
          sorted = sorted;
          fits = fits;
        }
      ]

module _ {A : Type 0} ⦃o : Scores A⦄ (laws : ScoreLaws o) (s : SkipList A) (xs : Cells A)
    (score : A) (obj : Obj) (v : Represents s xs) (fit : AllFit xs) (sorted : Sorted xs)
    (fits : Fits obj) where
  -- The place of the key, as that of an entry.
  abbrev sought : Cell A
  sought = record { at = 0; score = score; obj = obj; height = 0 }

  delete-Cut : Cut laws sought xs → Shrunk s xs score obj
  unfolding delete
  delete-Cut t =
      let whole = subst (λ ys. Represents s ys) t.split v in
      let tests : (d : Cells A) (c : Cell A) (r : Cells A)
          → t.good ++ t.bad ≡ d ++ (c ∷ r)
          → node_test s.heap (before score obj) (suc (length d)) c.at
            ≡ some (ltb (length d) (length t.good)) =
        λ d c r split.
          before-cell s.heap s.header s.level (t.good ++ t.bad) whole.linked d r c (suc (length d))
            score obj split
          ∙ ap some
              (Every-test (λ x. precedes x sought) t.good t.bad d r c t.passed t.others split) in
      let exact : (a b : ℕ) → a + b ≤ length (t.good ++ t.bad) → add64 a b ≡ a + b =
        λ a b le. omega (arith, whole.small) in
      let w =
        walk_lem s t.good t.bad whole add64 (node_test s.heap (before score obj)) exact tests in
      let heights = Heights-split s.level t.good t.bad whole.linked.heights in
      let first =
        whole.linked.links t.good t.bad 0 refl (omega (arith, whole.linked.at_least))
          (height_of-positive s.level max_level t.good (omega arith) heights.0) in
      subst (λ ys. Shrunk s ys score obj) (sym t.split)
        (Shrunk-cases s t.good t.bad score obj w.left whole w.reached
          (λ f after e. rw (w.ends, first) e) t.passed t.others (subst Sorted t.split sorted)
          (subst AllFit t.split fit) t.bad refl)

  pub delete-Shrunk : Shrunk s xs score obj
  delete-Shrunk = delete-Cut (cut laws sought xs fits fit sorted)
