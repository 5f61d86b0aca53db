-- ===== src/Webpage/FindAll.antt =====
-- `find` of lua-webpage.c on a sorted table, and the entries that its callers go through.
use quick.Prelude.{
  subst, ℕ, zero, suc, ◌+◌, ◌/◌, ◌≤◌, ◌<◌, ◌≡◌, refl, sym, ap, ap₂, ◌∙◌, inl, inr, true, false,
  Option, none, some, List, [], ◌∷◌, ◌++◌, length, length-append, take, drop, ltb, arith,
  Bool-cases, tests, append-nil,
}
use Prim.Native.Nat.{Ordering}
use mathlib.Core.List.{Permᴰ}
use quick.Webpage.Sorter.{Sorter, qsort, named-Permᴰ}
use quick.Webpage.Names.{
  Table, strcmp, is_eq, same_name, bsearch_from, bsearch, walk_down, count_named, widen, find,
  entries_of,
}
use quick.Webpage.NameOrder.{named, named-append, IsSorted}
use quick.Webpage.Finding.{AllAt, parts, at_low, at_mid, at_high}

drop_exact : (xs ys : Table) → drop (length xs) (xs ++ ys) ≡ ys
drop_exact [] ys = refl
drop_exact (x ∷ xs) ys = drop_exact xs ys

take_exact : (xs ys : Table) → take (length xs) (xs ++ ys) ≡ xs
take_exact [] ys = refl
take_exact (x ∷ xs) ys = ap (λ t. x ∷ t) (take_exact xs ys)

named_other :
    (n : List ℕ) (o : Ordering) (es : Table) → is_eq o ≡ false → AllAt n o es → named n es ≡ []
named_other n o [] e all = refl
named_other n o (x ∷ es) e all =
    let other : same_name n x.name ≡ false = ap is_eq all.0 ∙ e in
    rw other (named_other n o es e all.1)

named_equal : (n : List ℕ) (es : Table) → AllAt n Ordering.eq es → named n es ≡ es
named_equal n [] all = refl
named_equal n (x ∷ es) all =
    let same : same_name n x.name ≡ true = ap is_eq all.0 in
    rw same (ap (λ t. x ∷ t) (named_equal n es all.1))

count_named_lem :
    (n : List ℕ) (mid high : Table)
    → AllAt n Ordering.eq mid
    → AllAt n Ordering.lt high
    → count_named n (mid ++ high) ≡ length mid
unfolding count_named
count_named_lem n [] [] eqs lts = refl
count_named_lem n [] (x ∷ high) eqs lts =
    let other : is_eq (strcmp n x.name) ≡ false = ap is_eq lts.0 in rw (other, count_named)
count_named_lem n (x ∷ mid) high eqs lts =
    let same : is_eq (strcmp n x.name) ≡ true = ap is_eq eqs.0 in
    rw (same, count_named) (ap suc (count_named_lem n mid high eqs.1 lts))

module _ (n : List ℕ) (low mid high : Table) (smaller : AllAt n Ordering.gt low)
    (equal : AllAt n Ordering.eq mid) (larger : AllAt n Ordering.lt high) where
  abbrev Hit : Option ℕ → Type 0
  Hit none = length mid ≡ 0
  Hit (some i) = (length low ≤ i) × (i < length low + length mid)

  bsearch_from_lem :
      (fuel lo hi : ℕ)
      → hi < lo + fuel
      → lo ≤ length low
      → length low + length mid ≤ hi
      → hi ≤ length low + (length mid + length high)
      → Hit (bsearch_from fuel n (low ++ (mid ++ high)) lo hi)
  unfolding bsearch_from
  bsearch_from_lem zero lo hi enough a b c = absurd (omega arith)
  bsearch_from_lem (suc fuel) lo hi enough a b c = elim (Bool-cases (ltb lo hi)) [
    | inr ge ↦ let empty : length mid ≡ 0 = ground arith in rw (ge, bsearch_from) empty
    | inl lt ↦
        let lo_lt : lo < hi = omega (tests, lt) in
        elim (Bool-cases (ltb ((lo + hi) / 2) (length low))) [
          | inl before ↦
              let before_lt : (lo + hi) / 2 < length low = omega (tests, before) in
              let (e, here, cmp) =
                at_low n low mid high smaller equal larger ((lo + hi) / 2) before_lt in
              rw (lt, here, cmp, bsearch_from)
                (bsearch_from_lem fuel ((lo + hi) / 2 + 1) hi (omega arith) (omega arith) b c)
          | inr from ↦
              let from_le : length low ≤ (lo + hi) / 2 = ground arith in
              elim (Bool-cases (ltb ((lo + hi) / 2) (length low + length mid))) [
                | inl inside ↦
                    let inside_lt : (lo + hi) / 2 < length low + length mid =
                      omega (tests, inside) in
                    let (e, here, cmp) =
                      at_mid n low mid high smaller equal larger ((lo + hi) / 2) from_le
                        inside_lt in
                    rw (lt, here, cmp, bsearch_from) (from_le, inside_lt)
                | inr beyond ↦
                    let beyond_le : length low + length mid ≤ (lo + hi) / 2 = ground arith in
                    let (e, here, cmp) =
                      at_high n low mid high smaller equal larger ((lo + hi) / 2) beyond_le
                        (omega arith) in
                    rw (lt, here, cmp, bsearch_from)
                      (bsearch_from_lem fuel lo ((lo + hi) / 2) (omega arith) a beyond_le
                        (omega arith))
              ]
        ]
  ]

  walk_down_lem :
      (i : ℕ)
      → length low ≤ i
      → i < length low + length mid
      → walk_down n (low ++ (mid ++ high)) i ≡ length low
  unfolding walk_down
  walk_down_lem zero le lt = omega arith
  walk_down_lem (suc i) le lt = elim (Bool-cases (ltb i (length low))) [
    | inl before ↦
        let before_lt : i < length low = omega (tests, before) in
        let (e, here, cmp) = at_low n low mid high smaller equal larger i before_lt in
        let same : suc i ≡ length low = omega arith in rw (here, cmp, walk_down) same
    | inr from ↦
        let from_le : length low ≤ i = ground arith in
        let (e, here, cmp) = at_mid n low mid high smaller equal larger i from_le (omega arith) in
        rw (here, cmp, walk_down) (walk_down_lem i from_le (omega arith))
  ]

  widen_lem :
      (r : Option ℕ)
      → Hit r
      → entries_of (low ++ (mid ++ high)) (widen n (low ++ (mid ++ high)) r) ≡ mid
  widen_lem none empty = nothing mid empty
    where
      nothing : (xs : Table) → length xs ≡ 0 → [] ≡ xs
      nothing [] e = refl
      nothing (x ∷ xs) e = absurd (omega arith)
  widen_lem (some i) (le, lt) =
      rw
        (
          walk_down_lem i le lt,
          drop_exact low (mid ++ high),
          count_named_lem n mid high equal larger,
        )
        (take_exact mid high)

find_parts : (n : List ℕ) (es : Table) → IsSorted es → entries_of es (find n es) ≡ named n es
unfolding find bsearch
find_parts n es sorted =
    let v = parts n es sorted in
    let base = v.low ++ (v.mid ++ v.high) in
    let size : length base ≡ length v.low + (length v.mid + length v.high) =
      omega (arith, length-append v.low (v.mid ++ v.high), length-append v.mid v.high) in
    let hit =
      bsearch_from_lem n v.low v.mid v.high v.smaller v.equal v.larger (suc (length base)) 0
        (length base) (omega arith) (omega arith) (omega arith) (omega arith) in
    let split : named n base ≡ v.mid =
      named-append n v.low (v.mid ++ v.high)
      ∙ ap₂ (λ a b. a ++ b) (named_other n Ordering.gt v.low refl v.smaller)
          (named-append n v.mid v.high
            ∙ ap₂ (λ a b. a ++ b) (named_equal n v.mid v.equal)
                (named_other n Ordering.lt v.high refl v.larger)
            ∙ append-nil v.mid) in
    rw (v.whole) (
      widen_lem n v.low v.mid v.high v.smaller v.equal v.larger
        (bsearch_from (suc (length base)) n base 0 (length base)) hit
      ∙ sym split)

-- In a table sorted by `qsort`, whatever it does with equal names, the callers of `find` go through
-- exactly the entries of the name that the unsorted table holds, each once; there are none if `find`
-- returns null.
pub find-qsort :
    ⦃sorter : Sorter⦄ (n : List ℕ) (es : Table)
    → Permᴰ (entries_of (qsort es) (find n (qsort es))) (named n es)
find-qsort ⦃sorter = sorter⦄ n es =
    subst (λ fs. Permᴰ fs (named n es)) (sym (find_parts n (qsort es) (sorter.sorted es)))
      (named-Permᴰ n (sorter.permuted es))
