-- ===== src/Skiplist/Sorting.antt =====
-- Where a new entry belongs in a sorted list.
use quick.Prelude.{◌≡◌, refl, sym, ap, ◌∙◌, [], ◌∷◌, ◌++◌, Bool, true, false, inl, inr, Bool-cases}
use quick.Skiplist.Objects.{Scores}
use quick.Skiplist.Cells.{Cell, Cells}
use quick.Skiplist.ObjectOrder.{Fits}
use quick.Skiplist.Order.{
  ScoreLaws, Every, AllFit, precedes, After, Sorted, add_entry, precedes_asym, precedes_total,
}

module _ {A : Type 0} ⦃o : Scores A⦄ (laws : ScoreLaws o) where
  -- The entries before `c`, and the others.
  pub record Cut (c : Cell A) (xs : Cells A) : Type 0 where
    pub good : Cells A
    pub bad : Cells A
    pub split : xs ≡ good ++ bad
    pub passed : Every (λ x. precedes x c) true good
    pub others : Every (λ x. precedes x c) false bad
    pub added_is : add_entry c xs ≡ good ++ (c ∷ bad)

  -- What is not before an entry is not before one that this entry is not before.
  After-trans :
      (c e : Cell A) (xs : Cells A)
      → Fits c.obj
      → Fits e.obj
      → AllFit xs
      → precedes e c ≡ false
      → After e xs
      → After c xs
  After-trans c e [] fc fe fit behind after = tt
  After-trans c e (x ∷ xs) fc fe fit behind after = (
    elim (Bool-cases (precedes x c)) [
      | inr other ↦ other
      | inl first ↦ elim (precedes_total laws x c e fit.0 fc fe first) [
        | inl lt ↦ absurd (let clash : true ≡ false = sym lt ∙ after.0 in cc)
        | inr lt ↦ absurd (let clash : true ≡ false = sym lt ∙ behind in cc)
      ]
    ],
    After-trans c e xs fc fe fit.1 behind after.1,
  )

  pub cut : (c : Cell A) (xs : Cells A) → Fits c.obj → AllFit xs → Sorted xs → Cut c xs
  cut c [] fc fit sorted = record {
    good = [];
    bad = [];
    split = refl;
    passed = tt;
    others = tt;
    added_is = refl;
  }
  cut c (e ∷ xs) fc fit sorted = elim (Bool-cases (precedes e c)) [
    | inl first ↦
        let t = cut c xs fc fit.1 sorted.1 in
        record {
          good = e ∷ t.good;
          bad = t.bad;
          split = ap (λ ys. e ∷ ys) t.split;
          passed = (first, t.passed);
          others = t.others;
          added_is = rw first (ap (λ ys. e ∷ ys) t.added_is);
        }
    | inr other ↦ record {
      good = [];
      bad = e ∷ xs;
      split = refl;
      passed = tt;
      others = (other, After-trans c e xs fc fit.0 fit.1 other sorted.0);
      added_is = rw other refl;
    }
  ]

  Every-add_entry :
      (p : Cell A → Bool) (v : Bool) (c : Cell A) (xs : Cells A)
      → p c ≡ v
      → Every p v xs
      → Every p v (add_entry c xs)
  Every-add_entry p v c [] here w = (here, w)
  Every-add_entry p v c (e ∷ xs) here w = elim (Bool-cases (precedes e c)) [
    | inl first ↦ rw first (w.0, Every-add_entry p v c xs here w.1)
    | inr other ↦ rw other (here, w)
  ]

  pub add_entry-AllFit :
      (c : Cell A) (xs : Cells A) → Fits c.obj → AllFit xs → AllFit (add_entry c xs)
  add_entry-AllFit c [] fc fit = (fc, tt)
  add_entry-AllFit c (e ∷ xs) fc fit = elim (Bool-cases (precedes e c)) [
    | inl first ↦ rw first (fit.0, add_entry-AllFit c xs fc fit.1)
    | inr other ↦ rw other (fc, fit)
  ]

  pub add_entry-Sorted :
      (c : Cell A) (xs : Cells A) → Fits c.obj → AllFit xs → Sorted xs → Sorted (add_entry c xs)
  add_entry-Sorted c [] fc fit sorted = (tt, tt)
  add_entry-Sorted c (e ∷ xs) fc fit sorted = elim (Bool-cases (precedes e c)) [
    | inl first ↦
        let behind = precedes_asym laws e c fit.0 fc first in
        rw first (
          Every-add_entry (λ x. precedes x e) false c xs behind sorted.0,
          add_entry-Sorted c xs fc fit.1 sorted.1,
        )
    | inr other ↦ rw other ((other, After-trans c e xs fc fit.0 fit.1 other sorted.0), sorted)
  ]
