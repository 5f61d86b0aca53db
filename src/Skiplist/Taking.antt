-- ===== src/Skiplist/Taking.antt =====
-- The entry of a score and an object taken out of a sorted list.
use quick.Prelude.{
  some, none, Option, inr, inl, ◌≡◌, refl, sym, ap, ap₂, ◌∙◌, [], ◌∷◌, ◌++◌, Bool, true, false,
  ◌&&◌, Bool-cases, if◌then◌else◌,
}
use quick.Skiplist.Objects.{is_before, Scores, Obj, equal_obj}
use quick.Skiplist.Search.{key_before}
use quick.Skiplist.Cells.{Cell, Cells}
use quick.Skiplist.ObjectOrder.{is_lt, order-same, is_before-order, is_eq, equal_obj-order, Fits}
use quick.Skiplist.Order.{add_entry, ScoreLaws, Every, AllFit, precedes, Sorted}

module _ {A : Type 0} ⦃o : Scores A⦄ where
  -- `score == x->score && equalslObj(x->obj, obj)`, of an entry
  abbrev pub has_key : A → Obj → Cell A → Bool
  has_key score obj c = o.same score c.score && equal_obj c.obj obj

  -- The first entry that is not before the key goes if it has the key.
  abbrev pub take_first : A → Obj → Cells A → Bool × Cells A
  take_first score obj [] = (false, [])
  take_first score obj (c ∷ cs) = if has_key score obj c then (true, cs) else (false, c ∷ cs)

  abbrev pub keep : Cell A → Bool × Cells A → Bool × Cells A
  keep c (found, cs) = (found, c ∷ cs)

  abbrev pub take_key : A → Obj → Cells A → Bool × Cells A
  take_key score obj [] = (false, [])
  take_key score obj (c ∷ cs) =
      let rest = take_key score obj cs in
      if key_before c.score c.obj score obj then keep c rest else take_first score obj (c ∷ cs)

  -- The entry that goes.
  abbrev pub first_taken : A → Obj → Cells A → Option (Cell A)
  first_taken score obj [] = none
  first_taken score obj (c ∷ cs) = if has_key score obj c then some c else none

  abbrev pub taken : A → Obj → Cells A → Option (Cell A)
  taken score obj [] = none
  taken score obj (c ∷ cs) =
      let rest = taken score obj cs in
      if key_before c.score c.obj score obj then rest else first_taken score obj (c ∷ cs)

  pub taken-others :
      (score : A) (obj : Obj) (bad : Cells A)
      → Every (λ x. key_before x.score x.obj score obj) false bad
      → taken score obj bad ≡ first_taken score obj bad
  taken-others score obj [] v = refl
  taken-others score obj (c ∷ bad) v = rw (v.0) refl

  pub taken-front :
      (score : A) (obj : Obj) (good bad : Cells A)
      → Every (λ x. key_before x.score x.obj score obj) true good
      → taken score obj (good ++ bad) ≡ taken score obj bad
  taken-front score obj [] bad v = refl
  taken-front score obj (c ∷ good) bad v = rw (v.0) (taken-front score obj good bad v.1)

  abbrev pub keep_all : Cells A → Bool × Cells A → Bool × Cells A
  keep_all [] t = t
  keep_all (c ∷ cs) t = keep c (keep_all cs t)

  pub take_key-others :
      (score : A) (obj : Obj) (bad : Cells A)
      → Every (λ x. key_before x.score x.obj score obj) false bad
      → take_key score obj bad ≡ take_first score obj bad
  take_key-others score obj [] v = refl
  take_key-others score obj (c ∷ bad) v = rw (v.0) refl

  pub take_key-front :
      (score : A) (obj : Obj) (good bad : Cells A)
      → Every (λ x. key_before x.score x.obj score obj) true good
      → take_key score obj (good ++ bad) ≡ keep_all good (take_key score obj bad)
  take_key-front score obj [] bad v = refl
  take_key-front score obj (c ∷ good) bad v =
      rw (v.0) (ap (keep c) (take_key-front score obj good bad v.1))

  pub keep_all-pair :
      (good : Cells A) (found : Bool) (cs : Cells A)
      → keep_all good (found, cs) ≡ (found, good ++ cs)
  keep_all-pair [] found cs = refl
  keep_all-pair (c ∷ good) found cs = ap (keep c) (keep_all-pair good found cs)

  Every-remove :
      (p : Cell A → Bool) (w : Bool) (xs ys : Cells A) (c : Cell A)
      → Every p w (xs ++ (c ∷ ys))
      → Every p w (xs ++ ys)
  Every-remove p w [] ys c v = v.1
  Every-remove p w (e ∷ xs) ys c v = (v.0, Every-remove p w xs ys c v.1)

  pub Sorted-remove : (xs ys : Cells A) (c : Cell A) → Sorted (xs ++ (c ∷ ys)) → Sorted (xs ++ ys)
  Sorted-remove [] ys c v = v.1
  Sorted-remove (e ∷ xs) ys c v =
      (Every-remove (λ x. precedes x e) false xs ys c v.0, Sorted-remove xs ys c v.1)

  pub AllFit-remove : (xs ys : Cells A) (c : Cell A) → AllFit (xs ++ (c ∷ ys)) → AllFit (xs ++ ys)
  AllFit-remove [] ys c v = v.1
  AllFit-remove (e ∷ xs) ys c v = (v.0, AllFit-remove xs ys c v.1)

module _ {A : Type 0} ⦃o : Scores A⦄ (laws : ScoreLaws o) (score : A) (obj : Obj)
    (fits : Fits obj) where
  less_irreflexive : (a : A) → o.less a a ≡ false
  less_irreflexive a = elim (Bool-cases (o.less a a)) [
    | inl less ↦ laws.asym a a less
    | inr other ↦ other
  ]

  same_self : o.same score score ≡ true
  same_self = laws.same_is score score ∙ rw (less_irreflexive score) refl

  has_key-same : (c : Cell A) → c.score ≡ score → c.obj ≡ obj → has_key score obj c ≡ true
  has_key-same c e f =
      let equal : equal_obj obj obj ≡ true =
        equal_obj-order obj obj fits fits ∙ ap is_eq (order-same obj) in
      let itself : (o.same score score && equal_obj obj obj) ≡ true = rw (same_self, equal) refl in
      ap₂ (λ t b. o.same score t && equal_obj b obj) e f ∙ itself

  key_before_self : key_before score obj score obj ≡ false
  key_before_self =
      let objects : is_before obj obj ≡ false =
        is_before-order obj obj fits fits ∙ ap is_lt (order-same obj) in
      rw (less_irreflexive score, same_self, objects) refl

  take_key-head :
      (c : Cell A) (ys : Cells A)
      → c.score ≡ score
      → c.obj ≡ obj
      → take_key score obj (c ∷ ys) ≡ (true, ys)
  take_key-head c ys e f =
      let behind : key_before c.score c.obj score obj ≡ false =
        ap₂ (λ t b. key_before t b score obj) e f ∙ key_before_self in
      rw (behind, has_key-same c e f) refl

  -- An entry put in is the first one of its key.
  pub take_key-add_entry :
      (c : Cell A) (xs : Cells A)
      → c.score ≡ score
      → c.obj ≡ obj
      → take_key score obj (add_entry c xs) ≡ (true, xs)
  take_key-add_entry c [] e f = take_key-head c [] e f
  take_key-add_entry c (x ∷ xs) e f = elim (Bool-cases (precedes x c)) [
    | inl first ↦
        let here : key_before x.score x.obj score obj ≡ true =
          ap₂ (λ t b. key_before x.score x.obj t b) (sym e) (sym f) ∙ first in
        rw (first, here) (ap (keep x) (take_key-add_entry c xs e f))
    | inr other ↦ rw other (take_key-head c (x ∷ xs) e f)
  ]
