-- ===== src/Skiplist/Order.antt =====
-- The order of the entries of a sorted set: by their scores, then by their objects.
use quick.Prelude.{
  ◌≡◌, refl, sym, subst, ap, ◌∙◌, [], ◌∷◌, ◌++◌, length, arith, Bool, true, false, not, ◌&&◌, ◌||◌,
  ◌⊎◌, inl, inr, ltb, Bool-cases, if◌then◌else◌,
}
use Prim.Native.Nat.{Ordering}
use quick.Skiplist.Objects.{Scores, Obj, is_before}
use quick.Skiplist.Search.{key_before}
use quick.Skiplist.Cells.{Cell, Cells}
use quick.Skiplist.ObjectOrder.{
  flip, Fits, order, is_before-order, is_lt, flip, order_total, order-flip,
}

-- What `<` and `==` of doubles that are numbers are like.
pub record ScoreLaws {A : Type 0} (o : Scores A) : Type 0 where
  pub asym : (a b : A) → o.less a b ≡ true → o.less b a ≡ false
  pub total : (a b c : A) → o.less a b ≡ true → (o.less a c ≡ true) ⊎ (o.less c b ≡ true)
  pub same_is : (a b : A) → o.same a b ≡ (not (o.less a b) && not (o.less b a))

module _ {A : Type 0} where
  abbrev pub Every : (Cell A → Bool) → Bool → Cells A → Type 0
  Every p v [] = Unit
  Every p v (c ∷ cs) = (p c ≡ v) × Every p v cs

  abbrev pub AllFit : Cells A → Type 0
  AllFit [] = Unit
  AllFit (c ∷ cs) = Fits c.obj × AllFit cs

  Every-at :
      (p : Cell A → Bool) (v : Bool) (d r : Cells A) (e : Cell A)
      → Every p v (d ++ (e ∷ r))
      → p e ≡ v
  Every-at p v [] r e w = w.0
  Every-at p v (a ∷ d) r e w = Every-at p v d r e w.1

  -- Where a test holds on a front and nowhere else, it tells the front.
  pub Every-test :
      (p : Cell A → Bool) (good bad d r : Cells A) (e : Cell A)
      → Every p true good
      → Every p false bad
      → good ++ bad ≡ d ++ (e ∷ r)
      → p e ≡ ltb (length d) (length good)
  Every-test p [] bad d r e g b split =
      Every-at p false d r e (subst (λ ys. Every p false ys) split b) ∙ ground arith
  Every-test p (a ∷ good) bad [] r e g b split =
      let head : a ≡ e = cc in ap p (sym head) ∙ g.0 ∙ ground arith
  Every-test p (a ∷ good) bad (b' ∷ d) r e g b split =
      let rest : good ++ bad ≡ d ++ (e ∷ r) = cc in
      Every-test p good bad d r e g.1 b rest ∙ ground arith

module _ {A : Type 0} ⦃o : Scores A⦄ where
  abbrev pub precedes : Cell A → Cell A → Bool
  precedes c e = key_before c.score c.obj e.score e.obj

  -- No entry is before one that stands in front of it.
  abbrev pub After : Cell A → Cells A → Type 0
  After c xs = Every (λ x. precedes x c) false xs

  abbrev pub Sorted : Cells A → Type 0
  Sorted [] = Unit
  Sorted (c ∷ cs) = After c cs × Sorted cs

  -- Behind the entries that are before it.
  abbrev pub add_entry : Cell A → Cells A → Cells A
  add_entry c [] = c ∷ []
  add_entry c (e ∷ es) = if precedes e c then e ∷ add_entry c es else c ∷ (e ∷ es)

-- What a key's order is made of.
or_cases :
    (l l' s b : Bool)
    → s ≡ (not l && not l')
    → (l || (s && b)) ≡ true
    → (l ≡ true) ⊎ ((l ≡ false) × (l' ≡ false) × (b ≡ true))
or_cases true l' s b e p = inl refl
or_cases false true s b e p =
    let none_same : s ≡ false = e in let clash : false ≡ true = sym (rw none_same refl) ∙ p in cc
or_cases false false s b e p =
    let all_same : s ≡ true = e in inr (refl, refl, sym (rw all_same refl) ∙ p)

or_first : (l x : Bool) → l ≡ true → (l || x) ≡ true
or_first l x e = rw e refl

or_second : (l l' s b : Bool) → s ≡ (not l && not l') → l ≡ false → l' ≡ false → (l || (s && b)) ≡ b
or_second l l' s b e p q = let all_same : s ≡ true = e ∙ rw (p, q) refl in rw (p, all_same) refl

or_neither :
    (l l' s b : Bool) → s ≡ (not l && not l') → l ≡ false → l' ≡ true → (l || (s && b)) ≡ false
or_neither l l' s b e p q = let none_same : s ≡ false = e ∙ rw (p, q) refl in rw (p, none_same) refl

is_lt-true : (t : Ordering) → is_lt t ≡ true → t ≡ Ordering.lt
is_lt-true Ordering.lt e = refl
is_lt-true Ordering.eq e = cc
is_lt-true Ordering.gt e = cc

module _ {A : Type 0} ⦃o : Scores A⦄ (laws : ScoreLaws o) where
  object_lt : (a b : Obj) → Fits a → Fits b → is_before a b ≡ true → order a b ≡ Ordering.lt
  object_lt a b fa fb e = is_lt-true (order a b) (sym (is_before-order a b fa fb) ∙ e)

  pub precedes_asym :
      (c e : Cell A) → Fits c.obj → Fits e.obj → precedes c e ≡ true → precedes e c ≡ false
  precedes_asym c e fc fe p =
      let same = laws.same_is c.score e.score in
      let same' = laws.same_is e.score c.score in
      elim (or_cases (o.less c.score e.score) (o.less e.score c.score) (o.same c.score e.score)
        (is_before c.obj e.obj) same p) [
          | inl lt ↦
              or_neither (o.less e.score c.score) (o.less c.score e.score) (o.same e.score c.score)
                (is_before e.obj c.obj) same' (laws.asym c.score e.score lt) lt
          | inr (ne, ne', lt) ↦
              or_second (o.less e.score c.score) (o.less c.score e.score) (o.same e.score c.score)
                (is_before e.obj c.obj) same' ne' ne
              ∙ is_before-order e.obj c.obj fe fc
              ∙ ap is_lt (order-flip c.obj e.obj ∙ ap flip (object_lt c.obj e.obj fc fe lt))
        ]

  -- What is not less than a score is not less than any that this one is not less than.
  less_between : (a b k : A) → o.less b a ≡ false → o.less a k ≡ false → o.less b k ≡ false
  less_between a b k p q = elim (Bool-cases (o.less b k)) [
    | inr other ↦ other
    | inl less ↦ elim (laws.total b k a less) [
      | inl lt ↦ absurd (let clash : true ≡ false = sym lt ∙ p in cc)
      | inr lt ↦ absurd (let clash : true ≡ false = sym lt ∙ q in cc)
    ]
  ]

  precedes-object :
      (c e : Cell A)
      → Fits c.obj
      → Fits e.obj
      → o.less c.score e.score ≡ false
      → o.less e.score c.score ≡ false
      → order c.obj e.obj ≡ Ordering.lt
      → precedes c e ≡ true
  precedes-object c e fc fe p q lt =
      or_second (o.less c.score e.score) (o.less e.score c.score) (o.same c.score e.score)
        (is_before c.obj e.obj) (laws.same_is c.score e.score) p q
      ∙ is_before-order c.obj e.obj fc fe
      ∙ ap is_lt lt

  precedes-score : (c e : Cell A) → o.less c.score e.score ≡ true → precedes c e ≡ true
  precedes-score c e lt =
      or_first (o.less c.score e.score) (o.same c.score e.score && is_before c.obj e.obj) lt

  pub precedes_total :
      (c e k : Cell A)
      → Fits c.obj
      → Fits e.obj
      → Fits k.obj
      → precedes c e ≡ true
      → (precedes c k ≡ true) ⊎ (precedes k e ≡ true)
  precedes_total c e k fc fe fk p =
      elim (or_cases (o.less c.score e.score) (o.less e.score c.score) (o.same c.score e.score)
        (is_before c.obj e.obj) (laws.same_is c.score e.score) p) [
          | inl lt ↦ elim (laws.total c.score e.score k.score lt) [
            | inl first ↦ inl (precedes-score c k first)
            | inr second ↦ inr (precedes-score k e second)
          ]
          | inr (ne, ne', lt) ↦ elim (Bool-cases (o.less c.score k.score)) [
            | inl first ↦ inl (precedes-score c k first)
            | inr no_first ↦ elim (Bool-cases (o.less k.score e.score)) [
              | inl second ↦ inr (precedes-score k e second)
              | inr no_second ↦
                  let kc = less_between e.score k.score c.score no_second ne' in
                  let ek = less_between c.score e.score k.score ne' no_first in
                  elim (order_total c.obj e.obj k.obj (object_lt c.obj e.obj fc fe lt)) [
                    | inl first ↦ inl (precedes-object c k fc fk no_first kc first)
                    | inr second ↦ inr (precedes-object k e fk fe no_second ek second)
                  ]
            ]
          ]
        ]
