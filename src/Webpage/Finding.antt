-- ===== src/Webpage/Finding.antt =====
-- A sorted table of lua-webpage.c, seen from a name: the entries of smaller names, those of the name,
-- and those of larger ones.
use quick.Prelude.{
  ℕ, zero, suc, ◌+◌, ◌≤◌, ◌<◌, ◌≡◌, refl, sym, subst, ap, ◌∙◌, inl, inr, Option, some, List, [],
  ◌∷◌, ◌++◌, All, length, get_elem?, arith,
}
use Prim.Native.Nat.{Ordering}
use quick.Webpage.Names.{NamePtr, Table, strcmp}
use quick.Webpage.NameOrder.{strcmp_lt_trans, eq_of_strcmp, Above, IsSorted, Ordering-cases}

abbrev pub AllAt : List ℕ → Ordering → Table → Type 0
AllAt n o = All (λ (e : NamePtr). strcmp n e.name ≡ o)

-- Entries of smaller names, of the name, and of larger names.
pub record Parts (n : List ℕ) (es : Table) : Type 0 where
  pub low : Table
  pub mid : Table
  pub high : Table
  pub whole : es ≡ low ++ (mid ++ high)
  pub smaller : AllAt n Ordering.gt low
  pub equal : AllAt n Ordering.eq mid
  pub larger : AllAt n Ordering.lt high

Above-lt :
    (n k : List ℕ) (es : Table) → strcmp n k ≡ Ordering.lt → Above k es → AllAt n Ordering.lt es
Above-lt n k [] h above = tt
Above-lt n k (e ∷ es) h above = (strcmp_lt_trans n k e.name h above.0, Above-lt n k es h above.1)

-- Behind an entry of the name stands no smaller one.
no_smaller :
    (n k : List ℕ) (es : Table)
    → strcmp n k ≡ Ordering.eq
    → Above k es
    → Parts n es
    → (mid : Table) × (high : Table) × (es ≡ mid ++ high)
      × AllAt n Ordering.eq mid
      × AllAt n Ordering.lt high
no_smaller n k es h above v = none_low v.low v.whole v.smaller
  where
    none_low :
        (low : Table)
        → es ≡ low ++ (v.mid ++ v.high)
        → AllAt n Ordering.gt low
        → (mid : Table) × (high : Table) × (es ≡ mid ++ high)
          × AllAt n Ordering.eq mid
          × AllAt n Ordering.lt high
    none_low [] e small = (v.mid, v.high, e, v.equal, v.larger)
    none_low (x ∷ low) e small =
        let at_first : Above k (x ∷ (low ++ (v.mid ++ v.high))) = subst (Above k) e above in
        let same : n ≡ k = eq_of_strcmp n k h in
        absurd (at_first.0 (ap (λ m. strcmp m x.name) (sym same) ∙ small.0))

pub parts : (n : List ℕ) (es : Table) → IsSorted es → Parts n es
parts n [] sorted = record {
  low = [];
  mid = [];
  high = [];
  whole = refl;
  smaller = tt;
  equal = tt;
  larger = tt;
}
parts n (e ∷ es) sorted = elim (Ordering-cases (strcmp n e.name)) [
  | inl k ↦ record {
    low = [];
    mid = [];
    high = e ∷ es;
    whole = refl;
    smaller = tt;
    equal = tt;
    larger = (k, Above-lt n e.name es k sorted.0);
  }
  | inr (inl k) ↦
      let (mid, high, whole, equal, larger) =
        no_smaller n e.name es k sorted.0 (parts n es sorted.1) in
      record {
        low = [];
        mid = e ∷ mid;
        high = high;
        whole = ap (λ t. e ∷ t) whole;
        smaller = tt;
        equal = (k, equal);
        larger = larger;
      }
  | inr (inr k) ↦
      let v = parts n es sorted.1 in
      record {
        low = e ∷ v.low;
        mid = v.mid;
        high = v.high;
        whole = ap (λ t. e ∷ t) v.whole;
        smaller = (k, v.smaller);
        equal = v.equal;
        larger = v.larger;
      }
]

-- What stands at a place of a list that is all of one kind, with more behind it.
abbrev pub EntryAt : List ℕ → Ordering → Option NamePtr → Type 0
EntryAt n o r = (e : NamePtr) × (r ≡ some e) × (strcmp n e.name ≡ o)

at_front :
    (n : List ℕ) (o : Ordering) (xs ys : Table) (i : ℕ)
    → AllAt n o xs
    → i < length xs
    → EntryAt n o (get_elem? (xs ++ ys) i)
at_front n o [] ys i all lt = absurd (omega arith)
at_front n o (x ∷ xs) ys zero all lt = (x, refl, all.0)
at_front n o (x ∷ xs) ys (suc i) all lt = at_front n o xs ys i all.1 (omega arith)

behind :
    (n : List ℕ) (o : Ordering) (xs ys : Table) (i : ℕ)
    → length xs ≤ i
    → ((k : ℕ) → i ≡ length xs + k → EntryAt n o (get_elem? ys k))
    → EntryAt n o (get_elem? (xs ++ ys) i)
behind n o [] ys i le rest = rest i (omega arith)
behind n o (x ∷ xs) ys zero le rest = absurd (omega arith)
behind n o (x ∷ xs) ys (suc i) le rest =
    behind n o xs ys i (omega arith) (λ k e. rest k (omega arith))

module _ (n : List ℕ) (low mid high : Table) (smaller : AllAt n Ordering.gt low)
    (equal : AllAt n Ordering.eq mid) (larger : AllAt n Ordering.lt high) where
  pub at_low : (i : ℕ) → i < length low → EntryAt n Ordering.gt (get_elem? (low ++ (mid ++ high)) i)
  at_low i lt = at_front n Ordering.gt low (mid ++ high) i smaller lt

  pub at_mid :
      (i : ℕ)
      → length low ≤ i
      → i < length low + length mid
      → EntryAt n Ordering.eq (get_elem? (low ++ (mid ++ high)) i)
  at_mid i le lt =
      behind n Ordering.eq low (mid ++ high) i le
        (λ k e. at_front n Ordering.eq mid high k equal (omega arith))

  pub at_high :
      (i : ℕ)
      → length low + length mid ≤ i
      → i < length low + (length mid + length high)
      → EntryAt n Ordering.lt (get_elem? (low ++ (mid ++ high)) i)
  at_high i le lt =
      behind n Ordering.lt low (mid ++ high) i (omega arith)
        (λ k e. behind n Ordering.lt mid high k (omega arith) (λ k' e'. high_at k' (omega arith)))
    where
      high_at : (k : ℕ) → k < length high → EntryAt n Ordering.lt (get_elem? high k)
      high_at k h = front high k larger h
        where
          front :
              (xs : Table) (k : ℕ)
              → AllAt n Ordering.lt xs
              → k < length xs
              → EntryAt n Ordering.lt (get_elem? xs k)
          front [] k all h = absurd (omega arith)
          front (x ∷ xs) zero all h = (x, refl, all.0)
          front (x ∷ xs) (suc k) all h = front xs k all.1 (omega arith)
