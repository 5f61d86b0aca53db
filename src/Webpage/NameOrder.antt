-- ===== src/Webpage/NameOrder.antt =====
-- The order of names that `strcmp` gives in the tables of lua-webpage.c, and the entries of a name.
use quick.Prelude.{ℕ, ◌≡◌, ◌≢◌, refl, ◌⊎◌, inl, inr, List, [], ◌∷◌, ◌++◌, All, if◌then◌else◌, arith}
use Prim.Native.Nat.{Ordering}
use quick.Webpage.Names.{NamePtr, Table, strcmp, same_name}

pub strcmp_self : (a : List ℕ) → strcmp a a ≡ Ordering.eq
unfolding strcmp
strcmp_self [] = refl
strcmp_self (x ∷ xs) = ground (arith, strcmp_self xs)

pub eq_of_strcmp : (a b : List ℕ) → strcmp a b ≡ Ordering.eq → a ≡ b
unfolding strcmp
eq_of_strcmp [] [] e = refl
eq_of_strcmp [] (y ∷ ys) e = cc
eq_of_strcmp (x ∷ xs) [] e = cc
eq_of_strcmp (x ∷ xs) (y ∷ ys) e = ground (arith, eq_of_strcmp xs ys)

pub strcmp_flip : (a b : List ℕ) → strcmp a b ≡ Ordering.gt → strcmp b a ≢ Ordering.gt
unfolding strcmp
strcmp_flip [] [] e = cc
strcmp_flip [] (y ∷ ys) e = cc
strcmp_flip (x ∷ xs) [] e = cc
strcmp_flip (x ∷ xs) (y ∷ ys) e = ground (arith, strcmp_flip xs ys)

pub strcmp_lt_trans :
    (a b c : List ℕ)
    → strcmp a b ≡ Ordering.lt
    → strcmp b c ≢ Ordering.gt
    → strcmp a c ≡ Ordering.lt
unfolding strcmp
strcmp_lt_trans [] [] c p q = cc
strcmp_lt_trans [] (y ∷ ys) [] p q = absurd (q refl)
strcmp_lt_trans [] (y ∷ ys) (z ∷ zs) p q = refl
strcmp_lt_trans (x ∷ xs) [] c p q = cc
strcmp_lt_trans (x ∷ xs) (y ∷ ys) [] p q = absurd (q refl)
strcmp_lt_trans (x ∷ xs) (y ∷ ys) (z ∷ zs) p q = ground (arith, strcmp_lt_trans xs ys zs)

pub strcmp_le_trans :
    (a b c : List ℕ)
    → strcmp a b ≢ Ordering.gt
    → strcmp b c ≢ Ordering.gt
    → strcmp a c ≢ Ordering.gt
unfolding strcmp
strcmp_le_trans [] [] [] p q = cc
strcmp_le_trans [] [] (z ∷ zs) p q = cc
strcmp_le_trans [] (y ∷ ys) [] p q = absurd (q refl)
strcmp_le_trans [] (y ∷ ys) (z ∷ zs) p q = cc
strcmp_le_trans (x ∷ xs) [] c p q = absurd (p refl)
strcmp_le_trans (x ∷ xs) (y ∷ ys) [] p q = absurd (q refl)
strcmp_le_trans (x ∷ xs) (y ∷ ys) (z ∷ zs) p q = ground (arith, strcmp_le_trans xs ys zs)

-- No entry stands behind one with a larger name.
abbrev pub Above : List ℕ → Table → Type 0
Above n = All (λ (e : NamePtr). strcmp n e.name ≢ Ordering.gt)

abbrev pub IsSorted : Table → Type 0
IsSorted [] = Unit
IsSorted (e ∷ es) = Above e.name es × IsSorted es

-- The three results of a comparison, with its equation.
pub Ordering-cases : (o : Ordering) → (o ≡ Ordering.lt) ⊎ ((o ≡ Ordering.eq) ⊎ (o ≡ Ordering.gt))
Ordering-cases Ordering.lt = inl refl
Ordering-cases Ordering.eq = inr (inl refl)
Ordering-cases Ordering.gt = inr (inr refl)

pub Above-trans : (a b : List ℕ) (es : Table) → strcmp a b ≢ Ordering.gt → Above b es → Above a es
Above-trans a b [] h above = tt
Above-trans a b (e ∷ es) h above =
    (strcmp_le_trans a b e.name h above.0, Above-trans a b es h above.1)

-- The entries of a name, in order.
abbrev pub named : List ℕ → Table → Table
named n [] = []
named n (e ∷ es) = if same_name n e.name then e ∷ named n es else named n es

pub named-append : (n : List ℕ) (es fs : Table) → named n (es ++ fs) ≡ named n es ++ named n fs
named-append n [] fs = refl
named-append n (e ∷ es) fs = ground (arith, named-append n es fs)
