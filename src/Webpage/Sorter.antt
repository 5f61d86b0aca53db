-- ===== src/Webpage/Sorter.antt =====
-- `qsort` of the C library, as lua-webpage.c calls it on its tables of names. What it does with
-- entries of one name is not specified, so it is a parameter: it sorts, and moves entries only.
use mathlib.Core.List.{Permᴰ}
use mathlib.Core.List.Permᴰ
use quick.Prelude.{
  ℕ, ◌≡◌, refl, sym, subst, ap, ◌∙◌, inl, inr, Bool, true, false, ◌||◌, List, [], ◌∷◌, All, ◌==◌,
  Bool-cases,
}
use quick.Webpage.Blocks.{Address}
use quick.Webpage.Names.{NamePtr, Table, same_name}
use quick.Webpage.NameOrder.{IsSorted, named}
use quick.Webpage.Assigned.{hits}

pub record Sorter : Type 0 where
  pub sort : Table → Table
  pub sorted : (es : Table) → IsSorted (sort es)
  pub permuted : (es : Table) → Permᴰ (sort es) es

module _ ⦃sorter : Sorter⦄ where
  -- `qsort` by `cmp_block`
  abbrev pub qsort : Table → Table
  qsort es = sorter.sort es

named_cons :
    (n : List ℕ) (a : NamePtr) (es fs : Table)
    → Permᴰ (named n es) (named n fs)
    → Permᴰ (named n (a ∷ es)) (named n (a ∷ fs))
named_cons n a es fs d = elim (Bool-cases (same_name n a.name)) [
  | inl k ↦ rw k (Permᴰ.cons refl d)
  | inr k ↦ rw k d
]

named_swap :
    (n : List ℕ) (a b : NamePtr) (es : Table) → Permᴰ (named n (a ∷ b ∷ es)) (named n (b ∷ a ∷ es))
named_swap n a b es = elim (Bool-cases (same_name n a.name)) [
  | inl k ↦ elim (Bool-cases (same_name n b.name)) [
    | inl m ↦ rw (k, m) (Permᴰ.swap refl refl)
    | inr m ↦ rw (k, m) (Permᴰ.refl (a ∷ named n es))
  ]
  | inr k ↦ rw k (Permᴰ.refl (named n (b ∷ es)))
]

-- The entries of a name are moved only.
pub named-Permᴰ : (n : List ℕ) {es fs : Table} → Permᴰ es fs → Permᴰ (named n es) (named n fs)
named-Permᴰ n Permᴰ.nil = Permᴰ.nil
named-Permᴰ n (Permᴰ.cons {a = a} {l₁ = l₁} {l₂ = l₂} e d) =
    subst (λ b. Permᴰ (named n (a ∷ l₁)) (named n (b ∷ l₂))) e
      (named_cons n a l₁ l₂ (named-Permᴰ n d))
named-Permᴰ n (Permᴰ.swap {a = a} {b = b} {a' = a'} {l = l} e f) =
    subst (λ y. Permᴰ (named n (a ∷ b ∷ l)) (named n (a' ∷ y ∷ l))) e
      (subst (λ x. Permᴰ (named n (a ∷ b ∷ l)) (named n (x ∷ a ∷ l))) f (named_swap n a b l))
named-Permᴰ n (Permᴰ.trans d1 d2) = Permᴰ.trans (named-Permᴰ n d1) (named-Permᴰ n d2)

Permᴰ-nil : {es fs : Table} → Permᴰ es fs → fs ≡ [] → es ≡ []
Permᴰ-nil Permᴰ.nil z = refl
Permᴰ-nil (Permᴰ.cons e d) z = cc
Permᴰ-nil (Permᴰ.swap e f) z = cc
Permᴰ-nil (Permᴰ.trans d1 d2) z = Permᴰ-nil d1 (Permᴰ-nil d2 z)

-- A single entry cannot be moved.
pub Permᴰ-single : (x : NamePtr) {es fs : Table} → Permᴰ es fs → fs ≡ x ∷ [] → es ≡ x ∷ []
Permᴰ-single x Permᴰ.nil z = cc
Permᴰ-single x (Permᴰ.cons {a = a} {b = b} {l₁ = l₁} {l₂ = l₂} e d) z =
    let behind : l₂ ≡ [] = cc in let here : b ≡ x = cc in let left = Permᴰ-nil d behind in cc
Permᴰ-single x (Permᴰ.swap e f) z = cc
Permᴰ-single x (Permᴰ.trans d1 d2) z = Permᴰ-single x d1 (Permᴰ-single x d2 z)

hits_swap : (a : Address) (e f : NamePtr) (es : Table) → hits a (e ∷ f ∷ es) ≡ hits a (f ∷ e ∷ es)
hits_swap a e f es = or_swap (a == e.block_at) (a == f.block_at) (hits a es)
  where
    or_swap : (x y z : Bool) → (x || (y || z)) ≡ (y || (x || z))
    or_swap true true z = refl
    or_swap true false z = refl
    or_swap false true z = refl
    or_swap false false z = refl

-- A table leads to the same blocks in every order.
pub hits-Permᴰ : (a : Address) {es fs : Table} → Permᴰ es fs → hits a es ≡ hits a fs
hits-Permᴰ a Permᴰ.nil = refl
hits-Permᴰ a (Permᴰ.cons {a = x} {l₁ = l₁} {l₂ = l₂} e d) =
    ap (λ t. a == x.block_at || t) (hits-Permᴰ a d) ∙ ap (λ (y : NamePtr). hits a (y ∷ l₂)) e
hits-Permᴰ a (Permᴰ.swap {a = x} {b = y} {a' = x'} {l = l} e f) =
    hits_swap a x y l
    ∙ ap (λ (z : NamePtr). hits a (z ∷ x ∷ l)) f
    ∙ ap (λ (z : NamePtr). hits a (x' ∷ z ∷ l)) e
hits-Permᴰ a (Permᴰ.trans d1 d2) = hits-Permᴰ a d1 ∙ hits-Permᴰ a d2

pub All-Permᴰ : (P : NamePtr → Type 0) {es fs : Table} → Permᴰ es fs → All P fs → All P es
All-Permᴰ P Permᴰ.nil all = tt
All-Permᴰ P (Permᴰ.cons e d) all = (subst P (sym e) all.0, All-Permᴰ P d all.1)
All-Permᴰ P (Permᴰ.swap e f) all = (subst P (sym e) (all.1.0), (subst P (sym f) (all.0), all.1.1))
All-Permᴰ P (Permᴰ.trans d1 d2) all = All-Permᴰ P d1 (All-Permᴰ P d2 all)
