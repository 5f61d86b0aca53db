-- ===== src/Skiplist/Levels.antt =====
-- `slRandomLevel`.
use quick.Prelude.{
  inr, Option-cases, inl, ℕ, suc, ◌+◌, ◌%◌, ◌≤◌, ◌^◌, ◌≡◌, refl, sym, ap, ◌∙◌, none, some, List, [],
  ◌∷◌, ◌++◌, length, arith, Bool, true, false, ltb, leb, Bool-cases, if◌then◌else◌,
}
use quick.Skiplist.Nodes.{max_level}
use quick.Skiplist.Search.{raise_level, random_level}

-- A number that raises the level.
abbrev pub is_low : ℕ → Bool
is_low r = leb (r % 2 ^ 16) 16383

abbrev pub AllLow : List ℕ → Type 0
AllLow [] = Unit
AllLow (r ∷ draws) = (is_low r ≡ true) × AllLow draws

raise_level-low :
    (n : ℕ) (low : List ℕ) (r : ℕ) (rest : List ℕ)
    → AllLow low
    → is_low r ≡ false
    → raise_level n (low ++ (r ∷ rest)) ≡ some (n + length low)
unfolding raise_level
raise_level-low n [] r rest all high = rw high (ap some (omega arith))
raise_level-low n (l ∷ low) r rest all high =
    rw (all.0) (raise_level-low (n + 1) low r rest all.1 high ∙ ap some (omega arith))

-- When a number that does not raise the level comes behind some that do, `slRandomLevel` ends, and
-- the level is one more than there are of these, but 32 at most.
pub random_level-low :
    (low : List ℕ) (r : ℕ) (rest : List ℕ)
    → AllLow low
    → is_low r ≡ false
    → random_level (low ++ (r ∷ rest))
      ≡ some (if ltb (suc (length low)) max_level then suc (length low) else max_level)
unfolding random_level
random_level-low low r rest all high =
    let level : raise_level 1 (low ++ (r ∷ rest)) ≡ some (suc (length low)) =
      raise_level-low 1 low r rest all high ∙ ap some (omega arith) in
    rw level refl

raise_level-le : (n m : ℕ) (draws : List ℕ) → raise_level n draws ≡ some m → n ≤ m
unfolding raise_level
raise_level-le n m [] e = let clash : none ≡ some m = e in cc
raise_level-le n m (r ∷ draws) e = elim (Bool-cases (is_low r)) [
  | inl low ↦
      let more : raise_level (n + 1) draws ≡ some m = sym (rw low refl) ∙ e in
      omega (arith, raise_level-le (n + 1) m draws more)
  | inr high ↦
      let same : some n ≡ some m = sym (rw high refl) ∙ e in
      let here : n ≡ m = cc in omega (arith, here)
]

pub random_level-bounds :
    (draws : List ℕ) (n : ℕ) → random_level draws ≡ some n → (1 ≤ n) × (n ≤ max_level)
unfolding random_level
random_level-bounds draws n e = elim (Option-cases (raise_level 1 draws)) [
  | inl z ↦ let clash : none ≡ some n = sym (rw z refl) ∙ e in cc
  | inr (m, z) ↦
      let same : some (if ltb m max_level then m else max_level) ≡ some n = sym (rw z refl) ∙ e in
      let here : (if ltb m max_level then m else max_level) ≡ n = cc in
      let least = raise_level-le 1 m draws z in
      (ground (arith, here, least), ground (arith, here, least))
]
