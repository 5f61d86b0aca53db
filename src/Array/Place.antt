-- ===== src/Array/Place.antt =====
-- The binary search of `insert` in lua-array.c: the place of a key among sorted ones.
use quick.Prelude.{
  ℕ, zero, suc, ◌+◌, ◌/◌, ◌≤◌, ◌<◌, ◌≡◌, ap, ◌⊎◌, inl, inr, ltb, ◌==◌, arith, Bool-cases, tests,
}
use quick.Array.{Slots, Search, replicate, before, search_slot}
use quick.Array.Shift.{Filled, Rising}

-- Where a search may end: at a slot with the key, or at the place between the smaller keys and
-- the larger ones.
abbrev pub Below : (ℕ → ℕ) → ℕ → ℕ → Type 0
Below f b key = (j : ℕ) → j < b → f j < key

abbrev pub Above : (ℕ → ℕ) → ℕ → ℕ → ℕ → Type 0
Above f e n key = (j : ℕ) → e ≤ j → j < n → key < f j

abbrev pub Found : ℕ → (ℕ → ℕ) → ℕ → Search → Type 0
Found n f key s =
    ((s ≡ replicate) × (j : ℕ) × (j < n) × (f j ≡ key))
    ⊎ ((p : ℕ) × (s ≡ before p) × (p ≤ n) × Below f p key × Above f p n key)

module _ (slots : Slots) (key n : ℕ) (f : ℕ → ℕ) (filled : Filled slots n f)
    (rising : Rising f n) where
  pub rising_le : (j k : ℕ) → j ≤ k → k < n → f j ≤ f k
  rising_le j k h lt = elim (Bool-cases (ltb j k)) [
    | inl e ↦ omega (tests, e, rising j k (omega (tests, e)) lt)
    | inr e ↦ let same : j ≡ k = ground arith in omega (arith, ap f same)
  ]

  pub search_slot_lem :
      (fuel b e : ℕ)
      → e < b + fuel
      → b ≤ e
      → e ≤ n
      → Below f b key
      → Above f e n key
      → Found n f key (search_slot fuel slots key b e)
  unfolding search_slot
  search_slot_lem zero b e enough be en below above = absurd (omega arith)
  search_slot_lem (suc fuel) b e enough be en below above = elim (Bool-cases (ltb b e)) [
    | inr ge ↦
        let same : b ≡ e = ground arith in
        inr (e, rw (ge, search_slot), en, (λ j lt. below j (omega arith)), above)
    | inl lt ↦
        let b_lt : b < e = omega (tests, lt) in
        let here = filled ((b + e) / 2) (omega arith) in
        elim (Bool-cases (f ((b + e) / 2) == key)) [
          | inl hit ↦ inl (rw (lt, here, hit, search_slot), (b + e) / 2, omega arith, ground arith)
          | inr miss ↦ elim (Bool-cases (ltb (f ((b + e) / 2)) key)) [
            | inl small ↦
                rw (lt, here, miss, small, search_slot)
                  (search_slot_lem fuel ((b + e) / 2 + 1) e (omega arith) (omega arith) en
                    (λ j h.
                      omega (tests, small, rising_le j ((b + e) / 2) (omega arith) (omega arith)))
                    above)
            | inr large ↦
                let over : key < f ((b + e) / 2) = ground arith in
                rw (lt, here, miss, large, search_slot)
                  (search_slot_lem fuel b ((b + e) / 2) (omega arith) (omega arith) (omega arith)
                    below (λ j h h'. omega (arith, over, rising_le ((b + e) / 2) j h h')))
          ]
        ]
  ]
