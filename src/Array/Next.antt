-- ===== src/Array/Next.antt =====
-- `next` of lua-array.c behind the border: the binary search in the sorted slots.
use quick.Prelude.{
  ℕ, zero, suc, ◌+◌, ◌/◌, ◌≤◌, ◌<◌, ◌≡◌, ap, inl, inr, true, Option, some, ltb, leb, if◌then◌else◌,
  arith, Bool-cases, tests,
}
use quick.Array.{
  Slots, SparseArray, seek, next_slot, sorted_slots, negative, at_slot, entry_at, done,
}
use quick.Array.Shift.{Filled, Rising}
use quick.Array.Place.{Below, rising_le}

-- `p` is the number of keys below `idx`.
abbrev pub Sought : ℕ → (ℕ → ℕ) → ℕ → ℕ → Type 0
Sought n f idx p = (p ≤ n) × Below f p idx × ((j : ℕ) → p ≤ j → j < n → idx ≤ f j)

module _ (slots : Slots) (idx n : ℕ) (f : ℕ → ℕ) (filled : Filled slots n f)
    (rising : Rising f n) where
  seek_lem :
      (fuel b e : ℕ)
      → e < b + fuel
      → b ≤ e
      → e ≤ n
      → Below f b idx
      → ((j : ℕ) → e ≤ j → j < n → idx ≤ f j)
      → (p : ℕ) × (seek fuel slots idx b e ≡ some p) × Sought n f idx p
  unfolding seek
  seek_lem zero b e enough be en below above = absurd (omega arith)
  seek_lem (suc fuel) b e enough be en below above = elim (Bool-cases (ltb b e)) [
    | inr ge ↦
        let same : b ≡ e = ground arith in
        (b, rw (ge, seek), (omega arith, below, λ j h h'. above j (omega arith) h'))
    | inl lt ↦
        let b_lt : b < e = omega (tests, lt) in
        let here = filled ((b + e) / 2) (omega arith) in
        elim (Bool-cases (ltb idx (f ((b + e) / 2)))) [
          | inl large ↦
              rw (lt, here, large, seek)
                (seek_lem fuel b ((b + e) / 2) (omega arith) (omega arith) (omega arith) below
                  (λ j h h'.
                    omega
                      (tests, large, rising_le slots idx n f filled rising ((b + e) / 2) j h h')))
          | inr most ↦ elim (Bool-cases (ltb (f ((b + e) / 2)) idx)) [
            | inl small ↦
                rw (lt, here, most, small, seek)
                  (seek_lem fuel ((b + e) / 2 + 1) e (omega arith) (omega arith) en
                    (λ j h. omega (
                      tests,
                      small,
                      rising_le slots idx n f filled rising j ((b + e) / 2) (omega arith)
                          (omega arith),
                    ))
                    above)
            | inr least ↦
                let hit : f ((b + e) / 2) ≡ idx = ground arith in
                (
                  (b + e) / 2,
                  rw (lt, here, most, least, seek),
                  (
                    omega arith,
                    (λ j h. omega (arith, hit, rising j ((b + e) / 2) h (omega arith))),
                    λ j h h'.
                        omega
                          (arith, hit, rising_le slots idx n f filled rising ((b + e) / 2) j h h'),
                  ),
                )
          ]
        ]
  ]

sorted_slots_sorted {ℓ} :
    {A : Type ℓ} (rawlen : (ℕ → Option A) → ℕ) (a : SparseArray A) (n : ℕ)
    → a.sparselen ≡ negative n
    → sorted_slots rawlen a ≡ some (n, a)
unfolding sorted_slots
sorted_slots_sorted rawlen a zero e = rw e
sorted_slots_sorted rawlen a (suc n) e =
    let below : leb (0 + 0) (0 + suc n) ≡ true = ground arith in rw (e, below)

-- With sorted slots, `next` beyond the border finds no error and changes nothing. It returns the
-- first key that is not below `idx`, with its value, or nothing if all keys are below.
pub next_slot_lem {ℓ} :
    {A : Type ℓ} (rawlen : (ℕ → Option A) → ℕ) (a : SparseArray A) (idx n : ℕ) (f : ℕ → ℕ)
    → a.sparselen ≡ negative n
    → Filled a.sparse n f
    → Rising f n
    → (p : ℕ) × (next_slot rawlen idx a
        ≡ some (if leb n p then done else entry_at a (some (f p)), a))
      × Sought n f idx p
unfolding next_slot
next_slot_lem rawlen a idx n f number filled rising =
    let (p, e, at_p) =
      seek_lem a.sparse idx n f filled rising (suc n) 0 n (omega arith) (omega arith) (omega arith)
        (λ j h. absurd (omega arith)) (λ j h h'. absurd (omega arith)) in
    (p, rw (sorted_slots_sorted rawlen a n number, e) (ap (λ r. some (r, a)) (entry_of p)), at_p)
  where
    entry_of : (p : ℕ) → at_slot a n p ≡ (if leb n p then done else entry_at a (some (f p)))
    entry_of p = elim (Bool-cases (leb n p)) [
      | inl e ↦ rw e
      | inr e ↦ rw e (ap (entry_at a) (filled p (ground arith)))
    ]
