-- ===== src/Array/Insert.antt =====
-- `insert` of lua-array.c on sorted slots, from its search and its shifting loop.
use quick.Prelude.{
  ℕ, suc, ◌-◌, ◌≤◌, ◌<◌, ◌≡◌, refl, sym, ap, ◌∙◌, ◌⊎◌, inl, inr, Bool, true, false, some, ltb, ◌==◌,
  if◌then◌else◌, arith, Bool-cases, tests,
}
use quick.Array.{Slots, put, shift_up, place, insert}
use quick.Array.Shift.{
  Filled, Rising, put_self, put_other, shift_up_low, shift_up_high, shift_up_back,
}
use quick.Array.Place.{Below, Above, search_slot_lem}

-- The keys with `key` put before the one at `p`.
abbrev opened : ℕ → ℕ → (ℕ → ℕ) → ℕ → ℕ
opened p key f j = if ltb j p then f j else if j == p then key else f (j - 1)

-- The slots that an insertion leaves: `n'` sorted keys, which are the old ones and the new one.
pub record Inserted (key n : ℕ) (f : ℕ → ℕ) (slots slots' : Slots) (n' : ℕ) : Type 0 where
  pub keys : ℕ → ℕ
  pub filled : Filled slots' n' keys
  pub rising : Rising keys n'
  pub has_key : (j : ℕ) × (j < n') × (keys j ≡ key)
  pub has_old : (i : ℕ) → i < n → (j : ℕ) × (j < n') × (keys j ≡ f i)
  pub only : (j : ℕ) → j < n' → (keys j ≡ key) ⊎ ((i : ℕ) × (i < n) × (keys j ≡ f i))
  pub behind : (j : ℕ) → n < j → slots' j ≡ slots j
  pub at_most : n' ≤ suc n

module _ (slots : Slots) (key n : ℕ) (f : ℕ → ℕ) (filled : Filled slots n f) (rising : Rising f n)
    (p : ℕ) (pn : p ≤ n) (below : Below f p key) (above : Above f p n key) where
  opened_low : (j : ℕ) → j < p → opened p key f j ≡ f j
  opened_low j h = ground arith

  opened_at : opened p key f p ≡ key
  opened_at = ground arith

  opened_high : (j : ℕ) → p < j → opened p key f j ≡ f (j - 1)
  opened_high j h = ground arith

  order_cases : (j : ℕ) → (j < p) ⊎ ((j ≡ p) ⊎ (p < j))
  order_cases j = ground arith

  opened-Filled : Filled (put p (some key) (shift_up (n - p) p slots)) (suc n) (opened p key f)
  opened-Filled j lt = elim (order_cases j) [
    | inl h ↦
        put_other p (some key) _ j (omega arith)
        ∙ shift_up_low (n - p) p slots j (omega arith)
        ∙ filled j (omega arith)
        ∙ ap some (sym (opened_low j h))
    | inr (inl h) ↦
        ap (put p (some key) (shift_up (n - p) p slots)) h
        ∙ put_self p (some key) _
        ∙ ap some (sym opened_at ∙ ap (opened p key f) (sym h))
    | inr (inr h) ↦
        put_other p (some key) _ j (omega arith)
        ∙ shift_up_back (n - p) p slots j h (omega arith)
        ∙ filled (j - 1) (omega arith)
        ∙ ap some (sym (opened_high j h))
  ]

  opened_lt : (j k : ℕ) → j < k → k < suc n → opened p key f j < opened p key f k
  opened_lt j k jk kn = elim (order_cases j) [
    | inl h ↦ elim (order_cases k) [
      | inl h' ↦ omega (arith, opened_low j h, opened_low k h', rising j k jk (omega arith))
      | inr (inl h') ↦ omega (arith, opened_low j h, ap (opened p key f) h', opened_at, below j h)
      | inr (inr h') ↦ elim (order_cases (k - 1)) [
        | inl small ↦ absurd (omega arith)
        | inr _ ↦ omega (
          arith,
          opened_low j h,
          opened_high k h',
          below j h,
          above (k - 1) (omega arith) (omega arith),
        )
      ]
    ]
    | inr (inl h) ↦ omega (
      arith,
      ap (opened p key f) h,
      opened_at,
      opened_high k (omega arith),
      above (k - 1) (omega arith) (omega arith),
    )
    | inr (inr h) ↦ omega (
      arith,
      opened_high j h,
      opened_high k (omega arith),
      rising (j - 1) (k - 1) (omega arith) (omega arith),
    )
  ]

  opened_old : (i : ℕ) → i < n → (j : ℕ) × (j < suc n) × (opened p key f j ≡ f i)
  opened_old i lt = elim (Bool-cases (ltb i p)) [
    | inl e ↦ (i, omega arith, opened_low i (omega (tests, e)))
    | inr e ↦
        let ge : p ≤ i = ground arith in
        let one_less : suc i - 1 ≡ i = omega arith in
        (suc i, omega arith, opened_high (suc i) (omega arith) ∙ ap f one_less)
  ]

  opened_only :
      (j : ℕ)
      → j < suc n
      → (opened p key f j ≡ key) ⊎ ((i : ℕ) × (i < n) × (opened p key f j ≡ f i))
  opened_only j lt = elim (order_cases j) [
    | inl h ↦ inr (j, omega arith, opened_low j h)
    | inr (inl h) ↦ inl (ap (opened p key f) h ∙ opened_at)
    | inr (inr h) ↦ inr (j - 1, omega arith, opened_high j h)
  ]

  opened-Inserted : Inserted key n f slots (put p (some key) (shift_up (n - p) p slots)) (suc n)
  opened-Inserted = record {
    keys = opened p key f;
    filled = opened-Filled;
    rising = opened_lt;
    has_key = (p, omega arith, opened_at);
    has_old = opened_old;
    only = opened_only;
    behind = λ j h.
        put_other p (some key) _ j (omega arith) ∙ shift_up_high (n - p) p slots j (omega arith);
    at_most = omega arith;
  }

-- On strictly rising keys `insert` finds no error. The slots then hold, strictly rising, the old
-- keys and the new one and nothing else, one more in number if the key was new; what lies behind
-- them is untouched.
pub insert-Inserted :
    (slots : Slots) (key n : ℕ) (f : ℕ → ℕ)
    → Filled slots n f
    → Rising f n
    → (slots' : Slots) × (added : Bool) × (insert key n slots ≡ some (slots', added))
      × Inserted key n f slots slots' (if added then suc n else n)
unfolding insert
insert-Inserted slots key n f filled rising =
    elim (search_slot_lem slots key n f filled rising (suc n) 0 n (omega arith) (omega arith)
      (omega arith) (λ j h. absurd (omega arith)) (λ j h h'. absurd (omega arith))) [
        | inl (e, j, lt, hit) ↦ (
          slots,
          false,
          ap (place key n slots) e,
          record {
            keys = f;
            filled = filled;
            rising = rising;
            has_key = (j, lt, hit);
            has_old = λ i h. (i, h, refl);
            only = λ j h. inr (j, h, refl);
            behind = λ j h. refl;
            at_most = omega arith;
          },
        )
        | inr (p, e, pn, below, above) ↦ (
          put p (some key) (shift_up (n - p) p slots),
          true,
          ap (place key n slots) e,
          opened-Inserted slots key n f filled rising p pn below above,
        )
      ]
