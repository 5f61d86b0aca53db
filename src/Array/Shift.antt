-- ===== src/Array/Shift.antt =====
-- The store and the shifting loop of `insert` in lua-array.c, slot by slot.
use quick.Prelude.{
  ℕ, zero, suc, ◌+◌, ◌-◌, ◌≤◌, ◌<◌, ◌≡◌, ◌≢◌, refl, sym, ap, ◌∙◌, inl, inr, Option, some, ltb,
  arith, Bool-cases, tests,
}
use quick.Array.{Slots, put, shift_up}

-- The first `n` slots hold the keys `f`.
abbrev pub Filled : Slots → ℕ → (ℕ → ℕ) → Type 0
Filled slots n f = (j : ℕ) → j < n → slots j ≡ some (f j)

-- The first `n` keys rise strictly.
abbrev pub Rising : (ℕ → ℕ) → ℕ → Type 0
Rising f n = (j k : ℕ) → j < k → k < n → f j < f k

pub put_self : (s : ℕ) (v : Option ℕ) (slots : Slots) → put s v slots s ≡ v
unfolding put
put_self s v slots = ground arith

pub put_other : (s : ℕ) (v : Option ℕ) (slots : Slots) (j : ℕ) → j ≢ s → put s v slots j ≡ slots j
unfolding put
put_other s v slots j ne = ground arith

pub shift_up_low : (k end : ℕ) (slots : Slots) (j : ℕ) → j ≤ end → shift_up k end slots j ≡ slots j
unfolding shift_up
shift_up_low zero end slots j h = refl
shift_up_low (suc k) end slots j h =
    shift_up_low k end (put (end + suc k) (slots (end + k)) slots) j h
    ∙ put_other (end + suc k) (slots (end + k)) slots j (omega arith)

pub shift_up_high :
    (k end : ℕ) (slots : Slots) (j : ℕ) → end + k < j → shift_up k end slots j ≡ slots j
unfolding shift_up
shift_up_high zero end slots j h = refl
shift_up_high (suc k) end slots j h =
    shift_up_high k end (put (end + suc k) (slots (end + k)) slots) j (omega arith)
    ∙ put_other (end + suc k) (slots (end + k)) slots j (omega arith)

pub shift_up_mid :
    (k end : ℕ) (slots : Slots) (j : ℕ)
    → end ≤ j
    → j < end + k
    → shift_up k end slots (suc j) ≡ slots j
unfolding shift_up
shift_up_mid zero end slots j h lt = absurd (omega arith)
shift_up_mid (suc k) end slots j h lt = elim (Bool-cases (ltb j (end + k))) [
  | inl e ↦
      shift_up_mid k end (put (end + suc k) (slots (end + k)) slots) j h (omega (tests, e))
      ∙ put_other (end + suc k) (slots (end + k)) slots j (omega arith)
  | inr e ↦
      let last : j ≡ end + k = ground arith in
      shift_up_high k end (put (end + suc k) (slots (end + k)) slots) (suc j) (omega arith)
      ∙ ap (put (end + suc k) (slots (end + k)) slots) (omega arith)
      ∙ put_self (end + suc k) (slots (end + k)) slots
      ∙ ap slots (sym last)
]

pub shift_up_back :
    (k end : ℕ) (slots : Slots) (j : ℕ)
    → end < j
    → j ≤ end + k
    → shift_up k end slots j ≡ slots (j - 1)
shift_up_back k end slots zero h le = absurd (omega arith)
shift_up_back k end slots (suc j) h le =
    let one_less : suc j - 1 ≡ j = omega arith in
    shift_up_mid k end slots j (omega arith) (omega arith) ∙ ap slots (sym one_less)
