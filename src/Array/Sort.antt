-- ===== src/Array/Sort.antt =====
-- `sort_sparse` of lua-array.c: the slots noted by stores, and the live keys among them.
use quick.Prelude.{
  ℕ, zero, suc, ◌+◌, ◌-◌, ◌≤◌, ◌<◌, ◌≡◌, refl, sym, subst, ap, ◌∙◌, ◌⊎◌, inl, inr, Bool, true,
  false, Option, none, some, if◌then◌else◌, arith, Bool-cases,
}
use quick.Array.{Slots, SparseArray, put, is_live, sort_from, clear_from, sort_sparse, negative}
use quick.Array.Shift.{Filled, Rising, put_self, put_other}
use quick.Array.Insert.{Inserted, insert-Inserted}

-- The first `n` slots hold, strictly rising, the live ones among the first `i` keys of `g`, and
-- the slots from `i` to `len` still hold the keys of `g`.
pub record Sorted (live : ℕ → Bool) (g : ℕ → ℕ) (len i : ℕ) (slots : Slots) (n : ℕ) : Type 0 where
  pub keys : ℕ → ℕ
  pub filled : Filled slots n keys
  pub rising : Rising keys n
  pub only : (j : ℕ) → j < n → (k : ℕ) × (k < i) × (keys j ≡ g k) × (live (g k) ≡ true)
  pub every : (k : ℕ) → k < i → live (g k) ≡ true → (j : ℕ) × (j < n) × (keys j ≡ g k)
  pub unread : (j : ℕ) → i ≤ j → j < len → slots j ≡ some (g j)
  pub at_most : n ≤ i

at_or_before : (k i : ℕ) → k < i + 1 → (k < i) ⊎ (k ≡ i)
at_or_before k i h = ground arith

module _ (live : ℕ → Bool) (g : ℕ → ℕ) (len i : ℕ) (slots : Slots) (n : ℕ)
    (v : Sorted live g len i slots n) where
  keep-Sorted : live (g i) ≡ false → Sorted live g len (i + 1) slots n
  keep-Sorted dead = record {
    keys = v.keys;
    filled = v.filled;
    rising = v.rising;
    only = λ j h. let (k, lt, e, alive) = v.only j h in (k, omega arith, e, alive);
    every = every;
    unread = λ j h h'. v.unread j (omega arith) h';
    at_most = omega (arith, v.at_most);
  }
    where
      every : (k : ℕ) → k < i + 1 → live (g k) ≡ true → (j : ℕ) × (j < n) × (v.keys j ≡ g k)
      every k h alive = elim (at_or_before k i h) [
        | inl lt ↦ v.every k lt alive
        | inr same ↦ absurd (grind (arith, ap (λ x. live (g x)) same, alive, dead))
      ]

  add-Sorted :
      (slots' : Slots) (n' : ℕ)
      → live (g i) ≡ true
      → Inserted (g i) n v.keys slots slots' n'
      → Sorted live g len (i + 1) slots' n'
  add-Sorted slots' n' alive w = record {
    keys = w.keys;
    filled = w.filled;
    rising = w.rising;
    only = only;
    every = every;
    unread = λ j h h'. w.behind j (omega (arith, v.at_most)) ∙ v.unread j (omega arith) h';
    at_most = omega (arith, v.at_most, w.at_most);
  }
    where
      only : (j : ℕ) → j < n' → (k : ℕ) × (k < i + 1) × (w.keys j ≡ g k) × (live (g k) ≡ true)
      only j h = elim (w.only j h) [
        | inl e ↦ (i, omega arith, e, alive)
        | inr (m, lt, e) ↦ let (k, kl, e', alive') = v.only m lt in (k, omega arith, e ∙ e', alive')
      ]

      every : (k : ℕ) → k < i + 1 → live (g k) ≡ true → (j : ℕ) × (j < n') × (w.keys j ≡ g k)
      every k h alive' = elim (at_or_before k i h) [
        | inl lt ↦
            let (m, ml, e) = v.every k lt alive' in
            let (j, jl, e') = w.has_old m ml in (j, jl, e' ∙ e)
        | inr same ↦ let (j, jl, e) = w.has_key in (j, jl, e ∙ ap g (sym same))
      ]

module _ {ℓ} {A : Type ℓ} (rawlen : (ℕ → Option A) → ℕ) (items : ℕ → Option A) (g : ℕ → ℕ)
    (len : ℕ) where
  sort_from_lem :
      (rest i n : ℕ) (slots : Slots)
      → i + rest ≡ len
      → Sorted (is_live rawlen items) g len i slots n
      → (n' : ℕ) × (slots' : Slots) × (sort_from rawlen items rest i n slots ≡ some (n', slots'))
        × Sorted (is_live rawlen items) g len len slots' n'
  unfolding sort_from
  sort_from_lem zero i n slots total v =
      let same : i ≡ len = omega arith in
      (n, slots, refl, subst (λ x. Sorted (is_live rawlen items) g len x slots n) same v)
  sort_from_lem (suc rest) i n slots total v =
      let here = v.unread i (omega arith) (omega arith) in
      elim (Bool-cases (is_live rawlen items (g i))) [
        | inr dead ↦
            rw (here, dead, sort_from)
              (sort_from_lem rest (i + 1) n slots (omega arith)
                (keep-Sorted (is_live rawlen items) g len i slots n v dead))
        | inl alive ↦
            let (slots', added, e, w) = insert-Inserted slots (g i) n v.keys v.filled v.rising in
            rw (here, alive, e, sort_from)
              (sort_from_lem rest (i + 1) (if added then suc n else n) slots' (omega arith) (
                add-Sorted (is_live rawlen items) g len i slots n v slots'
                  (if added then suc n else n) alive w))
      ]

clear_from_low : (k i : ℕ) (slots : Slots) (j : ℕ) → j < i → clear_from k i slots j ≡ slots j
unfolding clear_from
clear_from_low zero i slots j h = refl
clear_from_low (suc k) i slots j h =
    clear_from_low k (i + 1) (put i none slots) j (omega arith)
    ∙ put_other i none slots j (omega arith)

clear_from_nil :
    (k i : ℕ) (slots : Slots) (j : ℕ) → i ≤ j → j < i + k → clear_from k i slots j ≡ none
unfolding clear_from
clear_from_nil zero i slots j h lt = absurd (omega arith)
clear_from_nil (suc k) i slots j h lt = elim (at_or_before i j (omega arith)) [
  | inl more ↦ clear_from_nil k (i + 1) (put i none slots) j (omega arith) (omega arith)
  | inr same ↦
      ap (clear_from k (i + 1) (put i none slots)) (sym same)
      ∙ clear_from_low k (i + 1) (put i none slots) i (omega arith)
      ∙ put_self i none slots
]

-- What `sort_sparse` leaves of the keys `g` in `len` slots.
pub record Sparse {ℓ} {A : Type ℓ} (rawlen : (ℕ → Option A) → ℕ) (a : SparseArray A) (g : ℕ → ℕ)
    (len : ℕ) (b : SparseArray A) (n : ℕ) : Type ℓ where
  pub items : b.items ≡ a.items
  pub number : b.sparselen ≡ negative n
  pub keys : ℕ → ℕ
  pub filled : Filled b.sparse n keys
  pub rising : Rising keys n
  pub only :
      (j : ℕ) → j < n → (k : ℕ) × (k < len) × (keys j ≡ g k) × (is_live rawlen a.items (g k) ≡ true)
  pub every :
      (k : ℕ) → k < len → is_live rawlen a.items (g k) ≡ true → (j : ℕ) × (j < n) × (keys j ≡ g k)
  pub cleared : (j : ℕ) → n ≤ j → j < len → b.sparse j ≡ none

-- If `len` slots hold keys, in any order and repeated or not, `sort_sparse` finds no error, and
-- `n` slots then hold, strictly rising, those keys above the border that have a value, each once
-- and no other; the slots from `n` to `len` are nil, key 0 holds `-n`, and the items are as before.
pub sort_sparse_lem {ℓ} :
    {A : Type ℓ} (rawlen : (ℕ → Option A) → ℕ) (a : SparseArray A) (g : ℕ → ℕ) (len : ℕ)
    → Filled a.sparse len g
    → (n : ℕ) × (b : SparseArray A) × (sort_sparse rawlen a len ≡ some (n, b))
      × Sparse rawlen a g len b n
unfolding sort_sparse
sort_sparse_lem rawlen a g len filled =
    let (n, slots, e, v) =
      sort_from_lem rawlen a.items g len len 0 0 a.sparse (omega arith) (record {
        keys = g;
        filled = λ j h. absurd (omega arith);
        rising = λ j k h h'. absurd (omega arith);
        only = λ j h. absurd (omega arith);
        every = λ k h alive. absurd (omega arith);
        unread = λ j h h'. filled j h';
        at_most = omega arith;
      }) in
    (
      n,
      record a { sparselen = negative n; sparse = clear_from (len - n) n slots },
      rw e,
      record {
        items = refl;
        number = refl;
        keys = v.keys;
        filled = λ j h. clear_from_low (len - n) n slots j h ∙ v.filled j h;
        rising = v.rising;
        only = v.only;
        every = v.every;
        cleared = λ j h h'. clear_from_nil (len - n) n slots j h (omega (arith, v.at_most));
      },
    )
