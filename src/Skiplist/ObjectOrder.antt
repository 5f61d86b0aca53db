-- ===== src/Skiplist/ObjectOrder.antt =====
-- `compareslObj` and the order of a dictionary.
use quick.Prelude.{
  Bool-cases, ℕ, zero, suc, ◌+◌, ◌-◌, ◌%◌, ◌≤◌, ◌<◌, ◌^◌, ◌≡◌, refl, sym, ap, ap₂, ◌∙◌, [], ◌∷◌,
  length, arith, Bool, true, false, ◌⊎◌, inl, inr, leb, ltb,
}
use quick.Prelude.Int.{ℤ, pos, negsuc, ltb_ℤ, leb_ℤ}
use quick.Skiplist.Objects.{
  Obj, memcmp, to_int, length_difference, or_else, compare_obj, is_before, is_upto, equal_obj,
  is_zero,
}
use Prim.Native.Nat.{compare, Ordering}

-- The order of the bytes; a beginning is before the whole.
abbrev pub order : Obj → Obj → Ordering
order [] [] = Ordering.eq
order [] (y ∷ b) = Ordering.lt
order (x ∷ a) [] = Ordering.gt
order (x ∷ a) (y ∷ b) = elim (compare x y) [
  | Ordering.lt ↦ Ordering.lt
  | Ordering.eq ↦ order a b
  | Ordering.gt ↦ Ordering.gt
]

abbrev sign : ℤ → Ordering
sign (pos zero) = Ordering.eq
sign (pos (suc n)) = Ordering.gt
sign (negsuc n) = Ordering.lt

-- The length of an object fits an `int`.
abbrev pub Fits : Obj → Type 0
Fits a = length a < 2 ^ 31

longer : (n : ℕ) → suc n < 2 ^ 31 → sign (to_int ((suc n + 2 ^ 64 - 0) % 2 ^ 64)) ≡ Ordering.gt
longer n lt =
    let same : (suc n + 2 ^ 64 - 0) % 2 ^ 64 ≡ suc n = omega arith in
    let here : suc n % 2 ^ 32 ≡ suc n = omega arith in
    let small : ltb (suc n) (2 ^ 31) ≡ true = ground arith in rw (same, here, small) refl

shorter : (n : ℕ) → suc n < 2 ^ 31 → sign (to_int ((0 + 2 ^ 64 - suc n) % 2 ^ 64)) ≡ Ordering.lt
shorter n lt =
    let here : (0 + 2 ^ 64 - suc n) % 2 ^ 64 % 2 ^ 32 ≡ 2 ^ 32 - suc n = omega arith in
    let large : ltb (2 ^ 32 - suc n) (2 ^ 31) ≡ false = ground arith in rw (here, large) refl

sign-step :
    (t o : Ordering) (m d : ℤ)
    → sign (or_else m d) ≡ o
    → sign (or_else (elim t [ Ordering.lt ↦ negsuc 0 | Ordering.eq ↦ m | Ordering.gt ↦ pos 1 ]) d)
      ≡ elim t [ Ordering.lt ↦ Ordering.lt | Ordering.eq ↦ o | Ordering.gt ↦ Ordering.gt ]
sign-step Ordering.lt o m d e = refl
sign-step Ordering.eq o m d e = e
sign-step Ordering.gt o m d e = refl

difference-suc : (m n : ℕ) → n < 2 ^ 31 → suc m + 2 ^ 64 - suc n ≡ m + 2 ^ 64 - n
difference-suc m n lt = omega arith

end-suc : (n p q : ℕ) → (suc n ≡ suc p) ⊎ (suc n ≡ suc q) → (n ≡ p) ⊎ (n ≡ q)
end-suc n p q (inl e) = inl (omega (arith, e))
end-suc n p q (inr e) = inr (omega (arith, e))

sign-compare :
    (n : ℕ) (a b : Obj)
    → n ≤ length a
    → n ≤ length b
    → (n ≡ length a) ⊎ (n ≡ length b)
    → Fits a
    → Fits b
    → sign (or_else (memcmp n a b) (length_difference a b)) ≡ order a b
unfolding memcmp
sign-compare zero [] [] le le' end fa fb = refl
sign-compare zero [] (y ∷ b) le le' end fa fb = shorter (length b) fb
sign-compare zero (x ∷ a) [] le le' end fa fb = longer (length a) fa
sign-compare zero (x ∷ a) (y ∷ b) le le' (inl e) fa fb = absurd (omega (arith, e))
sign-compare zero (x ∷ a) (y ∷ b) le le' (inr e) fa fb = absurd (omega (arith, e))
sign-compare (suc n) [] b le le' end fa fb = absurd (omega arith)
sign-compare (suc n) (x ∷ a) [] le le' end fa fb = absurd (omega arith)
sign-compare (suc n) (x ∷ a) (y ∷ b) le le' end fa fb =
    let ih =
      sign-compare n a b (omega arith) (omega arith) (end-suc n (length a) (length b) end)
        (omega arith) (omega arith) in
    let same = difference-suc (length a) (length b) (omega arith) in
    rw same (sign-step (compare x y) (order a b) (memcmp n a b) (length_difference a b) ih)

sign-compare_obj : (a b : Obj) → Fits a → Fits b → sign (compare_obj a b) ≡ order a b
unfolding compare_obj
sign-compare_obj a b fa fb = elim (Bool-cases (leb (length a) (length b))) [
  | inl short ↦ rw short (sign-compare (length a) a b (omega arith) (ground arith) (inl refl) fa fb)
  | inr long ↦ rw long (sign-compare (length b) a b (ground arith) (omega arith) (inr refl) fa fb)
]

abbrev pub is_lt : Ordering → Bool
is_lt Ordering.lt = true
is_lt _ = false

abbrev pub is_le : Ordering → Bool
is_le Ordering.gt = false
is_le _ = true

abbrev pub is_eq : Ordering → Bool
is_eq Ordering.eq = true
is_eq _ = false

sign-lt : (v : ℤ) → ltb_ℤ v (pos 0) ≡ is_lt (sign v)
sign-lt (pos zero) = refl
sign-lt (pos (suc n)) = ground arith
sign-lt (negsuc n) = ground arith

sign-le : (v : ℤ) → leb_ℤ v (pos 0) ≡ is_le (sign v)
sign-le (pos zero) = refl
sign-le (pos (suc n)) = ground arith
sign-le (negsuc n) = ground arith

sign-eq : (v : ℤ) → is_zero v ≡ is_eq (sign v)
sign-eq (pos zero) = refl
sign-eq (pos (suc n)) = ground arith
sign-eq (negsuc n) = ground arith

module _ (a b : Obj) (fa : Fits a) (fb : Fits b) where
  -- For objects of less than 2^31 bytes, `compareslObj` is below 0 just where the first object is
  -- before the second in the order of a dictionary.
  pub is_before-order : is_before a b ≡ is_lt (order a b)
  is_before-order = sign-lt (compare_obj a b) ∙ ap is_lt (sign-compare_obj a b fa fb)

  pub is_upto-order : is_upto a b ≡ is_le (order a b)
  is_upto-order = sign-le (compare_obj a b) ∙ ap is_le (sign-compare_obj a b fa fb)

  pub equal_obj-order : equal_obj a b ≡ is_eq (order a b)
  equal_obj-order = sign-eq (compare_obj a b) ∙ ap is_eq (sign-compare_obj a b fa fb)

abbrev pub flip : Ordering → Ordering
flip Ordering.lt = Ordering.gt
flip Ordering.eq = Ordering.eq
flip Ordering.gt = Ordering.lt

pub order-flip : (a b : Obj) → order b a ≡ flip (order a b)
order-flip [] [] = refl
order-flip [] (y ∷ b) = refl
order-flip (x ∷ a) [] = refl
order-flip (x ∷ a) (y ∷ b) = ground (arith, order-flip a b)

pub order-same : (a : Obj) → order a a ≡ Ordering.eq
order-same [] = refl
order-same (x ∷ a) = ground (arith, order-same a)

pub order-eq : (a b : Obj) → order a b ≡ Ordering.eq → a ≡ b
order-eq [] [] e = refl
order-eq [] (y ∷ b) e = cc
order-eq (x ∷ a) [] e = cc
order-eq (x ∷ a) (y ∷ b) e =
    let heads : x ≡ y = ground arith in
    let tails : order a b ≡ Ordering.eq = ground arith in
    ap₂ (λ z zs. z ∷ zs) heads (order-eq a b tails)

pub order_trans :
    (a b c : Obj) → order a b ≡ Ordering.lt → order b c ≡ Ordering.lt → order a c ≡ Ordering.lt
order_trans [] [] c p q = cc
order_trans [] (y ∷ b) [] p q = cc
order_trans [] (y ∷ b) (z ∷ c) p q = refl
order_trans (x ∷ a) [] c p q = cc
order_trans (x ∷ a) (y ∷ b) [] p q = cc
order_trans (x ∷ a) (y ∷ b) (z ∷ c) p q = ground (arith, order_trans a b c)

pub order_total :
    (a b c : Obj) → order a b ≡ Ordering.lt → (order a c ≡ Ordering.lt) ⊎ (order c b ≡ Ordering.lt)
order_total a b c p = go (order a c) refl
  where
    go : (t : Ordering) → order a c ≡ t → (order a c ≡ Ordering.lt) ⊎ (order c b ≡ Ordering.lt)
    go Ordering.lt e = inl e
    go Ordering.eq e = inr (ap (λ k. order k b) (sym (order-eq a c e)) ∙ p)
    go Ordering.gt e =
        let before : order c a ≡ Ordering.lt = order-flip a c ∙ ap flip e in
        inr (order_trans c a b before p)
