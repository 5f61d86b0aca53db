-- ===== src/Prelude/Buffers.antt =====
-- A C array that is filled from the left: the bytes written so far, then what the memory held.
use mathlib.Core.Path.{◌≡◌, refl, ap}
use mathlib.Core.List.{List, [], ◌∷◌, ◌++◌}
use Prim.Native.Nat.{ℕ, zero, suc, ◌+◌}
use native.Mathlib.Omega.{arith}
use quick.Prelude.Lists.{length, set, get_or, take}

module _ {ℓ} {A : Type ℓ} where
  -- A write `k` places behind the part `w` leaves `w` alone.
  pub set-append :
      (w r : List A) (i k : ℕ) (v : A) → i ≡ length w + k → set (w ++ r) i v ≡ w ++ set r k v
  set-append [] r i k v e = ap (λ n. set r n v) (omega arith)
  set-append (y ∷ w) r zero k v e = absurd (omega arith)
  set-append (y ∷ w) r (suc i) k v e = ap (λ t. y ∷ t) (set-append w r i k v (omega arith))

  pub get_or-append :
      (w r : List A) (i k : ℕ) (d : A) → i ≡ length w + k → get_or (w ++ r) i d ≡ get_or r k d
  get_or-append [] r i k d e = ap (λ n. get_or r n d) (omega arith)
  get_or-append (y ∷ w) r zero k d e = absurd (omega arith)
  get_or-append (y ∷ w) r (suc i) k d e = get_or-append w r i k d (omega arith)

  pub take-append : (w r : List A) (n : ℕ) → n ≡ length w → take n (w ++ r) ≡ w
  take-append [] r zero e = refl
  take-append [] r (suc n) e = absurd (omega arith)
  take-append (y ∷ w) r zero e = absurd (omega arith)
  take-append (y ∷ w) r (suc n) e = ap (λ t. y ∷ t) (take-append w r n (omega arith))

  pub append-cons : (w r : List A) (x : A) → (w ++ (x ∷ [])) ++ r ≡ w ++ (x ∷ r)
  append-cons [] r x = refl
  append-cons (y ∷ w) r x = ap (λ t. y ∷ t) (append-cons w r x)
