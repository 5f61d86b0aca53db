-- ===== src/Prelude/Bits.antt =====
-- Exclusive or at variables: the law of the lowest digit, and the sum of parts that share no digit.
use Prim.Native.Nat.{
  ℕ, zero, suc, ◌+◌, ◌*◌, ◌/◌, ◌%◌, ◌^◌, ◌≤◌, ◌<◌, bit_xor, digits, differ, bit_xor-bitwise,
}
use mathlib.Core.Path.{◌≡◌, refl, ap, ap₂, ◌∙◌}
use native.Mathlib.Nat.{pow-suc}
use native.Mathlib.Omega.{arith}

-- The sum over the digits of two numbers, cut off after `fuel` of them.
abbrev folded : ℕ → ℕ → ℕ → ℕ
folded left right fuel = digits (λ y. y) differ fuel left right

folded_enough :
    (left right fuel more : ℕ)
    → left ≤ more
    → left ≤ fuel
    → folded left right fuel ≡ folded left right more
folded_enough zero right zero zero hm hf = refl
folded_enough zero right zero (suc more) hm hf = refl
folded_enough zero right (suc fuel) zero hm hf = refl
folded_enough zero right (suc fuel) (suc more) hm hf = refl
folded_enough (suc left) right zero more hm hf = absurd (omega arith)
folded_enough (suc left) right (suc fuel) zero hm hf = absurd (omega arith)
folded_enough (suc left) right (suc fuel) (suc more) hm hf =
    let rest = folded_enough (suc left / 2) (right / 2) fuel more (omega arith) (omega arith) in
    ap (λ t. t * 2 + differ (suc left % 2) (right % 2)) rest

pub zero-bit_xor : (b : ℕ) → bit_xor 0 b ≡ b
zero-bit_xor b = bit_xor-bitwise 0 b

pub bit_xor_step : (x y : ℕ) → bit_xor x y ≡ bit_xor (x / 2) (y / 2) * 2 + differ (x % 2) (y % 2)
bit_xor_step zero y = omega (arith, zero-bit_xor (y / 2), zero-bit_xor y)
bit_xor_step (suc x) y =
    let halves = folded_enough (suc x / 2) (y / 2) x (suc x / 2) (omega arith) (omega arith) in
    omega (arith, halves, bit_xor-bitwise (suc x) y, bit_xor-bitwise (suc x / 2) (y / 2))

differ-zero : (x : ℕ) → differ x 0 ≡ x
differ-zero zero = refl
differ-zero (suc x) = refl

xor_nothing : (fuel x : ℕ) → x ≤ fuel → bit_xor x 0 ≡ x
xor_nothing fuel zero small = zero-bit_xor 0
xor_nothing zero (suc x) small = absurd (omega arith)
xor_nothing (suc fuel) (suc x) small =
    let half = xor_nothing fuel (suc x / 2) (omega arith) in
    omega (arith, half, differ-zero (suc x % 2), bit_xor_step (suc x) 0)

pub bit_xor-zero : (a : ℕ) → bit_xor a 0 ≡ a
bit_xor-zero a = xor_nothing a a (omega arith)

doubled : (t y : ℕ) → bit_xor t (y / 2) ≡ t + y / 2 → bit_xor (t * 2) y ≡ t * 2 + y
doubled t y ih =
    bit_xor_step (t * 2) y
    ∙ ap₂ (λ a b. bit_xor a (y / 2) * 2 + differ b (y % 2)) halves even
    ∙ omega (arith, ih)
  where
    halves : t * 2 / 2 ≡ t
    halves = omega arith

    even : t * 2 % 2 ≡ 0
    even = omega arith

-- `(x << k) ^ y` for a `y` of at most `k` digits.
pub bit_xor-eq-add : (k x y : ℕ) → y < 2 ^ k → bit_xor (x * 2 ^ k) y ≡ x * 2 ^ k + y
bit_xor-eq-add zero x y h =
    let none_left : y ≡ 0 = omega arith in
    let whole : x * 2 ^ 0 ≡ x = omega arith in
    ap₂ bit_xor whole none_left ∙ bit_xor-zero x ∙ omega arith
bit_xor-eq-add (suc k) x y h =
    let power : 2 ^ suc k ≡ 2 ^ k * 2 = pow-suc _ _ in
    let shifted : x * 2 ^ suc k ≡ x * 2 ^ k * 2 = omega (arith, ap (λ (p : ℕ). x * p) power) in
    rw (shifted) (doubled (x * 2 ^ k) y (bit_xor-eq-add k x (y / 2) (omega arith)))
