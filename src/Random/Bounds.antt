-- ===== src/Random/Bounds.antt =====
-- The ranges of what lua-random.c returns.
use quick.Prelude.{ℕ, ◌+◌, ◌-◌, ◌*◌, ◌^◌, ◌≤◌, ◌<◌, ◌≡◌, ◌≢◌, ap, ◌∙◌, some, arith, bit_xor-eq-add}
use Prim.Native.Nat.{min, max}
use quick.Random.{
  Generator, to_u32, advance, high_bits, mid_bits, mix, seed_of, random, random1, random2, lrandom,
}

-- The shift loses nothing and the exclusive or adds, while the result fits.
mix-eq-add :
    (result bits : ℕ) → result < 2 ^ 21 → bits < 2 ^ 10 → mix result bits ≡ result * 2 ^ 10 + bits
unfolding mix
mix-eq-add result bits hr hb =
    let fits : to_u32 (result * 2 ^ 10) ≡ result * 2 ^ 10 = omega arith in
    rw fits (bit_xor-eq-add 10 result bits hb)

-- A draw is made of 11, 10 and 10 bits from three steps of the congruence, the first on top: so
-- it lies below 2 ^ 31.
pub random_digits :
    (entropy : ℕ) (g : Generator)
    → let s1 = advance (seed_of entropy g) in
      let s2 = advance s1 in
      let s3 = advance s2 in
      ((random entropy g).0 ≡ high_bits s1 * 2 ^ 20 + mid_bits s2 * 2 ^ 10 + mid_bits s3)
      × ((random entropy g).0 < 2 ^ 31)
unfolding random
random_digits entropy g =
    let s1 = advance (seed_of entropy g) in
    let s2 = advance s1 in
    let s3 = advance s2 in
    let eq : mix (mix (high_bits s1) (mid_bits s2)) (mid_bits s3)
        ≡ high_bits s1 * 2 ^ 20 + mid_bits s2 * 2 ^ 10 + mid_bits s3 =
      ap (λ t. mix t (mid_bits s3))
        (mix-eq-add (high_bits s1) (mid_bits s2) (omega (arith, high)) (mid s2))
      ∙ mix-eq-add (high_bits s1 * 2 ^ 10 + mid_bits s2) (mid_bits s3) (omega (arith, high, mid))
          (mid s3)
      ∙ omega arith in
    (eq, omega (arith, eq, high, mid))
  where
    high : (n : ℕ) → high_bits n < 2 ^ 11
    high n = unfold high_bits in omega arith

    mid : (n : ℕ) → mid_bits n < 2 ^ 10
    mid n = unfold mid_bits in omega arith

pub random1-lt :
    (entropy range : ℕ) (g : Generator) → range ≢ 0 → (random1 entropy range g).0 < range
unfolding random1
random1-lt entropy range g h = ground arith

-- A draw between two different bounds lies in the half-open interval from the smaller to the
-- larger one, whichever comes first; the additions do not wrap.
pub random2-in_range :
    (entropy a b : ℕ) (g : Generator)
    → a < 2 ^ 32
    → b < 2 ^ 32
    → a ≢ b
    → (min a b ≤ (random2 entropy a b g).0) × ((random2 entropy a b g).0 < max a b)
unfolding random2
random2-in_range entropy a b g ha hb ne =
    ground (arith, random1-lt entropy (a - b) g, random1-lt entropy (b - a) g)

-- With equal bounds the bound is returned, and the generator does not move.
pub lrandom-eq_bounds :
    (entropy a b : ℕ) (g : Generator)
    → to_u32 a ≡ to_u32 b
    → lrandom entropy a (some b) g ≡ (to_u32 b, g)
unfolding lrandom random2
lrandom-eq_bounds entropy a b g e = ground arith
