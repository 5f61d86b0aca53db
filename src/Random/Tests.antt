-- ===== src/Random/Tests.antt =====
-- The generator of lua-random.c at small inputs.
use Prim.Native.Nat.{min, max}
use quick.Prelude.{◌+◌, ◌*◌, ◌^◌, ◌≤◌, ◌<◌, ◌≡◌, refl, true, arith}
use quick.Random.{Generator, random, random2, advance, high_bits, mid_bits, seed_of}
use quick.Random.Bounds.{random_digits, random2-in_range}
use quick.Random.Sequence.{random-injective}

abbrev seeded : Generator
seeded = record { rand_seed = 7; is_seed_set = true }

random_digits_example :
    ((random 5 seeded).0
      ≡ high_bits (advance (seed_of 5 seeded)) * 2 ^ 20
        + mid_bits (advance (advance (seed_of 5 seeded))) * 2 ^ 10
        + mid_bits (advance (advance (advance (seed_of 5 seeded)))))
    × ((random 5 seeded).0 < 2 ^ 31)
random_digits_example = random_digits 5 seeded

random2-in_range_example :
    (min 9 3 ≤ (random2 5 9 3 seeded).0) × ((random2 5 9 3 seeded).0 < max 9 3)
random2-in_range_example = random2-in_range 5 9 3 seeded (omega arith) (omega arith) (omega arith)

random-injective_example : seeded.rand_seed ≡ seeded.rand_seed
random-injective_example =
    random-injective 5 seeded seeded refl refl (omega arith) (omega arith) refl
