-- ===== src/Random.antt =====
-- The generator of lualib-src/lua-random.c. The two static variables are the state, and the time
-- and process id, read when no seed is set, are one argument, `entropy`: their sum.
pub mod Bounds
pub mod Sequence
mod Tests
use quick.Prelude.{
  ℕ, ◌+◌, ◌-◌, ◌*◌, ◌/◌, ◌%◌, ◌^◌, bit_xor, Bool, true, false, Option, none, some, ltb, ◌==◌,
  if◌then◌else◌,
}

pub record Generator : Type 0 where
  pub rand_seed : ℕ
  pub is_seed_set : Bool

abbrev pub initial : Generator
initial = record { rand_seed = 1; is_seed_set = false }

abbrev pub to_u32 : ℕ → ℕ
to_u32 x = x % 2 ^ 32

-- `next *= 1103515245; next += 12345;`
unfoldable pub advance : ℕ → ℕ
advance next = to_u32 (to_u32 (next * 1103515245) + 12345)

-- The first bits that are taken, and the later ones; `0x07ff` and `0x03ff` keep 11 and 10 bits.
unfoldable pub high_bits : ℕ → ℕ
high_bits next = next / 2 ^ 16 % 2 ^ 11

unfoldable pub mid_bits : ℕ → ℕ
mid_bits next = next / 2 ^ 16 % 2 ^ 10

-- `result <<= 10; result ^= bits;`
unfoldable pub mix : ℕ → ℕ → ℕ
mix result bits = bit_xor (to_u32 (result * 2 ^ 10)) bits

-- The seed with which a call starts.
unfoldable pub seed_of : ℕ → Generator → ℕ
seed_of entropy g = if g.is_seed_set then g.rand_seed else to_u32 entropy

unfoldable pub random : ℕ → Generator → ℕ × Generator
random entropy g =
    let s1 = advance (seed_of entropy g) in
    let s2 = advance s1 in
    let s3 = advance s2 in
    (
      mix (mix (high_bits s1) (mid_bits s2)) (mid_bits s3),
      record { rand_seed = s3; is_seed_set = true },
    )

unfoldable pub random1 : ℕ → ℕ → Generator → ℕ × Generator
random1 entropy range g =
    if range == 0 then (0, g) else (let (result, g') = random entropy g in (result % range, g'))

-- `+` on `unsigned int` wraps.
unfoldable pub random2 : ℕ → ℕ → ℕ → Generator → ℕ × Generator
random2 entropy min_range max_range g =
    if min_range == max_range
    then (max_range, g)
    else if ltb max_range min_range
    then (let (r, g') = random1 entropy (min_range - max_range) g in (to_u32 (r + max_range), g'))
    else (let (r, g') = random1 entropy (max_range - min_range) g in (to_u32 (r + min_range), g'))

-- The Lua function: a 64-bit argument is cut to `unsigned int`, the second one may be absent.
unfoldable pub lrandom : ℕ → ℕ → Option ℕ → Generator → ℕ × Generator
lrandom entropy min_range none g = random1 entropy (to_u32 min_range) g
lrandom entropy min_range (some max_range) g =
    random2 entropy (to_u32 min_range) (to_u32 max_range) g
