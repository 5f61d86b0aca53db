-- ===== src/Random/Sequence.antt =====
-- The sequence of states of lua-random.c.
use quick.Prelude.{ℕ, ◌^◌, ◌<◌, ◌≡◌, refl, true, arith}
use quick.Random.{Generator, advance, random, seed_of}

-- One step of the congruence: different seeds have different successors.
pub advance-injective : (a b : ℕ) → a < 2 ^ 32 → b < 2 ^ 32 → advance a ≡ advance b → a ≡ b
unfolding advance
advance-injective a b ha hb e = omega arith

advance-lt : (a : ℕ) → advance a < 2 ^ 32
unfolding advance
advance-lt a = omega arith

-- Generators that are seeded and agree after a call agreed before it: no draw loses state.
pub random-injective :
    (entropy : ℕ) (g h : Generator)
    → g.is_seed_set ≡ true
    → h.is_seed_set ≡ true
    → g.rand_seed < 2 ^ 32
    → h.rand_seed < 2 ^ 32
    → (random entropy g).1 ≡ (random entropy h).1
    → g.rand_seed ≡ h.rand_seed
unfolding random seed_of
random-injective entropy g h sg sh lg lh e = advance-injective _ _ lg lh (
    advance-injective _ _ (advance-lt _) (advance-lt _)
      (advance-injective _ _ (advance-lt _) (advance-lt _) last))
  where
    last : advance (advance (advance g.rand_seed)) ≡ advance (advance (advance h.rand_seed))
    last = ground arith

-- The time and the process id count once: after any call the generator is seeded, and later
-- draws do not depend on them.
pub random_seeds_once :
    (entropy e1 e2 : ℕ) (g : Generator)
    → random e1 (random entropy g).1 ≡ random e2 (random entropy g).1
unfolding random seed_of
random_seeds_once entropy e1 e2 g = refl
