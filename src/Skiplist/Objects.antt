-- ===== src/Skiplist/Objects.antt =====
-- Scores and objects of skiplist.c. A score is a double: its type and its tests are a parameter.
-- An object is the bytes of a Lua string. `memcmp` is the C library's; of its result only the sign
-- is used.
use quick.Prelude.{
  ℕ, zero, suc, ◌+◌, ◌-◌, ◌%◌, ◌^◌, Bool, ◌&&◌, List, ◌∷◌, ltb, leb, length, if◌then◌else◌,
}
use quick.Prelude.Int.{ℤ, pos, negsuc, ltb_ℤ, leb_ℤ}
use Prim.Native.Nat.{compare, Ordering}

-- `0`, `<` and `==` of doubles.
pub record Scores (A : Type 0) : Type 0 where
  pub zero_score : A
  pub less : A → A → Bool
  pub same : A → A → Bool

abbrev pub Obj : Type 0
Obj = List ℕ

-- The first `n` bytes of both.
unfoldable pub memcmp : ℕ → Obj → Obj → ℤ
memcmp (suc n) (x ∷ a) (y ∷ b) = elim (compare x y) [
  | Ordering.lt ↦ negsuc 0
  | Ordering.eq ↦ memcmp n a b
  | Ordering.gt ↦ pos 1
]
memcmp _ _ _ = pos 0

-- `a->length - b->length`, a `size_t`, as an `int`.
abbrev pub to_int : ℕ → ℤ
to_int v = if ltb (v % 2 ^ 32) (2 ^ 31) then pos (v % 2 ^ 32) else negsuc (2 ^ 32 - 1 - v % 2 ^ 32)

abbrev pub length_difference : Obj → Obj → ℤ
length_difference a b = to_int ((length a + 2 ^ 64 - length b) % 2 ^ 64)

abbrev pub or_else : ℤ → ℤ → ℤ
or_else (pos zero) d = d
or_else (pos (suc n)) d = pos (suc n)
or_else (negsuc n) d = negsuc n

unfoldable pub compare_obj : Obj → Obj → ℤ
compare_obj a b =
    or_else (memcmp (if leb (length a) (length b) then length a else length b) a b)
      (length_difference a b)

-- `compareslObj(a, b) < 0` and `compareslObj(a, b) <= 0`
abbrev pub is_before : Obj → Obj → Bool
is_before a b = ltb_ℤ (compare_obj a b) (pos 0)

abbrev pub is_upto : Obj → Obj → Bool
is_upto a b = leb_ℤ (compare_obj a b) (pos 0)

abbrev pub is_zero : ℤ → Bool
is_zero v = leb_ℤ v (pos 0) && leb_ℤ (pos 0) v

abbrev pub equal_obj : Obj → Obj → Bool
equal_obj a b = is_zero (compare_obj a b)
