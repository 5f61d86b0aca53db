-- ===== src/Base64/Table.antt =====
-- Facts about the alphabet of lua-base64.c and its bit arithmetic, checked for every value.
use quick.Prelude.{
  isspace, ℕ, ◌+◌, ◌*◌, ◌/◌, ◌%◌, ◌<◌, ◌≡◌, refl, bit_or, Bool, true, false, ◌&&◌, not, Option,
  none, some, List, ◌∷◌, ◌==◌, ==_iff, all_below, all_below_sound, arith,
}
use quick.Base64.{
  refused, overrun, kept, overran, Attempt, symbol, strchr, b64equ, store, scan, Decoder, Scan,
  failed,
}

abbrev is_index : Option ℕ → ℕ → Bool
is_index none v = false
is_index (some w) v = w == v

-- A symbol is no NUL, no blank and no equals sign, and `strchr` finds its place.
abbrev is_plain : ℕ → Bool
is_plain v =
    not (symbol v == 0)
    && (not (isspace (symbol v)) && (not (symbol v == b64equ) && is_index (strchr (symbol v)) v))

plain_table : all_below 64 is_plain ≡ true
unfolding all_below symbol isspace strchr
plain_table = refl

plain : (v : ℕ) → v < 64 → is_plain v ≡ true
plain v h = all_below_sound v 64 is_plain h plain_table

is_index-eq : (o : Option ℕ) (v : ℕ) → is_index o v ≡ true → o ≡ some v
is_index-eq none v h = ground arith
is_index-eq (some w) v h = ground arith

pub strchr-symbol : (v : ℕ) → v < 64 → strchr (symbol v) ≡ some v
strchr-symbol v h = is_index-eq _ v (ground (arith, plain v h))

abbrev pub continue : ℕ → List ℕ → Attempt → Scan
continue dstlen src refused = failed
continue dstlen src overrun = overran
continue dstlen src (kept d) = scan dstlen src d

-- On a symbol the decoder's loop goes through the switch.
pub scan-symbol :
    (dstlen v : ℕ) (src : List ℕ) (d : Decoder)
    → v < 64
    → scan dstlen (symbol v ∷ src) d ≡ continue dstlen src (store dstlen d.state d v)
unfolding scan
scan-symbol dstlen v src d h = ground (arith, plain v h, strchr-symbol v h)

-- The shifted parts of two sextets share no bit, so `|=` adds them.
adds : (ℕ → ℕ) → (ℕ → ℕ) → Bool
adds f g = all_below 64 (λ x. all_below 64 (λ y. bit_or (f x) (g y) == f x + g y))

bit_or-adds :
    (f g : ℕ → ℕ) (x y : ℕ) → adds f g ≡ true → x < 64 → y < 64 → bit_or (f x) (g y) ≡ f x + g y
unfolding adds
bit_or-adds f g x y t hx hy = (==_iff _ _).0 (
    all_below_sound y 64 (λ y'. bit_or (f x) (g y') == f x + g y') hy
      (all_below_sound x 64 (λ x'. all_below 64 (λ y'. bit_or (f x') (g y') == f x' + g y')) hx t))

first_table : adds (λ x. x * 4 % 256) (λ y. y / 16) ≡ true
unfolding adds all_below
first_table = refl

second_table : adds (λ x. x % 16 * 16 % 256) (λ y. y / 4) ≡ true
unfolding adds all_below
second_table = refl

third_table : adds (λ x. x % 4 * 64 % 256) (λ y. y) ≡ true
unfolding adds all_below
third_table = refl

module _ (x y : ℕ) (hx : x < 64) (hy : y < 64) where
  pub or_first : bit_or (x * 4 % 256) (y / 16) ≡ x * 4 % 256 + y / 16
  or_first = bit_or-adds (λ x. x * 4 % 256) (λ y. y / 16) x y first_table hx hy

  pub or_second : bit_or (x % 16 * 16 % 256) (y / 4) ≡ x % 16 * 16 % 256 + y / 4
  or_second = bit_or-adds (λ x. x % 16 * 16 % 256) (λ y. y / 4) x y second_table hx hy

  pub or_third : bit_or (x % 4 * 64 % 256) y ≡ x % 4 * 64 % 256 + y
  or_third = bit_or-adds (λ x. x % 4 * 64 % 256) (λ y. y) x y third_table hx hy
