-- ===== src/Base64.antt =====
-- The codec of lualib-src/lua-base64.c: `base64_encode`, `base64_decode` and their Lua entry
-- points. A text is the list of its bytes; the end of the list is the terminating NUL. `dst` is a
-- list of the bytes that the caller owns there. A failed call of the encoder returns -1, here
-- `none`; one of the decoder is `refused`, and an access of the decoder outside `dst` is `overrun`.
-- Texts shorter than 2 ^ 31 are meant: `int` indices do not wrap.
pub mod Spec
pub mod Table
pub mod Filling
pub mod Encoding
pub mod Decoding
pub mod RoundTrip
pub mod Safety
pub mod Refusal
mod Tests
use quick.Prelude.{
  isspace, ℕ, zero, suc, ◌+◌, ◌-◌, ◌*◌, ◌/◌, ◌%◌, ◌^◌, bit_or, Bool, true, false, ◌&&◌, ◌||◌, not,
  Option, none, some, List, [], ◌∷◌, ltb, leb, ◌==◌, if◌then◌else◌, get_or, set, take, length,
  codes,
}

abbrev pub b64tbl : List ℕ
b64tbl = codes "ABCDEFGHIJKLMNOPQRSTUVWXYZabcdefghijklmnopqrstuvwxyz0123456789+/"

abbrev pub b64equ : ℕ
b64equ = b'='

-- `x >> k`, `x & (2^k - 1)` and `x << k`; a value stored in an `unsigned char` is cut to a byte.
abbrev pub shr : ℕ → ℕ → ℕ
shr x k = x / 2 ^ k

abbrev pub low_bits : ℕ → ℕ → ℕ
low_bits x k = x % 2 ^ k

abbrev pub shl : ℕ → ℕ → ℕ
shl x k = x * 2 ^ k

abbrev pub to_u8 : ℕ → ℕ
to_u8 x = x % 256

-- `b64tbl[output]`.
unfoldable pub symbol : ℕ → ℕ
symbol v = get_or b64tbl v 0

-- The return code and what `dst` holds then: the caller reads it after a failure too.
pub record Encoded : Type 0 where
  pub code : Option ℕ
  pub dst : List ℕ

-- Four times `dst[idx++] = …`.
abbrev pub put4 : List ℕ → ℕ → ℕ → ℕ → ℕ → ℕ → List ℕ
put4 dst idx p q r s = set (set (set (set dst idx p) (idx + 1) q) (idx + 2) r) (idx + 3) s

-- The closing NUL, which needs one more byte of `dst`.
pub terminate : ℕ → ℕ → List ℕ → Encoded
terminate dstlen idx dst =
    if leb dstlen idx
    then record { code = none; dst = dst }
    else record { code = some idx; dst = set dst idx 0 }

-- What follows the loop when 1 or 2 bytes are left; `last` is the third symbol.
encode_tail : ℕ → ℕ → List ℕ → ℕ → ℕ → ℕ → Encoded
unfolding terminate
encode_tail dstlen idx dst a b last =
    if ltb dstlen (idx + 4)
    then record { code = none; dst = dst }
    else terminate dstlen (idx + 4)
        (put4 dst idx (symbol (shr a 2)) (symbol (shl (low_bits a 2) 4 + shr b 4)) last b64equ)

pub encode_from : ℕ → ℕ → List ℕ → List ℕ → Encoded
unfolding encode_tail
encode_from dstlen idx dst [] = terminate dstlen idx dst
encode_from dstlen idx dst (a ∷ []) = encode_tail dstlen idx dst a 0 b64equ
encode_from dstlen idx dst (a ∷ b ∷ []) =
    encode_tail dstlen idx dst a b (symbol (shl (low_bits b 4) 2 + shr 0 6))
encode_from dstlen idx dst (a ∷ b ∷ c ∷ src) = elim (ltb dstlen (idx + 4)) [
  | true ↦ record { code = none; dst = dst }
  | false ↦
      encode_from dstlen (idx + 4)
        (put4 dst idx (symbol (shr a 2)) (symbol (shl (low_bits a 2) 4 + shr b 4))
          (symbol (shl (low_bits b 4) 2 + shr c 6)) (symbol (low_bits c 6)))
        src
]

unfoldable pub base64_encode : List ℕ → List ℕ → ℕ → Encoded
unfolding encode_from
base64_encode src dst dstlen = encode_from dstlen 0 dst src

-- `strchr(b64tbl, ch) - b64tbl`, for `ch` other than NUL.
abbrev pub index_from : List ℕ → ℕ → ℕ → Option ℕ
index_from [] i ch = none
index_from (x ∷ xs) i ch = elim (x == ch) [ true ↦ some i | false ↦ index_from xs (suc i) ch ]

unfoldable pub strchr : ℕ → Option ℕ
strchr ch = index_from b64tbl 0 ch

-- `state`, which takes the values 0 to 3 only: the switch's `default: abort()` has no counterpart.
pub data Phase : Type 0 where
  s0 s1 s2 s3 : Phase

pub record Decoder : Type 0 where
  pub idx : ℕ
  pub state : Phase
  pub dst : Option (List ℕ)

-- What a part of the decoder comes to: `return -1`, an access outside `dst`, or it goes on.
pub data Attempt : Type 0 where
  refused overrun : Attempt
  kept : Decoder → Attempt

-- `dst[idx] |= v`
abbrev pub or_at : List ℕ → ℕ → ℕ → List ℕ
or_at d idx v = set d idx (to_u8 (bit_or (get_or d idx 0) v))

-- One case of the switch: `full` is the guard that runs if `dst` is given, `write` the stores, of
-- which `last` is the highest place.
abbrev pub guarded : Bool → ℕ → (List ℕ → List ℕ) → Decoder → ℕ → Phase → Attempt
guarded full last write d idx state = elim (d.dst) [
  | none ↦ kept (record { idx = idx; state = state; dst = none })
  | some bytes ↦
      if full
      then refused
      else if ltb last (length bytes)
      then kept (record { idx = idx; state = state; dst = some (write bytes) })
      else overrun
]

unfoldable pub store : ℕ → Phase → Decoder → ℕ → Attempt
store dstlen s0 d v =
    guarded (leb dstlen d.idx) d.idx (λ b. set b d.idx (to_u8 (shl v 2))) d d.idx s1
store dstlen s1 d v =
    guarded (leb dstlen (d.idx + 1)) (d.idx + 1)
      (λ b. set (or_at b d.idx (shr v 4)) (d.idx + 1) (to_u8 (shl (low_bits v 4) 4))) d (d.idx + 1)
      s2
store dstlen s2 d v =
    guarded (leb dstlen (d.idx + 1)) (d.idx + 1)
      (λ b. set (or_at b d.idx (shr v 2)) (d.idx + 1) (to_u8 (shl (low_bits v 2) 6))) d (d.idx + 1)
      s3
store dstlen s3 d v = guarded (leb dstlen d.idx) d.idx (λ b. or_at b d.idx v) d (d.idx + 1) s0

-- How the first loop is left: by `return -1`, by a fault, at the NUL, or behind an equals sign.
pub data Scan : Type 0 where
  failed overran : Scan
  ended : Decoder → Scan
  padded : Decoder → List ℕ → Scan

unfoldable pub scan : ℕ → List ℕ → Decoder → Scan
scan dstlen [] d = ended d
scan dstlen (ch ∷ src) d = elim (ch == 0) [
  | true ↦ ended d
  | false ↦ elim (isspace ch) [
    | true ↦ scan dstlen src d
    | false ↦ elim (ch == b64equ) [
      | true ↦ padded d src
      | false ↦ elim (strchr ch) [
        | none ↦ failed
        | some v ↦ elim (store dstlen d.state d v) [
          | refused ↦ failed
          | overrun ↦ overran
          | kept d' ↦ scan dstlen src d'
        ]
      ]
    ]
  ]
]

-- `for (; ch != '\0'; ch = *src++) if (!isspace(ch)) break;`
unfoldable pub skip_spaces : List ℕ → List ℕ
skip_spaces [] = []
skip_spaces (ch ∷ src) = if isspace ch then skip_spaces src else ch ∷ src

-- The same loop with `return -1` in place of the break.
unfoldable pub only_spaces : List ℕ → Bool
only_spaces [] = true
only_spaces (ch ∷ src) = ch == 0 || isspace ch && only_spaces src

-- `if (dst && dst[idx] != 0)`
abbrev pub check_leftover : Decoder → Attempt
check_leftover d = elim (d.dst) [
  | none ↦ kept d
  | some b ↦
      if ltb d.idx (length b) then if get_or b d.idx 0 == 0 then kept d else refused else overrun
]

unfoldable pub close : Decoder → List ℕ → Attempt
close d src = if only_spaces src then check_leftover d else refused

-- The second equals sign that state 2 asks for.
unfoldable pub second_equ : Decoder → List ℕ → Attempt
second_equ d [] = refused
second_equ d (ch ∷ src) = if ch == b64equ then close d src else refused

unfoldable pub pad : Phase → Decoder → List ℕ → Attempt
pad s0 d src = refused
pad s1 d src = refused
pad s2 d src = second_equ d (skip_spaces src)
pad s3 d src = close d src

unfoldable pub finish : Scan → Attempt
finish failed = refused
finish overran = overrun
finish (ended d) = elim (d.state) [ s0 ↦ kept d | _ ↦ refused ]
finish (padded d src) = pad d.state d src

abbrev pub start : Option (List ℕ) → Decoder
start dst = record { idx = 0; state = s0; dst = dst }

-- The return code is `idx` of the result, and its `dst` what the call leaves in memory.
unfoldable pub base64_decode : List ℕ → Option (List ℕ) → ℕ → Attempt
base64_decode src dst dstlen = finish (scan dstlen src (start dst))

-- What an entry point pushes: nil, a string, or a read of more bytes than the block holds; `corrupt`
-- if the decoder has gone outside its buffer before.
pub data Pushed : Type 0 where
  nil : Pushed
  str : List ℕ → Pushed
  overread : ℕ → Pushed
  corrupt : Pushed

-- `lua_pushlstring(L, block, n)`
unfoldable pub pushlstring : List ℕ → ℕ → Pushed
pushlstring block n = if leb n (length block) then str (take n block) else overread n

-- `((len - 1) / 3) * 4 + 4` over `size_t`.
abbrev pub encoded_size : ℕ → ℕ
encoded_size len = ((len + 2 ^ 64 - 1) % 2 ^ 64 / 3 * 4 + 4) % 2 ^ 64

-- `dstlen` bytes are pushed, whatever `base64_encode` returns.
unfoldable pub push_encoded : List ℕ → ℕ → Option (List ℕ) → Pushed
push_encoded src dstlen none = nil
push_encoded src dstlen (some block) = pushlstring (base64_encode src block dstlen).dst dstlen

-- The return value is pushed as a `size_t`, where -1 is 2 ^ 64 - 1.
unfoldable pub push_decoded : List ℕ → Attempt → Pushed
push_decoded block refused = pushlstring block (2 ^ 64 - 1)
push_decoded block overrun = corrupt
push_decoded block (kept d) = elim (d.dst) [ none ↦ nil | some b ↦ pushlstring b d.idx ]

unfoldable pub decode_into : List ℕ → Option (List ℕ) → Pushed
decode_into src none = nil
decode_into src (some block) = push_decoded block (base64_decode src (some block) (length src))

module _ (malloc : ℕ → Option (List ℕ)) where
  unfoldable pub lb64enc : List ℕ → Pushed
  lb64enc src = push_encoded src (encoded_size (length src)) (malloc (encoded_size (length src)))

  unfoldable pub lb64dec : List ℕ → Pushed
  lb64dec src = decode_into src (malloc (length src))
