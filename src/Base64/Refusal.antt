-- ===== src/Base64/Refusal.antt =====
-- `base64_decode` and `lb64dec` of lua-base64.c on texts of symbols whose length is no multiple of 4.
use quick.Prelude.{
  Bool, true, false, ℕ, ◌+◌, ◌-◌, ◌%◌, ◌^◌, ◌<◌, ◌≡◌, ◌≢◌, refl, Option, some, List, [], ◌∷◌, map,
  arith, length, length-map, All,
}
use quick.Base64.{
  refused, overrun, kept, Attempt, symbol, scan, Decoder, Phase, s0, s1, s2, s3, finish, store,
  base64_decode, pushlstring, overread, push_decoded, decode_into, lb64dec, start,
}
use quick.Base64.Safety.{HasRoom, IsSafe, base64_decode-Safe}
use quick.Base64.Table.{continue, scan-symbol}

abbrev pub number : Phase → ℕ
number s0 = 0
number s1 = 1
number s2 = 2
number s3 = 3

abbrev pub is_kept : Attempt → Bool
is_kept (kept d) = true
is_kept _ = false

-- Each store moves to the next state.
store_next :
    (n v : ℕ) (state : Phase) (d d' : Decoder)
    → store n state d v ≡ kept d'
    → number d'.state ≡ (number state + 1) % 4
unfolding store
store_next n v s0 d d' e = ground arith
store_next n v s1 d d' e = ground arith
store_next n v s2 d d' e = ground arith
store_next n v s3 d d' e = ground arith

resume_not_kept :
    (n : ℕ) (src : List ℕ) (o : Attempt)
    → ((d : Decoder) → o ≡ kept d → is_kept (finish (scan n src d)) ≡ false)
    → is_kept (finish (continue n src o)) ≡ false
unfolding finish
resume_not_kept n src refused h = refl
resume_not_kept n src overrun h = refl
resume_not_kept n src (kept d) h = h d refl

ended_not_kept :
    (d : Decoder) (p : Phase)
    → number p ≢ 0
    → is_kept (elim p [ s0 ↦ kept d | _ ↦ refused ]) ≡ false
ended_not_kept d s0 h = absurd (h refl)
ended_not_kept d s1 h = refl
ended_not_kept d s2 h = refl
ended_not_kept d s3 h = refl

scan_incomplete :
    (n : ℕ) (vs : List ℕ) (d : Decoder)
    → All (λ v. v < 64) vs
    → (number d.state + length vs) % 4 ≢ 0
    → is_kept (finish (scan n (map symbol vs) d)) ≡ false
scan_incomplete n [] d h odd = unfold finish scan in ended_not_kept d d.state (omega arith)
scan_incomplete n (v ∷ vs) d h odd = rw (scan-symbol n v (map symbol vs) d h.0) (
    resume_not_kept n (map symbol vs) (store n d.state d v)
      λ d' e. scan_incomplete n vs d' h.1 (omega (arith, store_next n v d.state d d' e)))

not_kept-refused :
    (dst : Option (List ℕ)) (dstlen : ℕ) (o : Attempt)
    → IsSafe dst dstlen o
    → is_kept o ≡ false
    → o ≡ refused
not_kept-refused dst dstlen refused safe e = refl
not_kept-refused dst dstlen overrun safe e = absurd safe
not_kept-refused dst dstlen (kept d) safe e = cc

-- A text of symbols alone, with no padding, whose length is no multiple of 4 is refused: the call
-- returns -1, whatever the buffer, which has `dstlen` bytes or more or is null.
pub base64_decode-incomplete :
    (vs : List ℕ) (dst : Option (List ℕ)) (dstlen : ℕ)
    → All (λ v. v < 64) vs
    → length vs % 4 ≢ 0
    → HasRoom dst dstlen
    → base64_decode (map symbol vs) dst dstlen ≡ refused
base64_decode-incomplete vs dst dstlen h odd room =
    not_kept-refused dst dstlen _ (base64_decode-Safe (map symbol vs) dst dstlen room)
      (unfold base64_decode in scan_incomplete dstlen vs (start dst) h (omega arith))

pushlstring_over : (block : List ℕ) (n : ℕ) → length block < n → pushlstring block n ≡ overread n
unfolding pushlstring
pushlstring_over block n h = ground arith

-- For such a text `decode` passes -1 on as a size: it pushes 2 ^ 64 - 1 bytes from a block that
-- holds no more than the text.
pub lb64dec-incomplete :
    (malloc : ℕ → Option (List ℕ)) (vs block : List ℕ)
    → All (λ v. v < 64) vs
    → length vs % 4 ≢ 0
    → malloc (length vs) ≡ some block
    → length block ≡ length vs
    → length vs < 2 ^ 64 - 1
    → lb64dec malloc (map symbol vs) ≡ overread (2 ^ 64 - 1)
unfolding lb64dec decode_into push_decoded
lb64dec-incomplete malloc vs block h odd got l small =
    rw
      (
        length-map vs symbol,
        got,
        length-map vs symbol,
        base64_decode-incomplete vs (some block) (length vs) h odd (omega arith),
      )
      (pushlstring_over block (2 ^ 64 - 1) (omega arith))
