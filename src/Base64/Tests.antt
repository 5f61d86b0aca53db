-- ===== src/Base64/Tests.antt =====
-- The codec of lua-base64.c at small inputs.
use quick.Prelude.{
  isspace, ap, length-replicate, ℕ, ◌≡◌, refl, Option, some, List, codes, replicate, arith, length,
  ◌∷◌, [], map, ◌++◌, ◌^◌, ◌-◌,
}
use quick.Base64.{
  refused, overrun, kept, Phase, base64_encode, base64_decode, lb64enc, lb64dec, str, overread,
  symbol, scan, store, strchr, finish, pad, close, only_spaces, pushlstring, push_encoded,
  push_decoded, decode_into,
}
use quick.Base64.Spec.{encode_text}
use quick.Base64.Encoding.{whole_block, encode_result, lb64enc_lem, lb64enc-nil}
use quick.Base64.Decoding.{at}
use quick.Base64.RoundTrip.{base64_decode-encode_text, lb64dec-encode_text}
use quick.Base64.Safety.{IsSafe, base64_decode-Safe}
use quick.Base64.Refusal.{base64_decode-incomplete, lb64dec-incomplete}

-- A `malloc` that always succeeds, with cleared memory.
abbrev zeros : ℕ → Option (List ℕ)
zeros n = some (replicate n 0)

abbrev hello : List ℕ
hello = codes "hello"

encode_hello : lb64enc zeros hello ≡ str (codes "aGVsbG8=")
unfolding lb64enc push_encoded symbol pushlstring base64_encode
encode_hello = refl

decode_hello : lb64dec zeros (codes "aGVs bG8=") ≡ str hello
unfolding lb64dec decode_into push_decoded base64_decode scan store strchr isspace finish pad close
    only_spaces pushlstring
decode_hello = refl

zeros_gives : (n : ℕ) (block : List ℕ) → zeros n ≡ some block → length block ≡ n
zeros_gives n block e =
    let same : replicate n 0 ≡ block = cc in
    omega (arith, ap length same, length-replicate {A = ℕ} n 0)

lb64enc_lem_example :
    lb64enc zeros hello ≡ encode_result (encode_text hello) (zeros (length (encode_text hello)))
lb64enc_lem_example = lb64enc_lem zeros hello zeros_gives (omega arith) (omega arith) (omega arith)

lb64enc-nil_example : lb64enc zeros [] ≡ whole_block (zeros 6148914691236517208)
lb64enc-nil_example = lb64enc-nil zeros zeros_gives

base64_decode-encode_text_example :
    (rest : List ℕ) × (state : Phase) × (base64_decode (encode_text hello) (some (replicate 8 0)) 8
      ≡ kept (at 5 state (hello ++ rest)))
base64_decode-encode_text_example =
    base64_decode-encode_text hello (replicate 8 0) (omega arith) (unfold encode_text in refl)

lb64dec-encode_text_example :
    lb64dec zeros (encode_text hello) ≡ encode_result hello (zeros (length (encode_text hello)))
lb64dec-encode_text_example = lb64dec-encode_text zeros hello zeros_gives (omega arith)

-- A buffer of four bytes takes the first five symbols of eight.
base64_decode-Safe_example :
    IsSafe (some (replicate 4 0)) 4 (base64_decode (codes "aGVsbG8=") (some (replicate 4 0)) 4)
base64_decode-Safe_example =
    base64_decode-Safe (codes "aGVsbG8=") (some (replicate 4 0)) 4 (omega arith)

-- A size that is not the buffer's is seen.
decode_overrun : base64_decode (codes "aGVsbG8=") (some (replicate 4 0)) 8 ≡ overrun
unfolding base64_decode scan store strchr isspace finish
decode_overrun = refl

base64_decode-incomplete_example :
    base64_decode (map symbol (26 ∷ 6 ∷ 21 ∷ [])) (some (replicate 3 0)) 3 ≡ refused
base64_decode-incomplete_example =
    base64_decode-incomplete (26 ∷ 6 ∷ 21 ∷ []) (some (replicate 3 0)) 3 (omega arith) (omega arith)
      (omega arith)

lb64dec-incomplete_example : lb64dec zeros (map symbol (26 ∷ 6 ∷ 21 ∷ [])) ≡ overread (2 ^ 64 - 1)
lb64dec-incomplete_example =
    lb64dec-incomplete zeros (26 ∷ 6 ∷ 21 ∷ []) (replicate 3 0) (omega arith) (omega arith) refl
      refl (omega arith)
