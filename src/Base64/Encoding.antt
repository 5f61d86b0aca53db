-- ===== src/Base64/Encoding.antt =====
-- `base64_encode` and `lb64enc` of lua-base64.c against the number reading of Base64/Spec.
use quick.Prelude.{
  length-set, ℕ, suc, sym, ◌+◌, ◌*◌, ◌/◌, ◌^◌, ◌≤◌, ◌<◌, ◌≡◌, refl, ap, ◌∙◌, Option, none, some,
  List, [], ◌∷◌, ◌++◌, arith, length, length-append, set-append, take-append, append-nil, AreBytes,
  ltb, Bool-cases, inl, inr,
}
use quick.Base64.{
  false, leb, set, take, b64equ, terminate, encode_tail, encode_from, base64_encode, encoded_size,
  Pushed, nil, str, pushlstring, lb64enc, push_encoded,
}
use quick.Base64.Spec.{encode_text}
use quick.Base64.Filling.{fills}

terminate_room :
    (dstlen i : ℕ) (w rest : List ℕ) (z : ℕ)
    → i ≡ length w
    → i < dstlen
    → terminate dstlen i (w ++ (z ∷ rest)) ≡ record { code = some i; dst = w ++ (0 ∷ rest) }
unfolding terminate
terminate_room dstlen i w rest z e h = ground (arith, set-append w (z ∷ rest) i 0 0 (omega arith))

tail_short :
    (dstlen i : ℕ) (dst : List ℕ) (a b last : ℕ)
    → dstlen ≤ i + 4
    → (encode_tail dstlen i dst a b last).code ≡ none
unfolding encode_tail
tail_short dstlen i dst a b last h = ground arith

short :
    (dstlen i : ℕ) (dst src : List ℕ)
    → dstlen ≤ i + length (encode_text src)
    → (encode_from dstlen i dst src).code ≡ none
unfolding encode_from encode_text terminate
short dstlen i dst [] h = ground arith
short dstlen i dst (a ∷ []) h = tail_short dstlen i dst a 0 b64equ h
short dstlen i dst (a ∷ b ∷ []) h = tail_short dstlen i dst a b _ h
short dstlen i dst (a ∷ b ∷ c ∷ src) h = elim (Bool-cases (ltb dstlen (i + 4))) [
  | inl small ↦ rw (small, encode_from)
  | inr large ↦ rw (large, encode_from) (short dstlen (i + 4) _ src (omega arith))
]

-- A buffer that does not exceed the text makes the call return -1.
pub base64_encode_short :
    (src dst : List ℕ) (dstlen : ℕ)
    → dstlen ≤ length (encode_text src)
    → (base64_encode src dst dstlen).code ≡ none
unfolding base64_encode
base64_encode_short src dst dstlen h = short dstlen 0 dst src (omega arith)

-- Four symbols for each group of three bytes begun.
pub length-encode_text : (src : List ℕ) → length (encode_text src) ≡ (length src + 2) / 3 * 4
unfolding encode_text
length-encode_text [] = refl
length-encode_text (a ∷ []) = refl
length-encode_text (a ∷ b ∷ []) = refl
length-encode_text (a ∷ b ∷ c ∷ src) = omega (arith, length-encode_text src)

module _ (src dst : List ℕ) (bytes : AreBytes src) where
  -- With a byte to spare behind the text, the call returns the text's length and closes the text
  -- with a NUL; what lies further behind is untouched.
  pub base64_encode_room :
      (old rest : List ℕ) (z : ℕ)
      → length old ≡ length (encode_text src)
      → dst ≡ old ++ (z ∷ rest)
      → base64_encode src dst (length dst)
        ≡ record { code = some (length (encode_text src)); dst = encode_text src ++ (0 ∷ rest) }
  unfolding base64_encode
  base64_encode_room old rest z l e =
      let len : length dst ≡ length old + suc (length rest) =
        ap length e ∙ length-append old (z ∷ rest) in
      ap (λ d. encode_from (length dst) 0 d src) e
      ∙ fills (length dst) src [] old (z ∷ rest) 0 refl bytes l (omega arith)
      ∙ terminate_room (length dst) (0 + length old) (encode_text src) rest z (omega arith)
          (omega arith)
      ∙ ap (λ n. record { code = some n; dst = encode_text src ++ (0 ∷ rest) }) (omega arith)

  -- With exactly the room of the text, `dst` holds the text and the call still returns -1: the
  -- closing NUL has no place.
  pub base64_encode_exact :
      length dst ≡ length (encode_text src)
      → base64_encode src dst (length dst) ≡ record { code = none; dst = encode_text src }
  unfolding base64_encode terminate
  base64_encode_exact l =
      ap (λ d. encode_from (length dst) 0 d src) (sym (append-nil dst))
      ∙ fills (length dst) src [] dst [] 0 refl bytes l (omega arith)
      ∙ ground (arith, append-nil (encode_text src))

encoded_size-length :
    (src : List ℕ)
    → 0 < length src
    → length src < 2 ^ 62
    → encoded_size (length src) ≡ length (encode_text src)
encoded_size-length src pos small = omega (arith, length-encode_text src)

-- What `encode` pushes for a string with the text `text`, by the outcome of `malloc`.
abbrev pub encode_result : List ℕ → Option (List ℕ) → Pushed
encode_result text none = nil
encode_result text (some block) = str text

push_encoded_lem :
    (src : List ℕ) (n : ℕ) (o : Option (List ℕ))
    → AreBytes src
    → n ≡ length (encode_text src)
    → ((block : List ℕ) → o ≡ some block → length block ≡ n)
    → push_encoded src n o ≡ encode_result (encode_text src) o
unfolding push_encoded pushlstring
push_encoded_lem src n none bytes e gives = refl
push_encoded_lem src n (some block) bytes e gives =
    let l = gives block refl in
    rw (← l, base64_encode_exact src block bytes (l ∙ e))
      (ground (
        arith,
        take-append (encode_text src) [] (length block) (omega arith),
        append-nil (encode_text src),
      ))

-- A block that is pushed whole, with a NUL in front.
abbrev pub whole_block : Option (List ℕ) → Pushed
whole_block none = nil
whole_block (some block) = str (set block 0 0)

take_whole : (xs : List ℕ) → take (length xs) xs ≡ xs
take_whole [] = refl
take_whole (x ∷ xs) = ap (λ t. x ∷ t) (take_whole xs)

pushlstring_whole : (block : List ℕ) (n : ℕ) → length block ≡ n → pushlstring block n ≡ str block
unfolding pushlstring
pushlstring_whole block n e = rw (← e) (ground (arith, take_whole block))

push_encoded-nil :
    (n : ℕ) (o : Option (List ℕ))
    → 0 < n
    → ((block : List ℕ) → o ≡ some block → length block ≡ n)
    → push_encoded [] n o ≡ whole_block o
unfolding push_encoded base64_encode encode_from terminate
push_encoded-nil n none pos gives = refl
push_encoded-nil n (some block) pos gives =
    let room : leb n 0 ≡ false = ground arith in
    rw room (pushlstring_whole (set block 0 0) n (length-set block 0 0 ∙ gives block refl))

module _ (malloc : ℕ → Option (List ℕ)) where
  -- For a string that is not empty, shorter than 2 ^ 62 bytes, `encode` pushes its Base64 text,
  -- and nil if `malloc` fails; `malloc` gives blocks of the size asked for.
  pub lb64enc_lem :
      (src : List ℕ)
      → ((n : ℕ) (block : List ℕ) → malloc n ≡ some block → length block ≡ n)
      → AreBytes src
      → 0 < length src
      → length src < 2 ^ 62
      → lb64enc malloc src ≡ encode_result (encode_text src) (malloc (length (encode_text src)))
  unfolding lb64enc
  lb64enc_lem src gives bytes pos small =
      rw (encoded_size-length src pos small)
        (push_encoded_lem src (length (encode_text src)) _ bytes refl (gives _))

  -- For the empty string `encode` asks `malloc` for 0x5555555555555558 bytes, since the length
  -- minus one wraps: it pushes all of that block, with a NUL in front and whatever memory held
  -- behind it, and nil if `malloc` fails; `malloc` gives blocks of the size asked for.
  pub lb64enc-nil :
      ((n : ℕ) (block : List ℕ) → malloc n ≡ some block → length block ≡ n)
      → lb64enc malloc [] ≡ whole_block (malloc 6148914691236517208)
  unfolding lb64enc
  lb64enc-nil gives =
      let size : encoded_size 0 ≡ 6148914691236517208 = omega arith in
      rw size (push_encoded-nil 6148914691236517208 _ (omega arith) (gives _))
