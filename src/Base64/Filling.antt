-- ===== src/Base64/Filling.antt =====
-- The loop of `base64_encode` in lua-base64.c, over memory that is filled from the left.
use quick.Prelude.{
  ℕ, suc, ◌+◌, ◌*◌, ◌/◌, ◌%◌, ◌≤◌, ◌<◌, ◌≡◌, ap, ◌∙◌, List, [], ◌∷◌, ◌++◌, arith, length,
  length-append, set-append, append_assoc, AreBytes,
}
use quick.Base64.{put4, symbol, shr, shl, low_bits, b64equ, terminate, encode_tail, encode_from}
use quick.Base64.Spec.{encode_text}

put4-append :
    (w rest : List ℕ) (p q r s a b c d i : ℕ)
    → i ≡ length w
    → put4 (w ++ (p ∷ q ∷ r ∷ s ∷ rest)) i a b c d ≡ w ++ (a ∷ b ∷ c ∷ d ∷ rest)
put4-append w rest p q r s a b c d i e = rw (
  set-append w (p ∷ q ∷ r ∷ s ∷ rest) i 0 a (omega arith),
  set-append w (a ∷ q ∷ r ∷ s ∷ rest) (i + 1) 1 b (omega arith),
  set-append w (a ∷ b ∷ r ∷ s ∷ rest) (i + 2) 2 c (omega arith),
  set-append w (a ∷ b ∷ c ∷ s ∷ rest) (i + 3) 3 d (omega arith),
)

-- The bytes of one group give its four digits.
group_symbols :
    (a b c : ℕ)
    → a < 256
    → b < 256
    → c < 256
    → let n = a * 65536 + b * 256 + c in
      (symbol (shr a 2) ≡ symbol (n / 262144))
      × (symbol (shl (low_bits a 2) 4 + shr b 4) ≡ symbol (n / 4096 % 64))
      × (symbol (shl (low_bits b 4) 2 + shr c 6) ≡ symbol (n / 64 % 64))
      × (symbol (low_bits c 6) ≡ symbol (n % 64))
group_symbols a b c ha hb hc = (
  ap symbol (omega arith),
  ap symbol (omega arith),
  ap symbol (omega arith),
  ap symbol (omega arith),
)

abbrev Fills : ℕ → List ℕ → List ℕ → List ℕ → List ℕ → Type 0
Fills dstlen src w old rest =
    (i : ℕ)
    → i ≡ length w
    → AreBytes src
    → length old ≡ length (encode_text src)
    → i + length old ≤ dstlen
    → encode_from dstlen i (w ++ (old ++ rest)) src
      ≡ terminate dstlen (i + length old) (w ++ (encode_text src ++ rest))

tail_fills :
    (dstlen : ℕ) (w old rest : List ℕ) (i a b last : ℕ)
    → i ≡ length w
    → length old ≡ 4
    → i + 4 ≤ dstlen
    → encode_tail dstlen i (w ++ (old ++ rest)) a b last
      ≡ terminate dstlen
          (i + 4)
          (w ++ (symbol (shr a 2) ∷ symbol (shl (low_bits a 2) 4 + shr b 4) ∷ last ∷ b64equ ∷ rest))
unfolding encode_tail
tail_fills dstlen w (p ∷ q ∷ r ∷ s ∷ []) rest i a b last e l room = ground (
  arith,
  put4-append w rest p q r s (symbol (shr a 2)) (symbol (shl (low_bits a 2) 4 + shr b 4)) last
      b64equ i e,
)
tail_fills dstlen w [] rest i a b last e l room = absurd (omega arith)
tail_fills dstlen w (p ∷ []) rest i a b last e l room = absurd (omega arith)
tail_fills dstlen w (p ∷ q ∷ []) rest i a b last e l room = absurd (omega arith)
tail_fills dstlen w (p ∷ q ∷ r ∷ []) rest i a b last e l room = absurd (omega arith)
tail_fills dstlen w (p ∷ q ∷ r ∷ s ∷ t ∷ old) rest i a b last e l room = absurd (omega arith)

-- Induction over the memory in steps of one group.
pub at_four {κ} :
    (P : List ℕ → Type κ)
    → ((p q r s : ℕ) (rest : List ℕ) → P (p ∷ q ∷ r ∷ s ∷ rest))
    → (xs : List ℕ) → 4 ≤ length xs
    → P xs
at_four P f [] h = absurd (omega arith)
at_four P f (p ∷ []) h = absurd (omega arith)
at_four P f (p ∷ q ∷ []) h = absurd (omega arith)
at_four P f (p ∷ q ∷ r ∷ []) h = absurd (omega arith)
at_four P f (p ∷ q ∷ r ∷ s ∷ rest) h = f p q r s rest

abbrev group_text : ℕ → ℕ → ℕ → List ℕ
group_text a b c =
    symbol (shr a 2)
    ∷ symbol (shl (low_bits a 2) 4 + shr b 4)
    ∷ symbol (shl (low_bits b 4) 2 + shr c 6)
    ∷ symbol (low_bits c 6)
    ∷ []

-- One round of the loop writes the text of its group.
encode_from-group :
    (dstlen i a b c p q r s : ℕ) (src w rest : List ℕ)
    → i ≡ length w
    → i + 4 ≤ dstlen
    → encode_from dstlen i (w ++ (p ∷ q ∷ r ∷ s ∷ rest)) (a ∷ b ∷ c ∷ src)
      ≡ encode_from dstlen (i + 4) ((w ++ group_text a b c) ++ rest) src
unfolding encode_from
encode_from-group dstlen i a b c p q r s src w rest e room =
    rw (append_assoc w (group_text a b c) rest) (
      ground (
        arith,
        put4-append w rest p q r s (symbol (shr a 2)) (symbol (shl (low_bits a 2) 4 + shr b 4))
            (symbol (shl (low_bits b 4) 2 + shr c 6)) (symbol (low_bits c 6)) i e,
      ))

pub fills : (dstlen : ℕ) (src w old rest : List ℕ) → Fills dstlen src w old rest
unfolding encode_from encode_text
fills dstlen [] w (x ∷ old) rest i e hb l room = absurd (omega arith)
fills dstlen [] w [] rest i e hb l room = ap (λ n. terminate dstlen n (w ++ rest)) (omega arith)
fills dstlen (a ∷ []) w old rest i e hb l room =
    let g = group_symbols a 0 0 hb.0 (omega arith) (omega arith) in
    tail_fills dstlen w old rest i a 0 b64equ e l (omega arith) ∙ cc
fills dstlen (a ∷ b ∷ []) w old rest i e hb l room =
    let g = group_symbols a b 0 hb.0 hb.1.0 (omega arith) in
    tail_fills dstlen w old rest i a b _ e l (omega arith) ∙ cc
fills dstlen (a ∷ b ∷ c ∷ src) w old rest i e hb l room =
    at_four (λ old. Fills dstlen (a ∷ b ∷ c ∷ src) w old rest)
      (λ p q r s o i e hb l room.
        let g = group_symbols a b c hb.0 hb.1.0 hb.1.1.0 in
        let ih =
          fills dstlen src (w ++ group_text a b c) o rest (i + 4)
            (omega (arith, length-append w (group_text a b c))) hb.1.1.1 (omega arith)
            (omega arith) in
        let n : i + 4 + length o ≡ i + suc (suc (suc (suc (length o)))) = omega arith in
        rw (
          encode_from-group dstlen i a b c p q r s src w (o ++ rest) e (omega arith),
          ih,
          append_assoc w (group_text a b c) (encode_text src ++ rest),
          n,
          g.0,
          g.1,
          g.2,
          g.3,
        ))
      old (omega arith) i e hb l room
