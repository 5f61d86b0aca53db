-- ===== src/Base64/RoundTrip.antt =====
-- `base64_decode` and `lb64dec` of lua-base64.c on the texts of Base64/Spec.
use quick.Prelude.{
  ltb, true, isspace, ℕ, sym, ◌+◌, ◌*◌, ◌/◌, ◌%◌, ◌≤◌, ◌<◌, ◌≡◌, refl, ap, ◌∙◌, Option, none, some,
  List, [], ◌∷◌, ◌++◌, arith, length, length-append, get_or, get_or-append, take-append,
  append_assoc, append-cons, AreBytes,
}
use quick.Base64.{
  true, ltb, Attempt, kept, b64equ, scan, Phase, s0, s2, s3, finish, pad, close, second_equ,
  skip_spaces, only_spaces, base64_decode, decode_into, push_decoded, pushlstring, lb64dec,
}
use quick.Base64.Spec.{encode_text, group}
use quick.Base64.Filling.{at_four}
use quick.Base64.Encoding.{encode_result}
use quick.Base64.Decoding.{at, scan_two, scan_three, scan_four, snoc, length-snoc}

finish_two :
    (dstlen j : ℕ) (dst : List ℕ)
    → get_or dst j 0 ≡ 0
    → j < length dst
    → finish (scan dstlen (b64equ ∷ b64equ ∷ []) (at j s2 dst)) ≡ kept (at j s2 dst)
unfolding finish scan pad close second_equ skip_spaces only_spaces isspace
finish_two dstlen j dst z lt =
    let inside : ltb j (length dst) ≡ true = ground arith in rw (z, inside)

finish_three :
    (dstlen j : ℕ) (dst : List ℕ)
    → get_or dst j 0 ≡ 0
    → j < length dst
    → finish (scan dstlen (b64equ ∷ []) (at j s3 dst)) ≡ kept (at j s3 dst)
unfolding finish scan pad close only_spaces isspace
finish_three dstlen j dst z lt =
    let inside : ltb j (length dst) ≡ true = ground arith in rw (z, inside)

-- Reading the text of `src` into the memory behind `w` leaves `src` there.
abbrev Undoes : ℕ → List ℕ → List ℕ → List ℕ → ℕ → Type 0
Undoes dstlen src w old i =
    (rest : List ℕ) × (state : Phase) × (finish (scan dstlen (encode_text src) (at i s0 (w ++ old)))
      ≡ kept (at (i + length src) state (w ++ (src ++ rest))))

at_eq :
    (i j : ℕ) (state : Phase) (xs ys : List ℕ)
    → i ≡ j
    → xs ≡ ys
    → ◌≡◌ {A = Attempt} (kept (at i state xs)) (kept (at j state ys))
at_eq i j state xs ys e f = cc

snoc_two :
    (w r : List ℕ) (a' b' a b : ℕ) → a' ≡ a → b' ≡ b → snoc (snoc w a') b' ++ r ≡ w ++ (a ∷ b ∷ r)
snoc_two w r a' b' a b p q = rw (append-cons (snoc w a') r b', append-cons w (b' ∷ r) a', p, q)

module _ (dstlen i : ℕ) (w : List ℕ) (e : i ≡ length w) (x y : ℕ) (r : List ℕ) where
  undo_one : (a : ℕ) → a < 256 → i + 4 ≤ dstlen → Undoes dstlen (a ∷ []) w (x ∷ y ∷ r) i
  unfolding encode_text
  undo_one a h room = (
    (v % 16 * 16 % 256) ∷ r,
    s2,
    ap finish (scan_two dstlen i w e u v x y (omega arith) (omega arith) (omega arith) r _)
        ∙ finish_two dstlen (i + 1) _
            (get_or-append w ((u * 4 + v / 16) ∷ (v % 16 * 16 % 256) ∷ r) (i + 1) 1 0 (omega arith)
              ∙ (omega arith))
            (omega (arith, length-append w ((u * 4 + v / 16) ∷ (v % 16 * 16 % 256) ∷ r)))
        ∙ at_eq _ _ s2 _ _ refl (ap (λ n. w ++ (n ∷ (v % 16 * 16 % 256) ∷ r)) (omega arith)),
  )
    where
      u : ℕ
      u = group a 0 0 / 262144

      v : ℕ
      v = group a 0 0 / 4096 % 64

  undo_two :
      (a b z : ℕ)
      → a < 256
      → b < 256
      → i + 4 ≤ dstlen
      → Undoes dstlen (a ∷ b ∷ []) w (x ∷ y ∷ z ∷ r) i
  unfolding encode_text
  undo_two a b z ha hb room = (
    (t % 4 * 64 % 256) ∷ r,
    s3,
    ap finish (
          scan_three dstlen i w e u v x y (omega arith) (omega arith) (omega arith) t z r _
            (omega arith) (omega arith))
        ∙ finish_three dstlen (i + 1 + 1) _
            (get_or-append (snoc (snoc w (u * 4 + v / 16)) (v % 16 * 16 + t / 4))
                ((t % 4 * 64 % 256) ∷ r) (i + 1 + 1) 0 0
                (omega (
                  arith,
                  length-snoc w (u * 4 + v / 16),
                  length-snoc (snoc w (u * 4 + v / 16)) (v % 16 * 16 + t / 4),
                ))
              ∙ (omega arith))
            (omega (
              arith,
              length-snoc w (u * 4 + v / 16),
              length-snoc (snoc w (u * 4 + v / 16)) (v % 16 * 16 + t / 4),
              length-append (snoc (snoc w (u * 4 + v / 16)) (v % 16 * 16 + t / 4))
                  ((t % 4 * 64 % 256) ∷ r),
            ))
        ∙ at_eq _ _ s3 _ _ (omega arith)
            (snoc_two w ((t % 4 * 64 % 256) ∷ r) _ _ a b (omega arith) (omega arith)),
  )
    where
      u : ℕ
      u = group a b 0 / 262144

      v : ℕ
      v = group a b 0 / 4096 % 64

      t : ℕ
      t = group a b 0 / 64 % 64

  -- A whole group leaves its three bytes and is back in state 0.
  scan_group :
      (a b c z : ℕ) (src : List ℕ)
      → a < 256
      → b < 256
      → c < 256
      → i + 4 ≤ dstlen
      → scan dstlen (encode_text (a ∷ b ∷ c ∷ src)) (at i s0 (w ++ (x ∷ y ∷ z ∷ r)))
        ≡ scan dstlen (encode_text src) (at (i + 1 + 1 + 1) s0 ((w ++ (a ∷ b ∷ c ∷ [])) ++ r))
  unfolding encode_text
  scan_group a b c z src ha hb hc room =
      scan_four dstlen i w e u v x y (omega arith) (omega arith) (omega arith) t s z r _
        (omega arith) (omega arith) (omega arith)
      ∙ ap (λ d. scan dstlen (encode_text src) (at (i + 1 + 1 + 1) s0 d))
          (snoc_two w ((t % 4 * 64 + s) ∷ r) _ _ a b (omega arith) (omega arith)
            ∙ ap (λ n. w ++ (a ∷ b ∷ n ∷ r)) (omega arith)
            ∙ sym (append_assoc w (a ∷ b ∷ c ∷ []) r))
    where
      u : ℕ
      u = group a b c / 262144

      v : ℕ
      v = group a b c / 4096 % 64

      t : ℕ
      t = group a b c / 64 % 64

      s : ℕ
      s = group a b c % 64

at_three {κ} :
    (P : List ℕ → Type κ)
    → ((p q r : ℕ) (rest : List ℕ) → P (p ∷ q ∷ r ∷ rest))
    → (xs : List ℕ) → 3 ≤ length xs
    → P xs
at_three P f [] h = absurd (omega arith)
at_three P f (p ∷ []) h = absurd (omega arith)
at_three P f (p ∷ q ∷ []) h = absurd (omega arith)
at_three P f (p ∷ q ∷ r ∷ rest) h = f p q r rest

undoes :
    (dstlen : ℕ) (src w old : List ℕ) (i : ℕ)
    → i ≡ length w
    → AreBytes src
    → length (encode_text src) ≤ length old
    → i + length (encode_text src) ≤ dstlen
    → Undoes dstlen src w old i
unfolding encode_text
undoes dstlen [] w old i e hb l room =
    (old, s0, unfold finish scan in at_eq i (i + 0) s0 (w ++ old) (w ++ old) (omega arith) refl)
undoes dstlen (a ∷ []) w old i e hb l room =
    at_three (λ old. Undoes dstlen (a ∷ []) w old i)
      (λ p q r rest. undo_one dstlen i w e p q (r ∷ rest) a hb.0 room) old (omega arith)
undoes dstlen (a ∷ b ∷ []) w old i e hb l room =
    at_three (λ old. Undoes dstlen (a ∷ b ∷ []) w old i)
      (λ p q r rest. undo_two dstlen i w e p q rest a b r hb.0 hb.1.0 room) old (omega arith)
undoes dstlen (a ∷ b ∷ c ∷ src) w old i e hb l room =
    at_four
      (λ old. 4 + length (encode_text src) ≤ length old → Undoes dstlen (a ∷ b ∷ c ∷ src) w old i)
      (λ p q r z o l.
        let w' : List ℕ = w ++ (a ∷ b ∷ c ∷ []) in
        let ih =
          undoes dstlen src w' (z ∷ o) (i + 1 + 1 + 1)
            (omega (arith, length-append w (a ∷ b ∷ c ∷ []))) hb.1.1.1 (omega arith)
            (omega arith) in
        (
          ih.0,
          ih.1,
          ap finish
                (scan_group dstlen i w e p q (z ∷ o) a b c r src hb.0 hb.1.0 hb.1.1.0 (omega arith))
              ∙ ih.2
              ∙ at_eq _ _ ih.1 _ _ (omega arith) (append_assoc w (a ∷ b ∷ c ∷ []) (src ++ ih.0)),
        ))
      old (omega arith) (omega arith)

-- With a buffer as long as the text, decoding the text of `src` succeeds, returns the number of
-- its bytes, and leaves them at the front of the buffer.
pub base64_decode-encode_text :
    (src dst : List ℕ)
    → AreBytes src
    → length dst ≡ length (encode_text src)
    → (rest : List ℕ) × (state : Phase) × (base64_decode (encode_text src) (some dst) (length dst)
        ≡ kept (at (length src) state (src ++ rest)))
unfolding base64_decode
base64_decode-encode_text src dst bytes l =
    let u = undoes (length dst) src [] dst 0 refl bytes (omega arith) (omega arith) in
    (u.0, u.1, u.2 ∙ at_eq _ _ u.1 _ _ (omega arith) refl)

decode_into-encode_text :
    (src : List ℕ) (o : Option (List ℕ))
    → AreBytes src
    → ((block : List ℕ) → o ≡ some block → length block ≡ length (encode_text src))
    → decode_into (encode_text src) o ≡ encode_result src o
unfolding decode_into push_decoded pushlstring
decode_into-encode_text src none bytes gives = refl
decode_into-encode_text src (some block) bytes gives =
    let l = gives block refl in
    let d = base64_decode-encode_text src block bytes l in
    rw (← l, d.2) (ground (arith, take-append src d.0 (length src) refl, length-append src d.0))

-- `decode` of the text of any byte string pushes that string, and nil if `malloc` fails; `malloc`
-- gives blocks of the size asked for.
pub lb64dec-encode_text :
    (malloc : ℕ → Option (List ℕ)) (src : List ℕ)
    → ((n : ℕ) (block : List ℕ) → malloc n ≡ some block → length block ≡ n)
    → AreBytes src
    → lb64dec malloc (encode_text src) ≡ encode_result src (malloc (length (encode_text src)))
unfolding lb64dec
lb64dec-encode_text malloc src gives bytes =
    decode_into-encode_text src _ bytes (gives (length (encode_text src)))
