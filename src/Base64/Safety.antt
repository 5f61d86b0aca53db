-- ===== src/Base64/Safety.antt =====
-- The accesses of `base64_decode` in lua-base64.c to `dst`.
use quick.Prelude.{
  ◌+◌, leb, if◌then◌else◌, ltb, get_or, ap, subst, isspace, ℕ, ◌≤◌, ◌<◌, ◌≡◌, refl, Option, none,
  some, Bool, true, false, List, [], ◌∷◌, arith, length, length-set, Bool-cases, inl, inr, set, ◌∙◌,
  Option-cases, ◌==◌,
}
use quick.Base64.{
  leb, overrun, overran, get_or, refused, start, check_leftover, kept, ltb, Attempt, b64equ, scan,
  Decoder, Scan, ended, padded, failed, Phase, s0, s1, s2, s3, finish, pad, close, store,
  second_equ, skip_spaces, only_spaces, base64_decode, or_at, guarded, strchr,
}

-- Between the states 1, 2 and 3 the byte at `idx` has been written.
abbrev pub InBounds : ℕ → Phase → ℕ → Type 0
InBounds idx s0 n = idx ≤ n
InBounds idx s1 n = idx < n
InBounds idx s2 n = idx < n
InBounds idx s3 n = idx < n

-- `dst` is null, or has the bytes that `dstlen` says.
abbrev pub HasRoom : Option (List ℕ) → ℕ → Type 0
HasRoom none dstlen = Unit
HasRoom (some old) dstlen = dstlen ≤ length old

-- The decoder that began with `dst`.
abbrev pub Safe : Option (List ℕ) → ℕ → Decoder → Type 0
Safe none dstlen d = d.dst ≡ none
Safe (some old) dstlen d =
    (b : List ℕ) × (d.dst ≡ some b) × (length b ≡ length old) × InBounds d.idx d.state dstlen

abbrev pub IsSafe : Option (List ℕ) → ℕ → Attempt → Type 0
IsSafe dst dstlen refused = Unit
IsSafe dst dstlen overrun = ⊥
IsSafe dst dstlen (kept d) = Safe dst dstlen d

abbrev ScanIsSafe : Option (List ℕ) → ℕ → Scan → Type 0
ScanIsSafe dst dstlen failed = Unit
ScanIsSafe dst dstlen overran = ⊥
ScanIsSafe dst dstlen (ended d) = Safe dst dstlen d
ScanIsSafe dst dstlen (padded d src) = Safe dst dstlen d

length-or_at : (b : List ℕ) (i v : ℕ) → length (or_at b i v) ≡ length b
length-or_at b i v = length-set b i _

length-or_then_set : (b : List ℕ) (i j v u : ℕ) → length (set (or_at b i v) j u) ≡ length b
length-or_then_set b i j v u = length-set (or_at b i v) j u ∙ length-or_at b i v

-- The guard of a case keeps its stores inside the buffer.
guarded-IsSafe :
    (dst : Option (List ℕ)) (dstlen : ℕ) (full : Bool) (last : ℕ) (write : List ℕ → List ℕ)
    (d : Decoder) (idx : ℕ) (state : Phase)
    → HasRoom dst dstlen
    → Safe dst dstlen d
    → ((b : List ℕ) → length (write b) ≡ length b)
    → (full ≡ false → last < dstlen)
    → (full ≡ false → InBounds idx state dstlen)
    → IsSafe dst dstlen (guarded full last write d idx state)
guarded-IsSafe none n full last write d idx state room e keeps below inside = rw e refl
guarded-IsSafe (some old) n true last write d idx state room (b, e, l, h) keeps below inside =
    rw e tt
guarded-IsSafe (some old) n false last write d idx state room (b, e, l, h) keeps below inside =
    let lt : ltb last (length b) ≡ true = ground (arith, below refl) in
    rw (e, lt) (write b, refl, keeps b ∙ l, inside refl)

module _ (dst : Option (List ℕ)) (dstlen : ℕ) (room : HasRoom dst dstlen) where
  store-IsSafe :
      (v : ℕ) (state : Phase) (d : Decoder)
      → Safe dst dstlen d
      → IsSafe dst dstlen (store dstlen state d v)
  unfolding store
  store-IsSafe v s0 d safe =
      guarded-IsSafe dst dstlen (leb dstlen d.idx) _ _ d _ s1 room safe (λ b. length-set b d.idx _)
        (λ f. ground arith) (λ f. ground arith)
  store-IsSafe v s1 d safe =
      guarded-IsSafe dst dstlen (leb dstlen (d.idx + 1)) _ _ d _ s2 room safe
        (λ b. length-or_then_set b d.idx _ _ _) (λ f. ground arith) (λ f. ground arith)
  store-IsSafe v s2 d safe =
      guarded-IsSafe dst dstlen (leb dstlen (d.idx + 1)) _ _ d _ s3 room safe
        (λ b. length-or_then_set b d.idx _ _ _) (λ f. ground arith) (λ f. ground arith)
  store-IsSafe v s3 d safe =
      guarded-IsSafe dst dstlen (leb dstlen d.idx) _ _ d _ s0 room safe
        (λ b. length-or_at b d.idx _) (λ f. ground arith) (λ f. ground arith)

  stored :
      (src : List ℕ) (o : Attempt)
      → IsSafe dst dstlen o
      → ((d : Decoder) → Safe dst dstlen d → ScanIsSafe dst dstlen (scan dstlen src d))
      → ScanIsSafe dst dstlen
          (elim o [ refused ↦ failed | overrun ↦ overran | kept d ↦ scan dstlen src d ])
  stored src refused h rec = tt
  stored src overrun h rec = h
  stored src (kept d) h rec = rec d h

  scan-IsSafe :
      (src : List ℕ) (d : Decoder) → Safe dst dstlen d → ScanIsSafe dst dstlen (scan dstlen src d)
  unfolding scan
  scan-IsSafe [] d h = h
  scan-IsSafe (ch ∷ src) d h = elim (Bool-cases (ch == 0)) [
    | inl e ↦ rw (e, scan) h
    | inr e ↦ elim (Bool-cases (isspace ch)) [
      | inl f ↦ rw (e, f, scan) (scan-IsSafe src d h)
      | inr f ↦ elim (Bool-cases (ch == b64equ)) [
        | inl g ↦ rw (e, f, g, scan) h
        | inr g ↦ elim (Option-cases (strchr ch)) [
          | inl k ↦ rw (e, f, g, k, scan) tt
          | inr (v, k) ↦
              rw (e, f, g, k, scan)
                (stored src (store dstlen d.state d v) (store-IsSafe v d.state d h)
                  (scan-IsSafe src))
        ]
      ]
    ]
  ]

-- `dst[idx]` may be read.
abbrev Readable : Decoder → Type 0
Readable d = (b : List ℕ) → d.dst ≡ some b → d.idx < length b

Safe-Readable :
    (dst : Option (List ℕ)) (dstlen : ℕ) (d : Decoder)
    → HasRoom dst dstlen
    → Safe dst dstlen d
    → (InBounds d.idx d.state dstlen → d.idx < dstlen)
    → Readable d
Safe-Readable none dstlen d room e strict b f = cc
Safe-Readable (some old) dstlen d room (c, e, l, h) strict b f =
    let same : c ≡ b = cc in omega (arith, ap length same, strict h)

module _ (dst : Option (List ℕ)) (dstlen : ℕ) where
  leftover_at :
      (d : Decoder) (o : Option (List ℕ))
      → Safe dst dstlen d
      → ((b : List ℕ) → o ≡ some b → d.idx < length b)
      → IsSafe dst dstlen (elim o [
        | none ↦ kept d
        | some b ↦
            if ltb d.idx (length b)
            then if get_or b d.idx 0 == 0 then kept d else refused
            else overrun
      ])
  leftover_at d none safe readable = safe
  leftover_at d (some b) safe readable =
      let lt : ltb d.idx (length b) ≡ true = ground (arith, readable b refl) in
      elim (Bool-cases (get_or b d.idx 0 == 0)) [ inl z ↦ rw (lt, z) safe | inr z ↦ rw (lt, z) tt ]

  leftover-IsSafe :
      (d : Decoder) → Safe dst dstlen d → Readable d → IsSafe dst dstlen (check_leftover d)
  leftover-IsSafe d safe readable = leftover_at d (d.dst) safe readable

  close-IsSafe :
      (d : Decoder) (src : List ℕ)
      → Safe dst dstlen d
      → Readable d
      → IsSafe dst dstlen (close d src)
  unfolding close
  close-IsSafe d src safe readable = elim (Bool-cases (only_spaces src)) [
    | inl e ↦ rw e (leftover-IsSafe d safe readable)
    | inr e ↦ rw e tt
  ]

  second_equ-IsSafe :
      (d : Decoder) (src : List ℕ)
      → Safe dst dstlen d
      → Readable d
      → IsSafe dst dstlen (second_equ d src)
  unfolding second_equ
  second_equ-IsSafe d [] safe readable = tt
  second_equ-IsSafe d (ch ∷ src) safe readable = elim (Bool-cases (ch == b64equ)) [
    | inl e ↦ rw e (close-IsSafe d src safe readable)
    | inr e ↦ rw e tt
  ]

  pad-IsSafe :
      (p : Phase) (d : Decoder) (src : List ℕ)
      → HasRoom dst dstlen
      → d.state ≡ p
      → Safe dst dstlen d
      → IsSafe dst dstlen (pad p d src)
  unfolding pad
  pad-IsSafe s0 d src room e safe = tt
  pad-IsSafe s1 d src room e safe = tt
  pad-IsSafe s2 d src room e safe =
      second_equ-IsSafe d (skip_spaces src) safe
        (Safe-Readable dst dstlen d room safe (subst (λ q. InBounds d.idx q dstlen) e))
  pad-IsSafe s3 d src room e safe =
      close-IsSafe d src safe
        (Safe-Readable dst dstlen d room safe (subst (λ q. InBounds d.idx q dstlen) e))

  ended-IsSafe :
      (d : Decoder) (p : Phase)
      → Safe dst dstlen d
      → IsSafe dst dstlen (elim p [ s0 ↦ kept d | _ ↦ refused ])
  ended-IsSafe d s0 safe = safe
  ended-IsSafe d s1 safe = tt
  ended-IsSafe d s2 safe = tt
  ended-IsSafe d s3 safe = tt

  finish-IsSafe :
      (s : Scan) → HasRoom dst dstlen → ScanIsSafe dst dstlen s → IsSafe dst dstlen (finish s)
  unfolding finish
  finish-IsSafe failed room h = tt
  finish-IsSafe overran room h = h
  finish-IsSafe (ended d) room h = ended-IsSafe d d.state h
  finish-IsSafe (padded d src) room h = pad-IsSafe d.state d src room refl h

start-Safe : (dst : Option (List ℕ)) (dstlen : ℕ) → Safe dst dstlen (start dst)
start-Safe none dstlen = refl
start-Safe (some old) dstlen = (old, refl, refl, omega arith)

-- On every text, accepted or not, with a buffer of `dstlen` bytes or more, or none, the decoder
-- never reads or writes `dst` outside the buffer. When it accepts the text, the buffer has its size,
-- and the call returns `dstlen` at most, and less in the states 1 to 3.
pub base64_decode-Safe :
    (src : List ℕ) (dst : Option (List ℕ)) (dstlen : ℕ)
    → HasRoom dst dstlen
    → IsSafe dst dstlen (base64_decode src dst dstlen)
unfolding base64_decode
base64_decode-Safe src dst dstlen room =
    finish-IsSafe dst dstlen _ room (scan-IsSafe dst dstlen room src _ (start-Safe dst dstlen))
