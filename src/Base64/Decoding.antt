-- ===== src/Base64/Decoding.antt =====
-- The switch of `base64_decode` in lua-base64.c on two, three and four symbols.
use quick.Prelude.{
  ℕ, ◌+◌, ◌*◌, ◌/◌, ◌%◌, ◌<◌, ◌≡◌, ◌∙◌, some, List, [], ◌∷◌, ◌++◌, arith, length, length-append,
  set, set-append, get_or-append, append-cons, bit_or,
}
use quick.Base64.{kept, symbol, store, scan, Decoder, Phase, s0, s1, s2, s3, to_u8, or_at}
use quick.Base64.Table.{scan-symbol, or_first, or_second, or_third}

abbrev pub at : ℕ → Phase → List ℕ → Decoder
at i p dst = record { idx = i; state = p; dst = some dst }

or_at-append :
    (w r : List ℕ) (i x v : ℕ)
    → i ≡ length w
    → or_at (w ++ (x ∷ r)) i v ≡ w ++ (to_u8 (bit_or x v) ∷ r)
or_at-append w r i x v e = rw (
  get_or-append w (x ∷ r) i 0 0 (omega arith),
  set-append w (x ∷ r) i 0 (to_u8 (bit_or x v)) (omega arith),
)

-- The two stores of states 1 and 2.
or_then_set :
    (w r : List ℕ) (i x y v n : ℕ)
    → i ≡ length w
    → set (or_at (w ++ (x ∷ y ∷ r)) i v) (i + 1) n ≡ w ++ (to_u8 (bit_or x v) ∷ n ∷ r)
or_then_set w r i x y v n e = rw (
  or_at-append w (y ∷ r) i x v e,
  set-append w (to_u8 (bit_or x v) ∷ y ∷ r) (i + 1) 1 n (omega arith),
)

-- Each case of the switch, at the place that the bytes decoded so far end.
module _ (dstlen i : ℕ) (w : List ℕ) (e : i ≡ length w) where
  store_first :
      (u x : ℕ) (r : List ℕ)
      → i < dstlen
      → store dstlen s0 (at i s0 (w ++ (x ∷ r))) u ≡ kept (at i s1 (w ++ ((u * 4 % 256) ∷ r)))
  unfolding store
  store_first u x r room =
      ground (arith, set-append w (x ∷ r) i 0 (u * 4 % 256) (omega arith), length-append w (x ∷ r))

  store_second :
      (u v y : ℕ) (r : List ℕ)
      → i + 1 < dstlen
      → u < 64
      → v < 64
      → store dstlen s1 (at i s1 (w ++ ((u * 4 % 256) ∷ y ∷ r))) v
        ≡ kept (at (i + 1) s2 (w ++ ((u * 4 + v / 16) ∷ (v % 16 * 16 % 256) ∷ r)))
  unfolding store
  store_second u v y r room hu hv = ground (
    arith,
    or_then_set w r i (u * 4 % 256) y (v / 16) (v % 16 * 16 % 256) e,
    or_first u v hu hv,
    length-append w ((u * 4 % 256) ∷ y ∷ r),
  )

  store_third :
      (v t y : ℕ) (r : List ℕ)
      → i + 1 < dstlen
      → v < 64
      → t < 64
      → store dstlen s2 (at i s2 (w ++ ((v % 16 * 16 % 256) ∷ y ∷ r))) t
        ≡ kept (at (i + 1) s3 (w ++ ((v % 16 * 16 + t / 4) ∷ (t % 4 * 64 % 256) ∷ r)))
  unfolding store
  store_third v t y r room hv ht = ground (
    arith,
    or_then_set w r i (v % 16 * 16 % 256) y (t / 4) (t % 4 * 64 % 256) e,
    or_second v t hv ht,
    length-append w ((v % 16 * 16 % 256) ∷ y ∷ r),
  )

  store_fourth :
      (t s : ℕ) (r : List ℕ)
      → i < dstlen
      → t < 64
      → s < 64
      → store dstlen s3 (at i s3 (w ++ ((t % 4 * 64 % 256) ∷ r))) s
        ≡ kept (at (i + 1) s0 (w ++ ((t % 4 * 64 + s) ∷ r)))
  unfolding store
  store_fourth t s r room ht hs = ground (
    arith,
    or_at-append w r i (t % 4 * 64 % 256) s e,
    or_third t s ht hs,
    length-append w ((t % 4 * 64 % 256) ∷ r),
  )

abbrev pub snoc : List ℕ → ℕ → List ℕ
snoc w a = w ++ (a ∷ [])

pub length-snoc : (w : List ℕ) (a : ℕ) → length (snoc w a) ≡ length w + 1
length-snoc w a = length-append w (a ∷ [])

-- Two, three or four symbols from state 0.
module _ (dstlen i : ℕ) (w : List ℕ) (e : i ≡ length w) (u v x y : ℕ) (hu : u < 64) (hv : v < 64)
    (room : i + 1 < dstlen) where
  pub scan_two :
      (r src : List ℕ)
      → scan dstlen (symbol u ∷ symbol v ∷ src) (at i s0 (w ++ (x ∷ y ∷ r)))
        ≡ scan dstlen src (at (i + 1) s2 (w ++ ((u * 4 + v / 16) ∷ (v % 16 * 16 % 256) ∷ r)))
  scan_two r src = rw (
    scan-symbol dstlen u (symbol v ∷ src) _ hu,
    store_first dstlen i w e u x (y ∷ r) (omega arith),
    scan-symbol dstlen v src _ hv,
    store_second dstlen i w e u v y r room hu hv,
  )

  pub scan_three :
      (t z : ℕ) (r src : List ℕ)
      → t < 64
      → i + 2 < dstlen
      → scan dstlen (symbol u ∷ symbol v ∷ symbol t ∷ src) (at i s0 (w ++ (x ∷ y ∷ z ∷ r)))
        ≡ scan dstlen src (
            at
              (i + 1 + 1)
              s3
              ((snoc (snoc w (u * 4 + v / 16)) (v % 16 * 16 + t / 4)) ++ ((t % 4 * 64 % 256) ∷ r)))
  scan_three t z r src ht room' =
      scan_two (z ∷ r) (symbol t ∷ src)
      ∙ rw (
        ← append-cons w ((v % 16 * 16 % 256) ∷ z ∷ r) (u * 4 + v / 16),
        scan-symbol dstlen t src
            (at (i + 1) s2 ((snoc w (u * 4 + v / 16)) ++ ((v % 16 * 16 % 256) ∷ z ∷ r))) ht,
        store_third dstlen (i + 1) (snoc w (u * 4 + v / 16))
            (omega (arith, length-snoc w (u * 4 + v / 16))) v t z r (omega arith) hv ht,
        append-cons (snoc w (u * 4 + v / 16)) ((t % 4 * 64 % 256) ∷ r) (v % 16 * 16 + t / 4),
      )

  pub scan_four :
      (t s z : ℕ) (r src : List ℕ)
      → t < 64
      → s < 64
      → i + 2 < dstlen
      → scan dstlen
          (symbol u ∷ symbol v ∷ symbol t ∷ symbol s ∷ src)
          (at i s0 (w ++ (x ∷ y ∷ z ∷ r)))
        ≡ scan dstlen src (
            at
              (i + 1 + 1 + 1)
              s0
              ((snoc (snoc w (u * 4 + v / 16)) (v % 16 * 16 + t / 4)) ++ ((t % 4 * 64 + s) ∷ r)))
  scan_four t s z r src ht hs room' =
      scan_three t z r (symbol s ∷ src) ht room'
      ∙ rw (
        scan-symbol dstlen s src
            (at (i + 1 + 1) s3
              ((snoc (snoc w (u * 4 + v / 16)) (v % 16 * 16 + t / 4)) ++ ((t % 4 * 64 % 256) ∷ r)))
            hs,
        store_fourth dstlen (i + 1 + 1) ((snoc (snoc w (u * 4 + v / 16)) (v % 16 * 16 + t / 4)))
            (omega (
              arith,
              length-snoc w (u * 4 + v / 16),
              length-snoc (snoc w (u * 4 + v / 16)) (v % 16 * 16 + t / 4),
            ))
            t s r (omega arith) ht hs,
      )
