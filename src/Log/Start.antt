-- ===== src/Log/Start.antt =====
-- `init` of lua-log.c, and the lines that the Lua functions make.
use quick.Prelude.{
  ◌^◌, c_string, ℕ, zero, suc, ◌+◌, ◌≤◌, ◌<◌, ◌≡◌, ◌≢◌, refl, ap, ◌∙◌, Bool, true, false, Option,
  none, some, List, [], ◌∷◌, ◌++◌, length, take, arith, length-take, length-append, All,
  if◌then◌else◌,
}
use quick.Prelude.Int.{negsuc, pos, ℤ}
use quick.Log.Heap.{Address, Heap, write, blank}
use quick.Log.Roll.{Roll, null, System, directory_ready}
use quick.Log.RollIndex.{rollfile-RolledOk}
use quick.Log.Cells.{occurs, occurs_self, write_self, write_other}
use quick.Log.Worker.{has_handle}
use quick.Log.InOrder.{InOrder}
use quick.Log.Delivery.{Goes}
use quick.Log.Entry.{
  Level, debug, info, warning, error, fatal, log_max, prefix, message, enabled, submit, roll_size,
  start_heap, start_logger, linit,
}

-- The sizes in megabytes that an `int` holds together with their product.
abbrev pub MegabytesFit : ℤ → Type 0
MegabytesFit (pos n) = n < 2048
MegabytesFit (negsuc n) = n < 2 ^ 31

roll_size_pos : (size : ℤ) → MegabytesFit size → 0 < roll_size size
unfolding roll_size
roll_size_pos (pos n) small = ground arith
roll_size_pos (negsuc n) small = ground arith

-- No address is used twice.
abbrev pub Apart : Address → Address → Address → Address → Type 0
Apart p q r s = (a : Address) → occurs a p + occurs a q + occurs a r + occurs a s ≤ 1

-- Four blank buffers at different addresses are a logger in order.
pub start_logger-InOrder :
    (capacity : ℕ) (p q r s : Address) (roll : Roll)
    → Apart p q r s
    → has_handle roll.handle ≡ true
    → 0 < roll.rollsize
    → InOrder capacity (start_logger p q r s roll) []
unfolding start_logger start_heap
start_logger-InOrder capacity p q r s roll apart usable limit = record {
  writing = [];
  full = [];
  cur = [];
  front = record {
    list = refl;
    linked = tt;
    current = blank_curr;
    spare = blank_next;
    distinct = λ a. omega (arith, apart a);
    fit = tt;
    fit_current = omega arith;
  };
  worker = (refl, record { nothing = refl; blank1 = blank_new1; blank2 = write_self _ s _ });
  apart = λ a. omega (arith, apart a);
  usable = usable;
  limit = limit;
  stream = refl;
}
  where
    h1 : Heap
    h1 = write (λ _. none) p (some blank)

    h2 : Heap
    h2 = write h1 q (some blank)

    h3 : Heap
    h3 = write h2 r (some blank)

    blank_curr : write h3 s (some blank) p ≡ some blank
    blank_curr =
        write_other h3 s p _ (omega (arith, apart s, occurs_self s))
        ∙ write_other h2 r p _ (omega (arith, apart r, occurs_self r))
        ∙ write_other h1 q p _ (omega (arith, apart q, occurs_self q))
        ∙ write_self _ p _

    blank_next : write h3 s (some blank) q ≡ some blank
    blank_next =
        write_other h3 s q _ (omega (arith, apart s, occurs_self s))
        ∙ write_other h2 r q _ (omega (arith, apart r, occurs_self r))
        ∙ write_self h1 q _

    blank_new1 : write h3 s (some blank) r ≡ some blank
    blank_new1 = write_other h3 s r _ (omega (arith, apart s, occurs_self s)) ∙ write_self h2 r _

-- With four different addresses from `calloc`, a directory that can be had and a roll size from
-- -2^31 to 2047 megabytes, `init` and the start of the worker
-- end, and leave a logger in order, with nothing logged.
pub linit-InOrder :
    (capacity fuel : ℕ) (p q r s : Address) (sys : System) (size : ℤ)
    → Apart p q r s
    → directory_ready sys.directory ≡ true
    → MegabytesFit size
    → 2 ≤ fuel
    → Goes capacity [] (linit p q r s fuel sys size)
unfolding linit
linit-InOrder capacity fuel p q r s sys size apart ready small enough =
    let (roll, e, ok) =
      rollfile-RolledOk fuel sys
        (record { handle = null; rollsize = roll_size size; written_bytes = 0; roll_mday = 0 })
        ready (roll_size_pos size small) enough in
    (
      start_logger p q r s roll,
      rw e,
      start_logger-InOrder capacity p q r s roll apart ok.usable
          (omega (arith, ok.rollsize, roll_size_pos size small)),
    )

take_all : (n : ℕ) (xs : List ℕ) → length xs ≤ n → take n xs ≡ xs
take_all zero [] h = refl
take_all zero (x ∷ xs) h = absurd (omega arith)
take_all (suc n) [] h = refl
take_all (suc n) (x ∷ xs) h = ap (λ t. x ∷ t) (take_all n xs (omega arith))

c_string_whole : (text : List ℕ) → All (λ c. c ≢ 0) text → c_string text ≡ text
unfolding c_string
c_string_whole [] h = refl
c_string_whole (c ∷ text) h = ground (arith, c_string_whole text h.1)

length-prefix : (level : Level) → length (prefix level) ≤ 10
length-prefix debug = omega arith
length-prefix info = omega arith
length-prefix warning = omega arith
length-prefix error = omega arith
length-prefix fatal = omega arith

picked : (b : Bool) (m line : List ℕ) → (if b then some m else none) ≡ some line → m ≡ line
picked true m line e = cc
picked false m line e = cc

message-lt : (level : Level) (text : List ℕ) → length (message level text) < 4096
unfolding message
message-lt level text =
    omega (arith, length-take 4095 (prefix level ++ (c_string text ++ (10 ∷ []))))

-- Whatever a Lua function appends is shorter than LOG_MAX, so it fits a buffer.
pub submit-lt :
    (loglevel : ℤ) (level : Level) (text : Option (List ℕ)) {line : List ℕ}
    → submit loglevel level text ≡ some line
    → length line < log_max
unfolding submit
submit-lt loglevel level none e = cc
submit-lt loglevel level (some text) {line} e =
    let same = picked (enabled loglevel level) (message level text) line e in
    omega (arith, ap length same, message-lt level text)

-- A text of at most 4084 bytes with no NUL among them is logged whole, with its prefix and a
-- newline.
pub message_whole :
    (level : Level) (text : List ℕ)
    → All (λ c. c ≢ 0) text
    → length text ≤ 4084
    → message level text ≡ prefix level ++ (text ++ (10 ∷ []))
unfolding message
message_whole level text h short =
    ap (λ t. take 4095 (prefix level ++ (t ++ (10 ∷ [])))) (c_string_whole text h)
    ∙ take_all 4095 _ (
        omega (
          arith,
          length-append (prefix level) (text ++ (10 ∷ [])),
          length-append text (10 ∷ []),
          length-prefix level,
        ))
