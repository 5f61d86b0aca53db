-- ===== src/Log/Appended.antt =====
-- What `append` of lua-log.c promises, and the memory behind the change to another buffer.
use quick.Prelude.{
  ℕ, ◌+◌, ◌≤◌, ◌≡◌, refl, ap, ◌∙◌, none, some, List, [], ◌∷◌, ◌++◌, length, length-append, arith,
  append-nil,
}
use quick.Log.Heap.{Address, buffer, Heap, write}
use quick.Log.Cells.{
  Cells, Linked, list_of, count, count_option, occurs, contents, count-append, occurs_sym,
  occurs_self, write_self, write_other, Linked-write, Linked-snoc, contents-append,
}
use quick.Log.Append.{Front}
use quick.Log.Front.{Fit, front_count, FrontOk}

abbrev pub cell : Address → List ℕ → Cells
cell p d = (p, d) ∷ []

pub length-snoc : (xs : Cells) (p : Address) (d : List ℕ) → length (xs ++ cell p d) ≡ length xs + 1
length-snoc xs p d = length-append xs (cell p d)

-- What `append` promises: the order of the log, the invariant, and that it touches no address but
-- the front end's and the fresh one.
pub record Appended (capacity : ℕ) (fresh : Address) (line : List ℕ) (h : Heap) (f : Front)
    (full : Cells) (cur : List ℕ) (f' : Front) (h' : Heap) : Type 0 where
  pub full' : Cells
  pub cur' : List ℕ
  pub ok : FrontOk capacity h' f' full' cur'
  pub order : contents full' ++ cur' ≡ (contents full ++ cur) ++ line
  pub counts : (a : Address) → front_count a f' full' ≤ front_count a f full + occurs a fresh
  pub frame : (a : Address) → front_count a f full ≡ 0 → occurs a fresh ≡ 0 → h' a ≡ h a

pub Fit-snoc :
    (capacity : ℕ) (xs : Cells) (p : Address) (d : List ℕ)
    → Fit capacity xs
    → length d ≤ capacity
    → Fit capacity (xs ++ cell p d)
Fit-snoc capacity [] p d fit h = (h, tt)
Fit-snoc capacity (x ∷ xs) p d fit h = (fit.0, Fit-snoc capacity xs p d fit.1 h)

-- The heap after the current buffer is linked to `n` and the line is copied there.
abbrev pub moved : Heap → Address → List ℕ → Address → List ℕ → Heap
moved h curr cur n line =
    write (write h curr (some (buffer (some n) cur))) n (some (buffer none line))

abbrev pub behind : Front → Cells → List ℕ → Address → Front
behind f full cur n = record {
  curr_buffer = n;
  next_buffer = none;
  buffers = list_of (full ++ cell f.curr_buffer cur);
}

module _ (capacity : ℕ) (h : Heap) (f : Front) (full : Cells) (cur line : List ℕ) (n : Address)
    (linked : Linked h full (some f.curr_buffer))
    (apart : (a : Address) → count a full + occurs a f.curr_buffer + occurs a n ≤ 1)
    (fit : Fit capacity full) (fit_current : length cur ≤ capacity)
    (fit_line : length line ≤ capacity) where
  pub moved-Linked :
      Linked (moved h f.curr_buffer cur n line) (full ++ cell f.curr_buffer cur) (some n)
  moved-Linked =
      Linked-snoc _ full (some n) f.curr_buffer cur
        (Linked-write _ full _ n _ (omega (arith, apart n, occurs_self n)) (
          Linked-write h full _ f.curr_buffer _
            (omega (arith, apart f.curr_buffer, occurs_self f.curr_buffer)) linked))
        (write_other _ n f.curr_buffer _ (omega (arith, apart n, occurs_self n))
          ∙ write_self h f.curr_buffer _)

  pub moved-FrontOk :
      FrontOk capacity
        (moved h f.curr_buffer cur n line)
        (behind f full cur n)
        (full ++ cell f.curr_buffer cur)
        line
  moved-FrontOk = record {
    list = refl;
    linked = moved-Linked;
    current = write_self _ n _;
    spare = omega (arith, length-snoc full f.curr_buffer cur);
    distinct = λ a. omega (arith, apart a, count-append a full (cell f.curr_buffer cur));
    fit = Fit-snoc capacity full f.curr_buffer cur fit fit_current;
    fit_current = fit_line;
  }

  -- `h'` is the memory before a blank buffer was allocated, if one was.
  pub moved-Appended :
      (h' : Heap) (fresh : Address)
      → ((a : Address) → occurs a fresh ≡ 0 → h a ≡ h' a)
      → ((a : Address) → occurs a n ≤ count_option a f.next_buffer + occurs a fresh)
      → Appended capacity fresh line h' f full cur
          (behind f full cur n)
          (moved h f.curr_buffer cur n line)
  moved-Appended h' fresh same owned = record {
    full' = full ++ cell f.curr_buffer cur;
    cur' = line;
    ok = moved-FrontOk;
    order =
        ap (λ t. t ++ line)
          (contents-append full (cell f.curr_buffer cur)
            ∙ ap (λ t. contents full ++ t) (append-nil cur));
    counts = λ a. omega (arith, owned a, count-append a full (cell f.curr_buffer cur));
    frame = λ a mine new.
        write_other _ n a _ (omega (arith, occurs_sym n a, owned a))
        ∙ write_other h f.curr_buffer a _ (omega (arith, occurs_sym f.curr_buffer a))
        ∙ same a new;
  }
