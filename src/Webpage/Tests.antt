-- ===== src/Webpage/Tests.antt =====
-- The templates of lua-webpage.c at small inputs.
use quick.Webpage.InsertionSort.{insertion_sorter, insertion_sort, put_sorted}
use quick.Webpage.Sorter.{Sorter, qsort}
use quick.Prelude.{
  ◌++◌, c_string, if◌then◌else◌, ◌==◌, ◌≢◌, isspace, ℕ, ◌<◌, ◌≡◌, refl, none, some, List, [], ◌∷◌,
  codes, arith,
}
use quick.Webpage.Blocks.{Address, block, html_content, Content, var_content, Memory}
use mathlib.Core.List.{Permᴰ}
use quick.Webpage.Names.{strcmp, Table, find, entries_of}
use quick.Webpage.Parse.{Parser, at_var, at_comment, parsed, stuck, parse}
use quick.Webpage.Render.{null, bytes, render}
use quick.Webpage.Edit.{copy_content}
use quick.Webpage.Page.{Page, loaded, load, lset, lset_block}
use quick.Webpage.Chain.{numbered-Stands, Cells, numbered}
use quick.Webpage.Printing.{printed}
use quick.Webpage.Printed.{render_lem}
use quick.Webpage.Template.{
  marked, Template, text, with_var, with_mark, opening, closing, source, WellFormed, contents_of,
}
use quick.Webpage.RoundTrip.{ReadBack, parse-source}
use quick.Webpage.FindAll.{find-qsort}
use quick.Webpage.Session.{assigned, Holds, load-source, lset-Holds}
use quick.Webpage.Termination.{parse-Ends}
use quick.Webpage.Copies.{Flat}
use quick.Webpage.Joined.{inside_after}
use quick.Webpage.Parts.{lset_block-Holds, part_cells}
use quick.Webpage.Reuse.{lrender-lrender}
use quick.Webpage.Render.{dangling, render_from, past_block, put_data, append_data}
use quick.Webpage.Page.{lrender}
use quick.Webpage.Rendered.{row_session, row_session_lem}
use quick.Webpage.Expanded.{filled_kind, filled, expanded, session, session_lem}
use quick.Webpage.Runs.{no_memory, empty_page}

-- A `qsort` for these runs.
instance abbrev by_insertion : Sorter
by_insertion = insertion_sorter

-- `Hi ##who##, <!-- #BeginBlock x -->a<!-- #EndBlock x -->.`
abbrev greeting : Template
greeting = with_var (codes "Hi ") (codes "who") (
    with_mark (codes ", ") opening (codes "x")
      (with_mark (codes "a") closing (codes "x") (text (codes "."))))

greeting-WellFormed : WellFormed greeting
unfolding at_var at_comment isspace
greeting-WellFormed = (
  (refl, refl, (refl, refl, (refl, refl, tt))),
  (
    ((omega arith, omega arith), ((omega arith, omega arith), ((omega arith, omega arith), tt))),
    omega arith,
  ),
  omega arith,
  (
    (refl, refl, (refl, refl, tt)),
    (((omega arith, refl), tt), omega arith, omega arith),
    ((refl, refl, tt), (((omega arith, refl), tt), omega arith, omega arith), (refl, refl, tt)),
  ),
)

session_lem_example :
    (s' : Page) × (session
        ((codes "who", codes "Al") ∷ (codes "who", codes "Bo") ∷ [])
        (load (some (source greeting)) empty_page)
      ≡ some (codes "Hi Bo, .", s'))
unfolding expanded strcmp c_string
session_lem_example =
    session_lem greeting ((codes "who", codes "Al") ∷ (codes "who", codes "Bo") ∷ []) empty_page
      greeting-WellFormed

parse-source_example :
    (q : Parser) × (parse (source greeting) no_memory ≡ parsed q)
    × ReadBack no_memory.heap 0 (contents_of greeting) q
parse-source_example = parse-source greeting no_memory greeting-WellFormed

-- A page of one variable, and a page of one variable with a text behind it.
abbrev one_var : List Content
one_var = var_content (codes "n") ∷ html_content (codes "!") ∷ []

abbrev one_cells : Cells
one_cells = numbered 0 one_var

abbrev one_memory : Memory
one_memory = record {
  heap = λ a.
      if a == 0
      then some (block none (some 1) (var_content (codes "n")))
      else if a == 1
      then some (block (some 0) none (html_content (codes "!")))
      else none;
  fresh = 2;
}

render_lem_example : render one_memory (some 0) null ≡ some (bytes (codes "!"))
unfolding printed
render_lem_example =
    render_lem one_memory one_cells null (refl, (refl, tt)) ((λ e. cc), ((λ e. cc), tt))
      (omega arith) tt

abbrev one_page : Page
one_page = record {
  mem = one_memory;
  head = some 0;
  vartable = record { name = codes "n"; block_at = 0 } ∷ [];
  blocktable = [];
  result = null;
}

one_page-Holds : Holds one_cells one_page
unfolding insertion_sort put_sorted
one_page-Holds = record {
  stands = numbered-Stands one_memory.heap 0 one_var (refl, (refl, tt));
  starts = refl;
  variables = refl;
  parts = refl;
  room = omega arith;
  named = ((λ e. cc), ((λ e. cc), tt));
}

lset-Holds_example :
    (s' : Page) × (lset (codes "n") (codes "v") one_page ≡ some s')
    × Holds (assigned (codes "n") (codes "v") one_cells) s'
    × (s'.result ≡ null)
unfolding c_string
lset-Holds_example = lset-Holds (codes "n") (codes "v") one_cells one_page one_page-Holds

load-source_example :
    (s' : Page) × (load (some (source greeting)) one_page ≡ loaded s')
    × Holds (numbered 2 (contents_of greeting)) s'
    × (s'.result ≡ null)
    × ((a : Address) → a < 2 → s'.mem.heap a ≡ one_memory.heap a)
load-source_example = load-source greeting one_page greeting-WellFormed

abbrev three : Table
three =
    record { name = codes "b"; block_at = 1 }
    ∷ record { name = codes "a"; block_at = 2 }
    ∷ record { name = codes "b"; block_at = 3 }
    ∷ []

find-qsort_example :
    Permᴰ
      (entries_of (qsort three) (find (codes "b") (qsort three)))
      (record { name = codes "b"; block_at = 1 } ∷ record { name = codes "b"; block_at = 3 } ∷ [])
unfolding strcmp
find-qsort_example = find-qsort (codes "b") three

parse-Ends_example : parse (codes "##a<!-- x") no_memory ≢ stuck
parse-Ends_example = parse-Ends (codes "##a<!-- x") no_memory

-- `H<!-- #BeginBlock r -->[##v##]<!-- #EndBlock r -->F`
abbrev listing : Template
listing = with_mark (codes "H") opening (codes "r") (
    with_var (codes "[") (codes "v") (with_mark (codes "]") closing (codes "r") (text (codes "F"))))

listing-WellFormed : WellFormed listing
unfolding at_var at_comment isspace
listing-WellFormed = (
  (refl, refl, tt),
  (((omega arith, refl), tt), omega arith, omega arith),
  (
    (refl, refl, tt),
    (((omega arith, omega arith), tt), omega arith),
    omega arith,
    ((refl, refl, tt), (((omega arith, refl), tt), omega arith, omega arith), (refl, refl, tt)),
  ),
)

abbrev listing_part : Cells
listing_part =
    numbered 2 (html_content (codes "[") ∷ var_content (codes "v") ∷ html_content (codes "]") ∷ [])

listing_part-Flat : Flat (codes "r") listing_part
listing_part-Flat = ((λ e. cc), refl, refl, ((λ e. cc), refl, refl, ((λ e. cc), refl, refl, tt)))

abbrev two_rows : List (List (List ℕ × List ℕ))
two_rows = ((codes "v", codes "a") ∷ []) ∷ ((codes "v", codes "b") ∷ []) ∷ []

row_session_lem_example :
    (s' : Page) × (row_session (codes "r") two_rows (load (some (source listing)) empty_page)
      ≡ some (codes "H[a][b]F", s'))
unfolding c_string printed filled filled_kind strcmp inside_after
row_session_lem_example =
    row_session_lem listing empty_page (codes "r") two_rows
      (numbered 0 (html_content (codes "H") ∷ [])) 1 listing_part 5
      (numbered 6 (html_content (codes "F") ∷ [])) listing-WellFormed refl (omega arith) refl
      listing_part-Flat refl refl

-- `H<!-- #BeginBlock r -->a<!-- #EndBlock r -->` in memory.
abbrev part_page : Page
part_page = record {
  mem = record {
    heap = λ a.
        if a == 0
        then some (block none (some 1) (html_content (codes "H")))
        else if a == 1
        then some (block (some 0) (some 2) (marked opening (codes "r")))
        else if a == 2
        then some (block (some 1) (some 3) (html_content (codes "a")))
        else if a == 3
        then some (block (some 2) none (marked closing (codes "r")))
        else none;
    fresh = 4;
  };
  head = some 0;
  vartable = [];
  blocktable = record { name = codes "r"; block_at = 1 } ∷ [];
  result = null;
}

abbrev part_head : Cells
part_head = numbered 0 (html_content (codes "H") ∷ [])

abbrev part_inside : Cells
part_inside = numbered 2 (html_content (codes "a") ∷ [])

part_page-Holds : Holds (part_head ++ part_cells (codes "r") 1 part_inside 3 []) part_page
unfolding insertion_sort put_sorted
part_page-Holds = record {
  stands =
      numbered-Stands part_page.mem.heap 0
        (html_content (codes "H")
          ∷ marked opening (codes "r")
          ∷ html_content (codes "a")
          ∷ marked closing (codes "r")
          ∷ [])
        (refl, (refl, (refl, (refl, tt))));
  starts = refl;
  variables = refl;
  parts = refl;
  room = omega arith;
  named = ((λ e. cc), ((λ e. (codes "r", refl)), ((λ e. cc), ((λ e. cc), tt))));
}

lset_block-Holds_example :
    (s' : Page) × (lset_block (codes "r") part_page ≡ some s')
    × Holds
        (part_head ++ ((4, copy_content (codes "a")) ∷ part_cells (codes "r") 1 part_inside 3 []))
        s'
    × (s'.result ≡ null)
unfolding c_string
lset_block-Holds_example =
    lset_block-Holds (codes "r") part_page part_head 1 part_inside 3 [] (omega arith) refl
      ((λ e. cc), refl, refl, tt) refl part_page-Holds

abbrev printed_page : Page
printed_page = record one_page { result = dangling }

one_page_run : lrender one_page ≡ some (codes "!", printed_page)
unfolding lrender render render_from past_block put_data append_data
one_page_run = refl

lrender-lrender_example : lrender printed_page ≡ none
lrender-lrender_example = lrender-lrender one_page printed_page b'!' [] one_page_run
