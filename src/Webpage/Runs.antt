-- ===== src/Webpage/Runs.antt =====
-- Runs of lua-webpage.c on small templates.
use quick.Webpage.InsertionSort.{insertion_sorter, insertion_sort, put_sorted}
use quick.Webpage.Sorter.{Sorter}
use quick.Prelude.{c_string, isspace, ℕ, ◌≡◌, refl, Option, none, some, List, [], codes, ◌>>=◌}
use quick.Webpage.Blocks.{write, set_suiv, set_content, set_prec, Memory}
use quick.Webpage.Names.{bsearch, bsearch_from, walk_down, count_named, strcmp, find}
use quick.Webpage.Parse.{
  parse_from, parse_step, parse_var, parse_comment, emit, read_name, read_word, skip_space,
  to_close, comment_kind, emit_comment, finish, at_var, at_comment, parse,
}
use quick.Webpage.Render.{render_from, past_block, put_data, append_data, skip_to, null, render}
use quick.Webpage.Edit.{
  release_from, set_entries, set_block, copy_entries, copy_from, copy_step, gen_block, copy_bytes,
  link_before, del_block, set,
}
use quick.Webpage.Page.{init, release, Page, Loaded, loaded, load, lset, lset_block, lrender}

-- A `qsort` for these runs.
instance abbrev by_insertion : Sorter
by_insertion = insertion_sorter

abbrev pub no_memory : Memory
no_memory = record { heap = λ a. none; fresh = 0 }

abbrev pub empty_page : Page
empty_page = record { mem = no_memory; head = none; vartable = []; blocktable = []; result = null }

abbrev page_of : Loaded → Option Page
page_of (loaded s) = some s
page_of _ = none

abbrev shown : List ℕ → (Page → Option Page) → Option (List ℕ)
shown template change = do
  s ← page_of (load (some template) empty_page)
  s' ← change s
  (out, s'') ← lrender s'
  some out

greeting_run :
    shown
      (codes "Hi ##who##, <!-- #BeginBlock x -->a<!-- #EndBlock x -->.")
      (lset (codes "who") (codes "Bo"))
    ≡ some (codes "Hi Bo, .")
unfolding load init release release_from parse parse_from parse_step parse_var parse_comment emit
    at_var at_comment read_name read_word skip_space to_close isspace comment_kind emit_comment
    finish strcmp c_string insertion_sort put_sorted write set_suiv set_content lrender render
    render_from past_block put_data append_data skip_to lset set set_entries find bsearch
    bsearch_from walk_down count_named
greeting_run = refl

-- The part is printed once for each call of `set_block`.
block_run :
    shown
      (codes "<!-- #BeginBlock x -->a<!-- #EndBlock x -->.")
      (λ s. do s' ← lset_block (codes "x") s; lset_block (codes "x") s')
    ≡ some (codes "aa.")
unfolding load init release release_from parse parse_from parse_step parse_var parse_comment emit
    at_var at_comment read_name read_word skip_space to_close isspace comment_kind emit_comment
    finish strcmp c_string insertion_sort put_sorted write set_suiv set_content lrender render
    render_from past_block put_data append_data skip_to lset_block set_block copy_entries copy_from
    copy_step gen_block copy_bytes link_before set_prec del_block find bsearch bsearch_from
    walk_down count_named
block_run = refl

-- A variable directly behind another is not seen: its name is text, and the `##` behind that opens
-- a variable without a name.
adjacent_run : shown (codes "##a####b##") (lset (codes "b") (codes "!")) ≡ some (codes "##b")
unfolding load init release release_from parse parse_from parse_step parse_var parse_comment emit
    at_var at_comment read_name read_word skip_space to_close isspace comment_kind emit_comment
    finish strcmp c_string insertion_sort put_sorted write set_suiv set_content lrender render
    render_from past_block put_data append_data skip_to lset set set_entries find bsearch
    bsearch_from walk_down count_named
adjacent_run = refl

-- A second `render` uses freed memory.
twice_run : shown (codes "a") (λ s. do (out, s') ← lrender s; some s') ≡ none
unfolding load init release release_from parse parse_from parse_step parse_var parse_comment emit
    at_var at_comment read_name read_word skip_space to_close isspace comment_kind emit_comment
    finish strcmp c_string insertion_sort put_sorted write set_suiv set_content lrender render
    render_from past_block put_data append_data skip_to
twice_run = refl
