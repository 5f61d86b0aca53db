-- ===== src/Webpage/Rendered.antt =====
-- From a template with a part to the text that Lua gets, with the part filled in row after row: the
-- functions of lua-webpage.c, called one after the other.
use quick.Webpage.Sorter.{Sorter}
use quick.Prelude.{
  ℕ, ◌<◌, ◌≡◌, sym, subst, ap, ap₂, ◌∙◌, Option, none, some, List, [], ◌++◌, length, map, c_string,
  ◌>>=◌,
}
use quick.Webpage.Blocks.{Address}
use quick.Webpage.Page.{Page, Loaded, crashed, hangs, missing, loaded, load, lrender}
use quick.Webpage.Chain.{Cells, contents, numbered}
use quick.Webpage.Printing.{printed}
use quick.Webpage.Template.{Template, source, WellFormed, contents_of}
use quick.Webpage.Assigned.{edited}
use quick.Webpage.Copies.{Flat}
use quick.Webpage.Parts.{Unopened, part_cells}
use quick.Webpage.Session.{Holds, load-source, lrender_lem}
use quick.Webpage.Expanded.{Values, filled, unset, unset-edited, contents-edited}
use quick.Webpage.Rows.{
  Flat-filled, fill_rows, last_values, rows_text, Copy, text_of, table, edited-table,
}
use quick.Webpage.Filling.{fill_rows_lem}
use quick.Webpage.Joined.{contents-append, inside_after, inside_after-filled, printed_around}

-- The text before the part and behind it, and the part for each row.
abbrev pub page_text : List (List (List ℕ × List ℕ)) → Values → Cells → Cells → Cells → List ℕ
page_text rows f xs part post =
    let g = last_values rows f in
    printed none (map (filled g) (contents xs))
    ++ (rows_text f (contents part) rows ++ printed none (map (filled g) (contents post)))

printed-table :
    (g : Values) (xs cs : Cells) (n : List ℕ) (b : Address) (part : Cells) (e : Address)
    (post : Cells)
    → inside_after none (contents xs) ≡ none
    → Copy cs
    → Flat n part
    → printed none (contents (edited (filled g) (xs ++ (cs ++ part_cells n b part e post))))
      ≡ printed none (map (filled g) (contents xs))
        ++ (text_of cs ++ printed none (map (filled g) (contents post)))
unfolding table
printed-table g xs cs n b part e post outside a flat =
    let X = edited (filled g) xs in
    let P = edited (filled g) part in
    let Q = edited (filled g) post in
    let before : contents X ≡ map (filled g) (contents xs) = contents-edited (filled g) xs in
    ap (λ ys. printed none (contents ys)) (edited-table g xs cs n b part e post a)
    ∙ ap (printed none) (contents-append X (cs ++ part_cells n b P e Q))
    ∙ printed_around (contents X) cs n b P e Q
        (ap (inside_after none) before ∙ inside_after-filled g none (contents xs) ∙ outside) a
        (Flat-filled n g part flat)
    ∙ ap₂ (λ s t. printed none s ++ (text_of cs ++ printed none t)) before
        (contents-edited (filled g) post)

abbrev pub row_session : List ℕ → List (List (List ℕ × List ℕ)) → Loaded → Option (List ℕ × Page)
row_session name rows crashed = none
row_session name rows hangs = none
row_session name rows (missing s) = none
row_session name rows (loaded s) = do s' ← fill_rows name rows s; lrender s'

-- Loading the text of a well-formed template whose blocks have one part of the name, for each row
-- any calls of `set` and one of `set_block`, and `render`: no step faults, and Lua gets the text in
-- front of the part, the part once for each row with the values set up to that row, and the text
-- behind the part, both of these with the last values. The part has no part inside, something
-- stands in front of it, and no other part is open there.
pub row_session_lem :
    ⦃sorter : Sorter⦄ (t : Template) (s : Page) (name : List ℕ)
    (rows : List (List (List ℕ × List ℕ))) (xs : Cells) (b : Address) (part : Cells) (e : Address)
    (post : Cells)
    → WellFormed t
    → numbered s.mem.fresh (contents_of t) ≡ xs ++ part_cells (c_string name) b part e post
    → 0 < length xs
    → Unopened (c_string name) xs
    → Flat (c_string name) part
    → Unopened (c_string name) post
    → inside_after none (contents xs) ≡ none
    → (s' : Page) × (row_session name rows (load (some (source t)) s)
        ≡ some (page_text rows (λ n. none) xs part post, s'))
unfolding Copy text_of
row_session_lem t s name rows xs b part e post w shape behind before flat after outside =
    let (s1, e1, v1, r1, below) = load-source t s w in
    let zs = xs ++ part_cells (c_string name) b part e post in
    let start : Holds (edited (filled unset) zs) s1 =
      subst (λ ys. Holds ys s1)
        (sym (unset-edited s.mem.fresh t) ∙ ap (edited (filled unset)) shape) v1 in
    let (s2, cs, e2, a, texts, v2, r2) =
      fill_rows_lem name rows unset xs [] b part e post s1 behind before flat after tt start in
    let g = last_values rows unset in
    let (s3, e3) =
      lrender_lem (edited (filled g) (xs ++ (cs ++ part_cells (c_string name) b part e post))) s2 v2
        (r2 ∙ r1) in
    (
      s3,
      ap (row_session name rows) e1
          ∙ ap (λ o. o >>= lrender) e2
          ∙ e3
          ∙ ap (λ x. some (x, s3))
              (printed-table g xs cs (c_string name) b part e post outside a flat
                ∙ ap
                    (λ x.
                      printed none (map (filled g) (contents xs))
                      ++ (x ++ printed none (map (filled g) (contents post))))
                    texts),
    )
