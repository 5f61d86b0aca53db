-- ===== src/Webpage/Filling.antt =====
-- What lua-webpage.c renders for a page whose part is filled in row after row.
use quick.Webpage.Sorter.{Sorter}
use quick.Prelude.{
  ℕ, ◌<◌, ◌≡◌, refl, sym, subst, ap, ◌∙◌, Option, none, some, List, [], ◌∷◌, ◌++◌, length, c_string,
  ◌>>=◌, append_assoc, append-nil,
}
use quick.Webpage.Blocks.{begin_block, Address}
use quick.Webpage.Page.{Page, lset_block}
use quick.Webpage.Chain.{Cells, contents}
use quick.Webpage.Assigned.{edited}
use quick.Webpage.NameOrder.{named}
use quick.Webpage.Copies.{copies, Flat, regroup}
use quick.Webpage.Parts.{Unopened, part_cells, lset_block-Holds}
use quick.Webpage.Session.{Holds}
use quick.Webpage.Expanded.{Values, values, filled, set_all, set_all_lem}
use quick.Webpage.Rows.{
  fill_rows, last_values, part_text, rows_text, Copy, copies-Copy, Copy-append, table, edited-table,
  Flat-filled, entries-filled, text_of, text_of-append, text_of-copies, front-Unopened,
  front_behind,
}

bind_assoc :
    {A B C : Type 0} (o : Option A) (k : A → Option B) (l : B → Option C)
    → (o >>= λ x. k x >>= l) ≡ ((o >>= k) >>= l)
bind_assoc none k l = refl
bind_assoc (some x) k l = refl

-- One row: the values go into the blocks, and the part is copied behind the copies there are.
row_lem :
    ⦃sorter : Sorter⦄ (name : List ℕ) (row : List (List ℕ × List ℕ)) (f : Values) (xs cs : Cells)
    (b : Address) (part : Cells) (e : Address) (post : Cells) (s : Page)
    → let n = c_string name in
      0 < length xs
      → Unopened n xs
      → Flat n part
      → Unopened n post
      → Copy cs
      → Holds (edited (filled f) (xs ++ (cs ++ part_cells n b part e post))) s
      → (s' : Page) × (ds : Cells) × ((set_all row s >>= lset_block name) ≡ some s')
        × Copy ds
        × (text_of ds ≡ text_of cs ++ part_text (values row f) (contents part))
        × Holds (edited (filled (values row f)) (xs ++ (ds ++ part_cells n b part e post))) s'
        × (s'.result ≡ s.result)
unfolding table
row_lem name row f xs cs b part e post s behind before flat after a v =
    let n = c_string name in
    let g = values row f in
    let (s1, e1, v1, r1) = set_all_lem row f (xs ++ (cs ++ part_cells n b part e post)) s v in
    let xs' = edited (filled g) xs in
    let part' = edited (filled g) part in
    let post' = edited (filled g) post in
    let zs = part_cells n b part' e post' in
    let v1' : Holds ((xs' ++ cs) ++ zs) s1 =
      subst (λ ys. Holds ys s1)
        (edited-table g xs cs n b part e post a ∙ sym (append_assoc xs' cs zs)) v1 in
    let (s2, e2, v2, r2) =
      lset_block-Holds name s1 (xs' ++ cs) b part' e post' (front_behind g xs cs behind)
        (front-Unopened n g xs cs before a) (Flat-filled n g part flat)
        (ap (named n) (entries-filled begin_block g post) ∙ after) v1' in
    let ds = cs ++ copies s1.mem.fresh part' in
    let c : Copy ds =
      Copy-append cs (copies s1.mem.fresh part') a (copies-Copy s1.mem.fresh part') in
    (
      s2,
      ds,
      ap (λ o. o >>= lset_block name) e1 ∙ e2,
      c,
      text_of-append cs (copies s1.mem.fresh part')
          ∙ ap (λ t. text_of cs ++ t) (text_of-copies g s1.mem.fresh part),
      subst (λ ys. Holds ys s2)
          (regroup xs' cs (copies s1.mem.fresh part') zs
            ∙ sym (edited-table g xs ds n b part e post c))
          v2,
      r2 ∙ r1,
    )

-- All rows: behind them stand copies that print the text of the rows.
pub fill_rows_lem :
    ⦃sorter : Sorter⦄ (name : List ℕ) (rows : List (List (List ℕ × List ℕ))) (f : Values)
    (xs cs : Cells) (b : Address) (part : Cells) (e : Address) (post : Cells) (s : Page)
    → let n = c_string name in
      0 < length xs
      → Unopened n xs
      → Flat n part
      → Unopened n post
      → Copy cs
      → Holds (edited (filled f) (xs ++ (cs ++ part_cells n b part e post))) s
      → (s' : Page) × (ds : Cells) × (fill_rows name rows s ≡ some s')
        × Copy ds
        × (text_of ds ≡ text_of cs ++ rows_text f (contents part) rows)
        × Holds (edited (filled (last_values rows f)) (xs ++ (ds ++ part_cells n b part e post))) s'
        × (s'.result ≡ s.result)
unfolding fill_rows
fill_rows_lem name [] f xs cs b part e post s behind before flat after a v =
    (s, cs, refl, a, sym (append-nil (text_of cs)), v, refl)
fill_rows_lem name (row ∷ rows) f xs cs b part e post s behind before flat after a v =
    let g = values row f in
    let (s1, cs1, e1, a1, t1, v1, r1) =
      row_lem name row f xs cs b part e post s behind before flat after a v in
    let (s2, ds, e2, a2, t2, v2, r2) =
      fill_rows_lem name rows g xs cs1 b part e post s1 behind before flat after a1 v1 in
    (
      s2,
      ds,
      bind_assoc (set_all row s) (lset_block name) (fill_rows name rows)
          ∙ ap (λ o. o >>= fill_rows name rows) e1
          ∙ e2,
      a2,
      t2
          ∙ ap (λ t. t ++ rows_text g (contents part) rows) t1
          ∙ append_assoc (text_of cs) (part_text g (contents part))
              (rows_text g (contents part) rows),
      v2,
      r2 ∙ r1,
    )
