-- ===== src/Webpage/Rows.antt =====
-- Rows of a table with lua-webpage.c: for each row, calls of `set` and one of `set_block`.
use quick.Prelude.{
  append-nil, ℕ, suc, ◌<◌, ◌≡◌, refl, sym, ap, ap₂, ◌∙◌, Option, none, some, List, [], ◌∷◌, ◌++◌,
  arith, length, ◌>>=◌, append_assoc,
}
use quick.Webpage.Blocks.{Address, Kind, begin_block, Content}
use quick.Webpage.Edit.{copy_content}
use quick.Webpage.Page.{Page, lset_block}
use quick.Webpage.Chain.{Cells, contents}
use quick.Webpage.NameOrder.{named, named-append}
use quick.Webpage.Entries.{entries-append}
use quick.Webpage.Printing.{bytes_of}
use quick.Webpage.Template.{entry_of, entries, opening, closing, marked}
use quick.Webpage.Assigned.{edited}
use quick.Webpage.Copies.{copied, copies, Flat}
use quick.Webpage.Parts.{Unopened, part_cells}
use quick.Webpage.Expanded.{filled_kind, Values, values, filled, set_all}

-- The calls for each row, in order.
unfoldable pub fill_rows : List ℕ → List (List (List ℕ × List ℕ)) → Page → Option Page
fill_rows name [] s = some s
fill_rows name (row ∷ rows) s = do
  s1 ← set_all row s
  s2 ← lset_block name s1
  fill_rows name rows s2

-- The values behind the last row; what one row leaves counts for the next.
abbrev pub last_values : List (List (List ℕ × List ℕ)) → Values → Values
last_values [] f = f
last_values (row ∷ rows) f = last_values rows (values row f)

-- What the blocks of a part print, side by side.
abbrev pub part_text : Values → List Content → List ℕ
part_text f [] = []
part_text f (c ∷ cs) = bytes_of (filled f c).data_bytes ++ part_text f cs

-- The part once for each row, with the row's values.
abbrev pub rows_text : Values → List Content → List (List (List ℕ × List ℕ)) → List ℕ
rows_text f part [] = []
rows_text f part (row ∷ rows) = part_text (values row f) part ++ rows_text (values row f) part rows

-- Texts that `edited` keeps.
unfoldable pub Copy : Cells → Type 0
Copy [] = Unit
Copy ((p, c) ∷ xs) = (d : List ℕ) × (c ≡ copy_content d) × Copy xs

pub copies-Copy : (a : Address) (xs : Cells) → Copy (copies a xs)
unfolding Copy
copies-Copy a [] = tt
copies-Copy a ((p, c) ∷ xs) = put c.data_bytes (copies-Copy (suc a) xs)
  where
    put : (d : Option (List ℕ)) → Copy (copies (suc a) xs) → Copy (copied a d ++ copies (suc a) xs)
    put none later = later
    put (some []) later = later
    put (some (x ∷ d)) later = (x ∷ d, refl, later)

pub Copy-append : (xs ys : Cells) → Copy xs → Copy ys → Copy (xs ++ ys)
unfolding Copy
Copy-append [] ys a b = b
Copy-append ((p, c) ∷ xs) ys (d, e, a) b = (d, e, Copy-append xs ys a b)

edited-append :
    (f : Content → Content) (xs ys : Cells) → edited f (xs ++ ys) ≡ edited f xs ++ edited f ys
edited-append f [] ys = refl
edited-append f ((p, c) ∷ xs) ys = ap (λ zs. (p, f c) ∷ zs) (edited-append f xs ys)

edited-Copy : (f : Values) (xs : Cells) → Copy xs → edited (filled f) xs ≡ xs
unfolding Copy filled filled_kind
edited-Copy f [] a = refl
edited-Copy f ((p, c) ∷ xs) (d, e, a) =
    ap₂ (λ x ys. (p, x) ∷ ys) (ap (filled f) e ∙ sym e) (edited-Copy f xs a)

-- The list of blocks with values and with the copies `cs` made so far.
unfoldable pub table : Values → Cells → Cells → List ℕ → Address → Cells → Address → Cells → Cells
table f xs cs n b part e post =
    edited (filled f) xs
    ++ (cs ++ part_cells n b (edited (filled f) part) e (edited (filled f) post))

pub edited-table :
    (f : Values) (xs cs : Cells) (n : List ℕ) (b : Address) (part : Cells) (e : Address)
    (post : Cells)
    → Copy cs
    → edited (filled f) (xs ++ (cs ++ part_cells n b part e post)) ≡ table f xs cs n b part e post
unfolding table filled filled_kind
edited-table f xs cs n b part e post a =
    edited-append (filled f) xs (cs ++ part_cells n b part e post)
    ∙ ap (λ zs. edited (filled f) xs ++ zs)
        (edited-append (filled f) cs (part_cells n b part e post)
          ∙ ap₂ (λ ys zs. ys ++ (b, marked opening n) ∷ zs) (edited-Copy f cs a)
              (edited-append (filled f) part ((e, marked closing n) ∷ post)))

-- Values change no name and no kind.
pub Flat-filled : (n : List ℕ) (f : Values) (xs : Cells) → Flat n xs → Flat n (edited (filled f) xs)
unfolding filled
Flat-filled n f [] flat = tt
Flat-filled n f ((p, c) ∷ xs) (nb, ends, orig, flat) = (nb, ends, orig, Flat-filled n f xs flat)

pub entries-filled :
    (k : Kind) (f : Values) (xs : Cells) → entries k (edited (filled f) xs) ≡ entries k xs
unfolding filled
entries-filled k f [] = refl
entries-filled k f ((p, c) ∷ xs) =
    ap (λ es. entry_of k c.kind c.name p ++ es) (entries-filled k f xs)

Copy-Unopened : (n : List ℕ) (xs : Cells) → Copy xs → Unopened n xs
unfolding Copy
Copy-Unopened n [] a = refl
Copy-Unopened n ((p, c) ∷ xs) (d, e, a) =
    ap (λ x. named n (entry_of begin_block x.kind x.name p ++ entries begin_block xs)) e
    ∙ Copy-Unopened n xs a

-- What blocks print, side by side.
unfoldable pub text_of : Cells → List ℕ
text_of [] = []
text_of ((p, c) ∷ xs) = bytes_of c.data_bytes ++ text_of xs

pub text_of-append : (xs ys : Cells) → text_of (xs ++ ys) ≡ text_of xs ++ text_of ys
unfolding text_of
text_of-append [] ys = refl
text_of-append ((p, c) ∷ xs) ys =
    ap (λ t. bytes_of c.data_bytes ++ t) (text_of-append xs ys)
    ∙ sym (append_assoc (bytes_of c.data_bytes) (text_of xs) (text_of ys))

text_of-copied : (a : Address) (d : Option (List ℕ)) → text_of (copied a d) ≡ bytes_of d
unfolding text_of
text_of-copied a none = refl
text_of-copied a (some []) = refl
text_of-copied a (some (x ∷ d)) = append-nil (x ∷ d)

pub text_of-copies :
    (f : Values) (a : Address) (xs : Cells)
    → text_of (copies a (edited (filled f) xs)) ≡ part_text f (contents xs)
unfolding text_of
text_of-copies f a [] = refl
text_of-copies f a ((p, c) ∷ xs) =
    text_of-append (copied a (filled f c).data_bytes) (copies (suc a) (edited (filled f) xs))
    ∙ ap₂ (λ s t. s ++ t) (text_of-copied a (filled f c).data_bytes) (text_of-copies f (suc a) xs)

pub front-Unopened :
    (n : List ℕ) (f : Values) (xs cs : Cells)
    → Unopened n xs
    → Copy cs
    → Unopened n (edited (filled f) xs ++ cs)
front-Unopened n f xs cs before a =
    ap (named n) (entries-append begin_block (edited (filled f) xs) cs)
    ∙ named-append n (entries begin_block (edited (filled f) xs)) (entries begin_block cs)
    ∙ ap₂ (λ es fs. es ++ fs) (ap (named n) (entries-filled begin_block f xs) ∙ before)
        (Copy-Unopened n cs a)

pub front_behind :
    (f : Values) (xs cs : Cells) → 0 < length xs → 0 < length (edited (filled f) xs ++ cs)
front_behind f [] cs lt = absurd (omega arith)
front_behind f ((p, c) ∷ xs) cs lt = omega arith
