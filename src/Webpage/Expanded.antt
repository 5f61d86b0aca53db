-- ===== src/Webpage/Expanded.antt =====
-- From a template to the text that Lua gets, by the functions of lua-webpage.c one after the other.
use quick.Webpage.Sorter.{Sorter}
use quick.Prelude.{
  suc, ℕ, ◌≡◌, refl, sym, subst, ap, ap₂, ◌∙◌, Bool, true, false, Option, none, some, List, [], ◌∷◌,
  ◌++◌, map, if◌then◌else◌, c_string, ◌>>=◌, append-nil, Bool-cases, inl, inr,
}
use quick.Webpage.Blocks.{
  Address, Kind, html, var, begin_block, end_block, Content, html_content, var_content,
}
use quick.Webpage.Names.{same_name}
use quick.Webpage.Page.{Page, Loaded, crashed, hangs, missing, loaded, load, lset, lrender}
use quick.Webpage.Printing.{printed, bytes_of}
use quick.Webpage.Template.{
  Template, text, with_var, with_mark, opening, closing, source, WellFormed, contents_of, marked,
}
use quick.Webpage.Assigned.{edited, assign}
use quick.Webpage.Chain.{Cells, contents, numbered, contents-numbered}
use quick.Webpage.Session.{assigned, Holds, load-source, lset-Holds, lrender_lem}

-- The values of the names.
abbrev pub Values : Type 0
Values = List ℕ → Option (List ℕ)

-- The template with its variables filled in, and without what stands between the marks of a part;
-- inside a part its name is kept.
unfoldable pub expanded : Values → Option (List ℕ) → Template → List ℕ
expanded f none (text s) = s
expanded f (some part) (text s) = []
expanded f none (with_var s n t) = s ++ (bytes_of (f n) ++ expanded f none t)
expanded f (some part) (with_var s n t) = expanded f (some part) t
expanded f none (with_mark s opening n t) = s ++ expanded f (some n) t
expanded f none (with_mark s closing n t) = s ++ expanded f none t
expanded f (some part) (with_mark s opening n t) = expanded f (some part) t
expanded f (some part) (with_mark s closing n t) =
    if same_name n part then expanded f none t else expanded f (some part) t

-- A call of `set` for each pair.
unfoldable pub set_all : List (List ℕ × List ℕ) → Page → Option Page
set_all [] s = some s
set_all ((token, val) ∷ rest) s = do s' ← lset token val s; set_all rest s'

-- The values that the calls leave: of two with one name the later one counts.
abbrev pub values : List (List ℕ × List ℕ) → Values → Values
values [] f = f
values ((token, val) ∷ rest) f =
    values rest (λ n. if same_name (c_string token) n then some (c_string val) else f n)

abbrev pub session : List (List ℕ × List ℕ) → Loaded → Option (List ℕ × Page)
session calls crashed = none
session calls hangs = none
session calls (missing s) = none
session calls (loaded s) = do s' ← set_all calls s; lrender s'

-- The contents with the values in their variables.
unfoldable pub filled_kind : Values → Kind → Option (List ℕ) → Option (List ℕ) → Option (List ℕ)
filled_kind f html name d = d
filled_kind f var (some n) d = f n
filled_kind f var none d = d
filled_kind f begin_block name d = d
filled_kind f end_block name d = d

unfoldable pub filled : Values → Content → Content
filled f c = record c { data_bytes = filled_kind f c.kind c.name c.data_bytes }

assign-filled :
    (token val : List ℕ) (f : Values) (k : Kind) (d name : Option (List ℕ)) (a : Bool)
    → assign token val (filled f (record { kind = k; data_bytes = d; name = name; alloc = a }))
      ≡ filled
          (λ n. if same_name token n then some val else f n)
          (record { kind = k; data_bytes = d; name = name; alloc = a })
unfolding filled filled_kind
assign-filled token val f html d name a = refl
assign-filled token val f begin_block d name a = refl
assign-filled token val f end_block d name a = refl
assign-filled token val f var d none a = refl
assign-filled token val f var d (some n) a = pick (same_name token n)
  where
    pick :
        (t : Bool)
        → ◌≡◌ {A = Content}
            (if t
              then record { kind = var; data_bytes = some val; name = some n; alloc = a }
              else record { kind = var; data_bytes = f n; name = some n; alloc = a })
            (record {
              kind = var;
              data_bytes = if t then some val else f n;
              name = some n;
              alloc = a;
            })
    pick true = refl
    pick false = refl

assigned-filled :
    (token val : List ℕ) (f : Values) (xs : Cells)
    → assigned token val (edited (filled f) xs)
      ≡ edited (filled (λ n. if same_name token n then some val else f n)) xs
assigned-filled token val f [] = refl
assigned-filled token val f ((p, c) ∷ xs) =
    ap₂ (λ d ys. (p, d) ∷ ys) (assign-filled token val f c.kind c.data_bytes c.name c.alloc)
      (assigned-filled token val f xs)

pub set_all_lem :
    ⦃sorter : Sorter⦄ (calls : List (List ℕ × List ℕ)) (f : Values) (xs : Cells) (s : Page)
    → Holds (edited (filled f) xs) s
    → (s' : Page) × (set_all calls s ≡ some s')
      × Holds (edited (filled (values calls f)) xs) s'
      × (s'.result ≡ s.result)
unfolding set_all
set_all_lem [] f xs s v = (s, refl, v, refl)
set_all_lem ((token, val) ∷ rest) f xs s v =
    let (s1, e1, v1, r1) = lset-Holds token val (edited (filled f) xs) s v in
    let f1 : Values = λ n. if same_name (c_string token) n then some (c_string val) else f n in
    let (s2, e2, v2, r2) =
      set_all_lem rest f1 xs s1
        (subst (λ ys. Holds ys s1) (assigned-filled (c_string token) (c_string val) f xs) v1) in
    (s2, ap (λ o. o >>= set_all rest) e1 ∙ e2, v2, r2 ∙ r1)

pub contents-edited :
    (f : Content → Content) (xs : Cells) → contents (edited f xs) ≡ map f (contents xs)
contents-edited f [] = refl
contents-edited f ((p, c) ∷ xs) = ap (λ cs. f c ∷ cs) (contents-edited f xs)

edited-numbered :
    (f : Content → Content) (a : Address) (cs : List Content)
    → edited f (numbered a cs) ≡ numbered a (map f cs)
edited-numbered f a [] = refl
edited-numbered f a (c ∷ cs) = ap (λ xs. (a, f c) ∷ xs) (edited-numbered f (suc a) cs)

-- No value is set at first.
abbrev pub unset : Values
unset n = none

filled_unset : (t : Template) → map (filled unset) (contents_of t) ≡ contents_of t
unfolding filled filled_kind
filled_unset (text []) = refl
filled_unset (text (c ∷ s)) = refl
filled_unset (with_var s n t) = ap (λ cs. html_content s ∷ var_content n ∷ cs) (filled_unset t)
filled_unset (with_mark s opening n t) =
    ap (λ cs. html_content s ∷ marked opening n ∷ cs) (filled_unset t)
filled_unset (with_mark s closing n t) =
    ap (λ cs. html_content s ∷ marked closing n ∷ cs) (filled_unset t)

pub unset-edited :
    (a : Address) (t : Template)
    → edited (filled unset) (numbered a (contents_of t)) ≡ numbered a (contents_of t)
unset-edited a t =
    edited-numbered (filled unset) a (contents_of t) ∙ ap (numbered a) (filled_unset t)

printed_filled :
    (f : Values) (inside : Option (List ℕ)) (t : Template)
    → printed inside (map (filled f) (contents_of t)) ≡ expanded f inside t
unfolding printed expanded filled filled_kind
printed_filled f none (text []) = refl
printed_filled f none (text (c ∷ s)) = append-nil (c ∷ s)
printed_filled f (some part) (text []) = refl
printed_filled f (some part) (text (c ∷ s)) = refl
printed_filled f none (with_var s n t) =
    ap (λ x. s ++ (bytes_of (f n) ++ x)) (printed_filled f none t)
printed_filled f (some part) (with_var s n t) = printed_filled f (some part) t
printed_filled f none (with_mark s opening n t) = ap (λ x. s ++ x) (printed_filled f (some n) t)
printed_filled f none (with_mark s closing n t) = ap (λ x. s ++ x) (printed_filled f none t)
printed_filled f (some part) (with_mark s opening n t) = printed_filled f (some part) t
printed_filled f (some part) (with_mark s closing n t) = elim (Bool-cases (same_name n part)) [
  | inl e ↦ rw (e, printed) (printed_filled f none t)
  | inr e ↦ rw (e, printed) (printed_filled f (some part) t)
]

-- Loading the text of a well-formed template, any calls of `set`, and `render`: no step faults, and
-- Lua gets the template with the last value of each name in its variables, variables without a
-- value empty, and without what stands between a BeginBlock and the next EndBlock of its name.
pub session_lem :
    ⦃sorter : Sorter⦄ (t : Template) (calls : List (List ℕ × List ℕ)) (s : Page)
    → WellFormed t
    → (s' : Page) × (session calls (load (some (source t)) s)
        ≡ some (expanded (values calls (λ n. none)) none t, s'))
session_lem t calls s w =
    let xs = numbered s.mem.fresh (contents_of t) in
    let (s1, e1, v1, r1, below) = load-source t s w in
    let unfilled : edited (filled unset) xs ≡ xs = unset-edited s.mem.fresh t in
    let (s2, e2, v2, r2) =
      set_all_lem calls unset xs s1 (subst (λ ys. Holds ys s1) (sym unfilled) v1) in
    let f = values calls unset in
    let (s3, e3) = lrender_lem (edited (filled f) xs) s2 v2 (r2 ∙ r1) in
    let shown : contents (edited (filled f) xs) ≡ map (filled f) (contents_of t) =
      contents-edited (filled f) xs
      ∙ ap (map (filled f)) (contents-numbered s.mem.fresh (contents_of t)) in
    (
      s3,
      ap (session calls) e1
          ∙ ap (λ o. o >>= lrender) e2
          ∙ e3
          ∙ ap (λ cs. some (printed none cs, s3)) shown
          ∙ ap (λ x. some (x, s3)) (printed_filled f none t),
    )
