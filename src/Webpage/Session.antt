-- ===== src/Webpage/Session.antt =====
-- The Lua functions of lua-webpage.c on whole pages: what a page holds after `load`, that `set`
-- keeps it, and what `render` pushes.
use quick.Webpage.Sorter.{Sorter, qsort}
use quick.Prelude.{
  ◌+◌, ◌==◌, ℕ, suc, ◌≤◌, ◌<◌, ◌≡◌, refl, sym, subst, ap, ap₂, ◌∙◌, Bool, true, false, none, some,
  List, [], ◌∷◌, ◌++◌, length, if◌then◌else◌, arith, c_string, ◌>>=◌,
}
use quick.Webpage.Blocks.{Address, Kind, var, begin_block, Content}
use quick.Webpage.Render.{null, dangling, render}
use quick.Webpage.Edit.{release_from}
use quick.Webpage.Page.{Page, init, release, loaded, load, lset, lrender, push_result}
use quick.Webpage.Chain.{count, contents, Cells, Stands, numbered-Stands, first, numbered}
use quick.Webpage.Printing.{printed, AllNamed, IsNamed, extend}
use quick.Webpage.Printed.{render_lem}
use quick.Webpage.Template.{
  Template, text, with_var, with_mark, opening, closing, source, WellFormed, contents_of,
  last_content, entries, entry_of,
}
use quick.Webpage.RoundTrip.{parse-source}
use quick.Webpage.Assigned.{is_target, given, assign, edited}
use quick.Webpage.Setting.{set_lem}

module _ ⦃sorter : Sorter⦄ where
  -- The page holds the blocks `xs`, in its list and in its tables.
  pub record Holds (xs : Cells) (s : Page) : Type 0 where
    pub stands : Stands s.mem.heap s.mem.fresh xs
    pub starts : s.head ≡ first xs none
    pub variables : s.vartable ≡ qsort (entries var xs)
    pub parts : s.blocktable ≡ qsort (entries begin_block xs)
    pub room : length xs ≤ s.mem.fresh
    pub named : AllNamed xs

length-numbered : (a : Address) (cs : List Content) → length (numbered a cs) ≡ length cs
length-numbered a [] = refl
length-numbered a (c ∷ cs) = ap suc (length-numbered (suc a) cs)

last-IsNamed : (s : List ℕ) → IsNamed (last_content s)
last-IsNamed [] e = cc
last-IsNamed (c ∷ s) e = cc

contents_of-AllNamed : (t : Template) (a : Address) → AllNamed (numbered a (contents_of t))
contents_of-AllNamed (text s) a = (last-IsNamed s, tt)
contents_of-AllNamed (with_var s n t) a =
    ((λ e. cc), ((λ e. cc), contents_of-AllNamed t (suc (suc a))))
contents_of-AllNamed (with_mark s opening n t) a =
    ((λ e. cc), ((λ e. (n, refl)), contents_of-AllNamed t (suc (suc a))))
contents_of-AllNamed (with_mark s closing n t) a =
    ((λ e. cc), ((λ e. cc), contents_of-AllNamed t (suc (suc a))))

module _ ⦃sorter : Sorter⦄ where
  -- `load` of the text of a well-formed template succeeds from any state, and the page holds the
  -- template's blocks; nothing has been printed. `release` has no block to free: each block of the
  -- page before is still allocated.
  pub load-source :
      (t : Template) (s : Page)
      → WellFormed t
      → (s' : Page) × (load (some (source t)) s ≡ loaded s')
        × Holds (numbered s.mem.fresh (contents_of t)) s'
        × (s'.result ≡ null)
        × ((a : Address) → a < s.mem.fresh → s'.mem.heap a ≡ s.mem.heap a)
  unfolding load init release release_from
  load-source t s w =
      let (q, e, back) = parse-source t s.mem w in
      (
        record {
          mem = q.mem;
          head = some s.mem.fresh;
          vartable = q.vartable;
          blocktable = q.blocktable;
          result = null;
        },
        rw e,
        record {
          stands =
              subst (λ f. Stands q.mem.heap f (numbered s.mem.fresh (contents_of t)))
                (sym back.next_fresh)
                (numbered-Stands q.mem.heap s.mem.fresh (contents_of t) back.chain);
          starts = starts t;
          variables = back.variables;
          parts = back.parts;
          room = omega (arith, back.next_fresh, length-numbered s.mem.fresh (contents_of t));
          named = contents_of-AllNamed t s.mem.fresh;
        },
        refl,
        back.below,
      )
    where
      starts : (t : Template) → some s.mem.fresh ≡ first (numbered s.mem.fresh (contents_of t)) none
      starts (text s) = refl
      starts (with_var s n t) = refl
      starts (with_mark s m n t) = refl

-- A value changes neither the kind of a block nor its name.
assign_keeps :
    (n val : List ℕ) (c : Content)
    → ((assign n val c).kind ≡ c.kind) × ((assign n val c).name ≡ c.name)
assign_keeps n val c = pick (is_target n c.kind c.name)
  where
    pick :
        (t : Bool)
        → ((if t then given val c else c).kind ≡ c.kind)
          × ((if t then given val c else c).name ≡ c.name)
    pick true = (refl, refl)
    pick false = (refl, refl)

-- The blocks of `xs` with the value in the variables of the name.
abbrev pub assigned : List ℕ → List ℕ → Cells → Cells
assigned n val xs = edited (assign n val) xs

entries-assigned :
    (k : Kind) (n val : List ℕ) (xs : Cells) → entries k (assigned n val xs) ≡ entries k xs
entries-assigned k n val [] = refl
entries-assigned k n val ((a, c) ∷ xs) =
    let (kinds, names) = assign_keeps n val c in
    ap₂ (λ x y. entry_of k x y a ++ entries k (assigned n val xs)) kinds names
    ∙ ap (λ es. entry_of k c.kind c.name a ++ es) (entries-assigned k n val xs)

assigned-AllNamed : (n val : List ℕ) (xs : Cells) → AllNamed xs → AllNamed (assigned n val xs)
assigned-AllNamed n val [] named = tt
assigned-AllNamed n val ((a, c) ∷ xs) named =
    let (kinds, names) = assign_keeps n val c in
    (
      (λ e. let (name, at) = named.0 (sym kinds ∙ e) in (name, names ∙ at)),
      assigned-AllNamed n val xs named.1,
    )

count-edited :
    (f : Content → Content) (a : Address) (xs : Cells) → count a (edited f xs) ≡ count a xs
count-edited f a [] = refl
count-edited f a ((p, c) ∷ xs) = ap (λ n. (if a == p then 1 else 0) + n) (count-edited f a xs)

length-edited : (f : Content → Content) (xs : Cells) → length (edited f xs) ≡ length xs
length-edited f [] = refl
length-edited f ((p, c) ∷ xs) = ap suc (length-edited f xs)

first-edited : (f : Content → Content) (xs : Cells) → first xs none ≡ first (edited f xs) none
first-edited f [] = refl
first-edited f ((p, c) ∷ xs) = refl

module _ ⦃sorter : Sorter⦄ where
  -- `set` never faults on a page that holds `xs`, and the page then holds `xs` with the value in the
  -- variables of the name; nothing is printed by it.
  pub lset-Holds :
      (token val : List ℕ) (xs : Cells) (s : Page)
      → Holds xs s
      → (s' : Page) × (lset token val s ≡ some s')
        × Holds (assigned (c_string token) (c_string val) xs) s'
        × (s'.result ≡ s.result)
  unfolding lset
  lset-Holds token val xs s v =
      let n = c_string token in
      let w = c_string val in
      let (chain, distinct, new) = v.stands in
      let (g, found, chain', outside) = set_lem token val s.mem.heap xs chain distinct in
      (
        record s { mem = record { heap = g; fresh = s.mem.fresh } },
        rw (v.variables, found),
        record {
          stands = (
            chain',
            (λ a. omega (arith, distinct a, count-edited (assign n w) a xs)),
            λ a le. omega (arith, new a le, count-edited (assign n w) a xs),
          );
          starts = v.starts ∙ first-edited (assign n w) xs;
          variables = v.variables ∙ ap qsort (sym (entries-assigned var n w xs));
          parts = v.parts ∙ ap qsort (sym (entries-assigned begin_block n w xs));
          room = omega (arith, v.room, length-edited (assign n w) xs);
          named = assigned-AllNamed n w xs v.named;
        },
        refl,
      )

  -- What `render` pushes, and the state behind it.
  pub lrender_lem :
      (xs : Cells) (s : Page)
      → Holds xs s
      → s.result ≡ null
      → (s' : Page) × (lrender s ≡ some (printed none (contents xs), s'))
  unfolding lrender
  lrender_lem xs s v e =
      let done = render_lem s.mem xs null v.stands.0 v.named v.room tt in
      let drawn = ap₂ (render s.mem) v.starts e ∙ done in
      let (s', pushed) = push (printed none (contents xs)) in
      (s', ap (λ o. o >>= push_result s) drawn ∙ pushed)
    where
      push : (t : List ℕ) → (s' : Page) × (push_result s (extend null t) ≡ some (t, s'))
      push [] = (record s { result = null }, refl)
      push (c ∷ t) = (record s { result = dangling }, refl)
