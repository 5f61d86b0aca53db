-- ===== src/Webpage/Setting.antt =====
-- `set` of lua-webpage.c on a chain of blocks and its table of variables.
use quick.Webpage.Sorter.{hits-Permᴰ, All-Permᴰ, Sorter, qsort}
use quick.Prelude.{
  ℕ, ◌≤◌, ◌≡◌, refl, sym, subst, ap, ◌∙◌, Bool, true, false, ◌||◌, ◌&&◌, Option, none, some, List,
  [], ◌∷◌, ◌++◌, All, ◌==◌, if◌then◌else◌, arith, c_string,
}
use quick.Webpage.Blocks.{Address, Kind, html, var, begin_block, end_block, Content, block, Heap}
use quick.Webpage.Names.{find, entries_of, NamePtr, Table, same_name}
use quick.Webpage.Edit.{set}
use quick.Webpage.Chain.{Cells, first, Chain, Distinct, count, count_self, count_other}
use quick.Webpage.Template.{entries, entry_of}
use quick.Webpage.NameOrder.{named, named-append}
use quick.Webpage.FindAll.{find-qsort}
use quick.Webpage.Assigned.{
  is_target, given, assign, edited, hits, update, Allocated, set_entries_lem,
}

-- The table leads to the variables of the name.
abbrev AllHits : List ℕ → Table → Cells → Type 0
AllHits n es [] = Unit
AllHits n es ((p, c) ∷ xs) = (hits p es ≡ is_target n c.kind c.name) × AllHits n es xs

hits-append : (a : Address) (es fs : Table) → hits a (es ++ fs) ≡ (hits a es || hits a fs)
hits-append a [] fs = refl
hits-append a (e ∷ es) fs = ground (arith, hits-append a es fs)

AllHits-same :
    (n : List ℕ) (es fs : Table) (xs : Cells)
    → ((a : Address) → 1 ≤ count a xs → hits a fs ≡ hits a es)
    → AllHits n es xs
    → AllHits n fs xs
AllHits-same n es fs [] same all = tt
AllHits-same n es fs ((p, c) ∷ xs) same all = (
  same p (count_self p c xs) ∙ all.0,
  AllHits-same n es fs xs (λ a m. same a (omega (arith, count_other a p c xs))) all.1,
)

-- The entries of the name that one block makes.
own : List ℕ → Kind → Option (List ℕ) → Address → Table
own n k name p = named n (entry_of var k name p)

hits-own :
    (n : List ℕ) (k : Kind) (name : Option (List ℕ)) (p a : Address)
    → hits a (own n k name p) ≡ (is_target n k name && a == p)
unfolding own
hits-own n html name p a = refl
hits-own n begin_block name p a = refl
hits-own n end_block name p a = refl
hits-own n var none p a = refl
hits-own n var (some m) p a = ground arith

hits_cell :
    (n : List ℕ) (a p : Address) (c : Content) (xs : Cells)
    → hits a (named n (entries var ((p, c) ∷ xs)))
      ≡ (is_target n c.kind c.name && a == p || hits a (named n (entries var xs)))
unfolding own
hits_cell n a p c xs =
    ap (hits a) (named-append n (entry_of var c.kind c.name p) (entries var xs))
    ∙ hits-append a (own n c.kind c.name p) (named n (entries var xs))
    ∙ ap (λ x. x || hits a (named n (entries var xs))) (hits-own n c.kind c.name p a)

hits_none :
    (n : List ℕ) (a : Address) (xs : Cells)
    → count a xs ≡ 0
    → hits a (named n (entries var xs)) ≡ false
hits_none n a [] z = refl
hits_none n a ((p, c) ∷ xs) z =
    let apart : (a == p) ≡ false = ground arith in
    let rest : count a xs ≡ 0 = omega (arith, count_other a p c xs) in
    hits_cell n a p c xs ∙ rw (apart, hits_none n a xs rest) (neither (is_target n c.kind c.name))
  where
    neither : (t : Bool) → (t && false || false) ≡ false
    neither true = refl
    neither false = refl

entries-AllHits : (n : List ℕ) (xs : Cells) → Distinct xs → AllHits n (named n (entries var xs)) xs
entries-AllHits n [] d = tt
entries-AllHits n ((p, c) ∷ xs) d =
    let once : count p xs ≡ 0 = ground (arith, d p) in
    (
      hits_cell n p p c xs ∙ rw (self p, hits_none n p xs once) (only (is_target n c.kind c.name)),
      AllHits-same n (named n (entries var xs)) (named n (entries var ((p, c) ∷ xs))) xs
          (λ a m. hits_cell n a p c xs ∙ away a (hits a (named n (entries var xs))) (apart a m))
          (entries-AllHits n xs (λ a. omega (arith, d a, count_other a p c xs))),
    )
  where
    self : (p : Address) → (p == p) ≡ true
    self p = ground arith

    only : (t : Bool) → (t && true || false) ≡ t
    only true = refl
    only false = refl

    apart : (a : Address) → 1 ≤ count a xs → (a == p) ≡ false
    apart a m = ground (arith, d a)

    away :
        (a : Address) (x : Bool) → (a == p) ≡ false → (is_target n c.kind c.name && a == p || x) ≡ x
    away a x e = rw e (drop_false (is_target n c.kind c.name))
      where
        drop_false : (t : Bool) → (t && false || x) ≡ x
        drop_false true = refl
        drop_false false = refl

-- The links stay, and the contents are edited where the table leads to.
Chain-edited :
    (n val : List ℕ) (es : Table) (h g : Heap) (prev : Option Address) (xs : Cells)
    (next : Option Address)
    → ((a : Address) → g a ≡ (if hits a es then update val (h a) else h a))
    → AllHits n es xs
    → Chain h prev xs next
    → Chain g prev (edited (assign n val) xs) next
Chain-edited n val es h g prev [] next at all l = tt
Chain-edited n val es h g prev ((p, c) ∷ xs) next at all l = (
  at p ∙ rw (all.0, l.0) (pick (is_target n c.kind c.name) ∙ links),
  Chain-edited n val es h g (some p) xs next at all.1 l.1,
)
  where
    pick :
        (t : Bool)
        → (if t
            then some (block prev (first xs next) (given val c))
            else some (block prev (first xs next) c))
          ≡ some (block prev (first xs next) (if t then given val c else c))
    pick true = refl
    pick false = refl

    first-edited : (f : Content → Content) (ys : Cells) → first (edited f ys) next ≡ first ys next
    first-edited f [] = refl
    first-edited f ((q, d) ∷ ys) = refl

    links :
        some (block prev (first xs next) (assign n val c))
        ≡ some (block prev (first (edited (assign n val) xs) next) (assign n val c))
    links = ap (λ x. some (block prev x (assign n val c))) (sym (first-edited (assign n val) xs))

entries-Allocated :
    (n : List ℕ) (h : Heap) (prev : Option Address) (xs : Cells) (next : Option Address)
    → Chain h prev xs next
    → All (λ (e : NamePtr). Allocated h e.block_at) (named n (entries var xs))
entries-Allocated n h prev [] next l = tt
entries-Allocated n h prev ((p, c) ∷ xs) next l =
    subst (All (λ (e : NamePtr). Allocated h e.block_at))
      (sym (named-append n (entry_of var c.kind c.name p) (entries var xs)))
      (both (named n (entry_of var c.kind c.name p)) (named n (entries var xs))
        (one_entry c.kind c.name) (entries-Allocated n h (some p) xs next l.1))
  where
    both :
        (es fs : Table)
        → All (λ (e : NamePtr). Allocated h e.block_at) es
        → All (λ (e : NamePtr). Allocated h e.block_at) fs
        → All (λ (e : NamePtr). Allocated h e.block_at) (es ++ fs)
    both [] fs a b = b
    both (e ∷ es) fs a b = (a.0, both es fs a.1 b)

    picked :
        (m : List ℕ) (t : Bool)
        → All
            (λ (e : NamePtr). Allocated h e.block_at)
            (if t then record { name = m; block_at = p } ∷ [] else [])
    picked m true = ((block prev (first xs next) c, l.0), tt)
    picked m false = tt

    one_entry :
        (k : Kind) (name : Option (List ℕ))
        → All (λ (e : NamePtr). Allocated h e.block_at) (named n (entry_of var k name p))
    one_entry html name = tt
    one_entry begin_block name = tt
    one_entry end_block name = tt
    one_entry var none = tt
    one_entry var (some m) = picked m (same_name n m)

-- On a chain whose variables are in the table, `set` finds no fault, gives the value to every
-- variable of the name, and leaves links, other blocks and all memory outside the chain alone.
pub set_lem :
    ⦃sorter : Sorter⦄ (token val : List ℕ) (h : Heap) (xs : Cells)
    → Chain h none xs none
    → Distinct xs
    → (g : Heap) × (set (qsort (entries var xs)) token val h ≡ some g)
      × Chain g none (edited (assign (c_string token) (c_string val)) xs) none
      × ((a : Address) → count a xs ≡ 0 → g a ≡ h a)
unfolding set
set_lem token val h xs l d =
    let n = c_string token in
    let found_is = find-qsort n (entries var xs) in
    let es = entries_of (qsort (entries var xs)) (find n (qsort (entries var xs))) in
    let hit : (a : Address) → hits a es ≡ hits a (named n (entries var xs)) =
      λ a. hits-Permᴰ a found_is in
    let (g, found, at) = set_entries_lem es (c_string val) h (
      All-Permᴰ (λ (e : NamePtr). Allocated h e.block_at) found_is
        (entries-Allocated n h none xs none l)) in
    (
      g,
      found,
      Chain-edited n (c_string val) es h g none xs none at
          (AllHits-same n (named n (entries var xs)) es xs (λ a m. hit a) (entries-AllHits n xs d))
          l,
      λ a z.
          at a
          ∙ ap (λ t. if t then update (c_string val) (h a) else h a) (hit a ∙ hits_none n a xs z),
    )
