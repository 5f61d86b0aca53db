-- ===== src/Webpage/Parts.antt =====
-- `set_block` of lua-webpage.c on whole pages.
use quick.Webpage.Sorter.{Permᴰ-single, Sorter, qsort}
use quick.Prelude.{
  length-append, ℕ, suc, ◌+◌, ◌≤◌, ◌<◌, ◌≡◌, ◌≢◌, refl, sym, ap, ap₂, ◌∙◌, Option, none, some, List,
  [], ◌∷◌, ◌++◌, arith, length, c_string,
}
use quick.Webpage.Blocks.{Address, Kind, html, var, begin_block, end_block, Memory}
use quick.Webpage.NameOrder.{named, named-append, strcmp_self}
use quick.Webpage.FindAll.{find-qsort}
use quick.Webpage.Edit.{set_block, copy_entries}
use quick.Webpage.Page.{Page, lset_block}
use quick.Webpage.Chain.{Chain-split, Cells, first, Stands}
use quick.Webpage.Printing.{AllNamed}
use quick.Webpage.Template.{opening, closing, marked, entries, entry_of}
use quick.Webpage.Entries.{entries-append}
use quick.Webpage.Copies.{copied, copies, Flat, copy_from_lem}
use quick.Webpage.Session.{Holds}

-- No part of this name begins here.
abbrev pub Unopened : List ℕ → Cells → Type 0
Unopened n xs = named n (entries begin_block xs) ≡ []

AllNamed-append : (xs ys : Cells) → AllNamed xs → AllNamed ys → AllNamed (xs ++ ys)
AllNamed-append [] ys a b = b
AllNamed-append ((p, c) ∷ xs) ys a b = (a.0, AllNamed-append xs ys a.1 b)

AllNamed-split : (xs ys : Cells) → AllNamed (xs ++ ys) → AllNamed xs × AllNamed ys
AllNamed-split [] ys a = (tt, a)
AllNamed-split ((p, c) ∷ xs) ys a = let (b, d) = AllNamed-split xs ys a.1 in ((a.0, b), d)

-- Copies are texts: in no table, with no name.
entries-copied : (k : Kind) (a : Address) (d : Option (List ℕ)) → entries k (copied a d) ≡ []
entries-copied k a none = refl
entries-copied k a (some []) = refl
entries-copied html a (some (x ∷ d)) = refl
entries-copied var a (some (x ∷ d)) = refl
entries-copied begin_block a (some (x ∷ d)) = refl
entries-copied end_block a (some (x ∷ d)) = refl

entries-copies : (k : Kind) (a : Address) (xs : Cells) → entries k (copies a xs) ≡ []
entries-copies k a [] = refl
entries-copies k a ((p, c) ∷ xs) =
    entries-append k (copied a c.data_bytes) (copies (suc a) xs)
    ∙ ap₂ (λ es fs. es ++ fs) (entries-copied k a c.data_bytes) (entries-copies k (suc a) xs)

copied-AllNamed : (a : Address) (d : Option (List ℕ)) → AllNamed (copied a d)
copied-AllNamed a none = tt
copied-AllNamed a (some []) = tt
copied-AllNamed a (some (x ∷ d)) = ((λ e. cc), tt)

copies-AllNamed : (a : Address) (xs : Cells) → AllNamed (copies a xs)
copies-AllNamed a [] = tt
copies-AllNamed a ((p, c) ∷ xs) =
    AllNamed-append (copied a c.data_bytes) (copies (suc a) xs) (copied-AllNamed a c.data_bytes)
      (copies-AllNamed (suc a) xs)

length-copied : (a : Address) (d : Option (List ℕ)) → length (copied a d) ≤ 1
length-copied a none = omega arith
length-copied a (some []) = omega arith
length-copied a (some (x ∷ d)) = omega arith

Flat-Unopened : (n : List ℕ) (xs : Cells) → Flat n xs → Unopened n xs
Flat-Unopened n [] flat = refl
Flat-Unopened n ((p, c) ∷ xs) flat =
    ap (λ es. named n (es ++ entries begin_block xs)) (none_of c.kind c.name flat.0)
    ∙ Flat-Unopened n xs flat.3
  where
    none_of :
        (k : Kind) (name : Option (List ℕ)) → k ≢ begin_block → entry_of begin_block k name p ≡ []
    none_of html name ne = refl
    none_of var name ne = refl
    none_of end_block name ne = refl
    none_of begin_block name ne = absurd (ne refl)

-- The blocks of a part, from its BeginBlock on.
abbrev pub part_cells : List ℕ → Address → Cells → Address → Cells → Cells
part_cells n b part e post = (b, marked opening n) ∷ (part ++ ((e, marked closing n) ∷ post))

-- The table holds the one BeginBlock.
named-part :
    (n : List ℕ) (xs : Cells) (b : Address) (part : Cells) (e : Address) (post : Cells)
    → Unopened n xs
    → Flat n part
    → Unopened n post
    → named n (entries begin_block (xs ++ part_cells n b part e post))
      ≡ record { name = n; block_at = b } ∷ []
named-part n xs b part e post before flat after =
    let tail : Unopened n (part ++ ((e, marked closing n) ∷ post)) =
      ap (named n) (entries-append begin_block part ((e, marked closing n) ∷ post))
      ∙ named-append n (entries begin_block part) (entries begin_block post)
      ∙ ap₂ (λ es fs. es ++ fs) (Flat-Unopened n part flat) after in
    ap (named n) (entries-append begin_block xs (part_cells n b part e post))
    ∙ named-append n (entries begin_block xs) (entries begin_block (part_cells n b part e post))
    ∙ ap (λ es. es ++ named n (entries begin_block (part_cells n b part e post))) before
    ∙ rw (strcmp_self n) (ap (λ es. record { name = n; block_at = b } ∷ es) tail)

module _ ⦃sorter : Sorter⦄ where
  -- Where the part starts, its copies are put in.
  set_block_lem :
      (name : List ℕ) (m : Memory) (xs : Cells) (b : Address) (part : Cells) (e : Address)
      (post : Cells)
      → let n = c_string name in
        let zs = part_cells n b part e post in
        Unopened n xs
        → Flat n part
        → Unopened n post
        → length part < m.fresh
        → Stands m.heap m.fresh (xs ++ zs)
        → (m' : Memory) × (set_block (qsort (entries begin_block (xs ++ zs))) name m ≡ some m')
          × (m'.fresh ≡ m.fresh + length part)
          × Stands m'.heap m'.fresh (xs ++ (copies m.fresh part ++ zs))
  unfolding set_block copy_entries
  set_block_lem name m xs b part e post before flat after enough v =
      let n = c_string name in
      let ys = part ++ ((e, marked closing n) ∷ post) in
      let (m', copying, more, v') =
        copy_from_lem m.fresh n m xs b (marked opening n) ys [] part e (marked closing n) post refl
          flat (rw (strcmp_self n) refl) enough v in
      let begin = (Chain-split m.heap none xs (part_cells n b part e post) none v.0).1.0 in
      (
        m',
        rw
            (
              Permᴰ-single (record { name = n; block_at = b })
                  (find-qsort n (entries begin_block (xs ++ part_cells n b part e post)))
                  (named-part n xs b part e post before flat after),
              begin,
              copying,
            )
            refl,
        more,
        v',
      )

first_kept : (xs ys zs : Cells) → 0 < length xs → first (xs ++ ys) none ≡ first (xs ++ zs) none
first_kept [] ys zs lt = absurd (omega arith)
first_kept (x ∷ xs) ys zs lt = refl

entries-with_copies :
    (k : Kind) (xs : Cells) (a : Address) (part zs : Cells)
    → entries k (xs ++ (copies a part ++ zs)) ≡ entries k (xs ++ zs)
entries-with_copies k xs a part zs =
    entries-append k xs (copies a part ++ zs)
    ∙ ap (λ es. entries k xs ++ es)
        (entries-append k (copies a part) zs
          ∙ ap (λ es. es ++ entries k zs) (entries-copies k a part))
    ∙ sym (entries-append k xs zs)

length-copies : (a : Address) (xs : Cells) → length (copies a xs) ≤ length xs
length-copies a [] = omega arith
length-copies a ((p, c) ∷ xs) = omega (
  arith,
  length-append (copied a c.data_bytes) (copies (suc a) xs),
  length-copied a c.data_bytes,
  length-copies (suc a) xs,
)

-- `set_block` never faults on a page that holds one part of the name, behind a text and with no
-- parts or copies inside. The page then holds a copy, in front of the BeginBlock, of each block of
-- the part that has bytes, in order; the copies are texts with the bytes of that moment. The
-- addresses are the first free ones, and nothing is printed by it.
pub lset_block-Holds :
    ⦃sorter : Sorter⦄ (name : List ℕ) (s : Page) (xs : Cells) (b : Address) (part : Cells)
    (e : Address) (post : Cells)
    → let n = c_string name in
      let zs = part_cells n b part e post in
      0 < length xs
      → Unopened n xs
      → Flat n part
      → Unopened n post
      → Holds (xs ++ zs) s
      → (s' : Page) × (lset_block name s ≡ some s')
        × Holds (xs ++ (copies s.mem.fresh part ++ zs)) s'
        × (s'.result ≡ s.result)
unfolding lset_block
lset_block-Holds name s xs b part e post behind before flat after v =
    let zs = part_cells (c_string name) b part e post in
    let size : length (xs ++ zs) ≡ length xs + suc (length part + suc (length post)) = omega (
      arith,
      length-append xs zs,
      length-append part ((e, marked closing (c_string name)) ∷ post),
    ) in
    let room : length xs + (length part + 2) ≤ s.mem.fresh = omega (arith, size, v.room) in
    let (m', done, more, v') =
      set_block_lem name s.mem xs b part e post before flat after (omega (arith, room)) v.stands in
    let (named_xs, named_zs) = AllNamed-split xs zs v.named in
    (
      record s { mem = m' },
      rw (v.parts, done) refl,
      record {
        stands = v';
        starts = v.starts ∙ first_kept xs zs (copies s.mem.fresh part ++ zs) behind;
        variables = v.variables ∙ ap qsort (sym (entries-with_copies var xs s.mem.fresh part zs));
        parts = v.parts ∙ ap qsort (sym (entries-with_copies begin_block xs s.mem.fresh part zs));
        room = omega (
          arith,
          more,
          v.room,
          size,
          length-append xs (copies s.mem.fresh part ++ zs),
          length-append (copies s.mem.fresh part) zs,
          length-copies s.mem.fresh part,
          length-append part ((e, marked closing (c_string name)) ∷ post),
        );
        named = AllNamed-append xs (copies s.mem.fresh part ++ zs) named_xs (
            AllNamed-append (copies s.mem.fresh part) zs (copies-AllNamed s.mem.fresh part)
              named_zs);
      },
      refl,
    )
