-- ===== src/Webpage/Joined.antt =====
-- What lists of blocks print one after the other, said without the memory of lua-webpage.c.
use quick.Prelude.{
  ℕ, ◌≡◌, refl, sym, ap, ◌∙◌, Bool, true, false, Option, none, some, List, [], ◌∷◌, ◌++◌, map,
  append_assoc, Bool-cases, inl, inr,
}
use quick.Webpage.Blocks.{Address, Kind, html, var, begin_block, end_block, Content}
use quick.Webpage.Render.{ends_block}
use quick.Webpage.Chain.{Cells, contents}
use quick.Webpage.Printing.{printed, bytes_of}
use quick.Webpage.NameOrder.{strcmp_self}
use quick.Webpage.Template.{closing, marked}
use quick.Webpage.Parts.{part_cells}
use quick.Webpage.Copies.{Flat}
use quick.Webpage.Expanded.{Values, filled}
use quick.Webpage.Rows.{Copy, text_of}

-- The part that contents end in, if they start inside `inside` or outside.
unfoldable pub inside_after : Option (List ℕ) → List Content → Option (List ℕ)
inside_after inside [] = inside
inside_after (some name) (c ∷ cs) = elim (ends_block c name) [
  | true ↦ inside_after none cs
  | false ↦ inside_after (some name) cs
]
inside_after none (c ∷ cs) = elim (c.kind) [
  | html ↦ inside_after none cs
  | var ↦ inside_after none cs
  | begin_block ↦ inside_after c.name cs
  | end_block ↦ inside_after none cs
]

filled_one :
    (f : Values) (inside : Option (List ℕ)) (k : Kind) (d name : Option (List ℕ)) (a : Bool)
    (cs : List Content)
    → ((i : Option (List ℕ)) → inside_after i (map (filled f) cs) ≡ inside_after i cs)
    → let c : Content = record { kind = k; data_bytes = d; name = name; alloc = a } in
      inside_after inside (map (filled f) (c ∷ cs)) ≡ inside_after inside (c ∷ cs)
unfolding inside_after filled
filled_one f none html d name a cs rec = rec none
filled_one f none var d name a cs rec = rec none
filled_one f none begin_block d name a cs rec = rec name
filled_one f none end_block d name a cs rec = rec none
filled_one f (some n) k d name a cs rec =
    elim (Bool-cases (ends_block (record { kind = k; data_bytes = d; name = name; alloc = a }) n)) [
      | inl e ↦ rw (e, inside_after) (rec none)
      | inr e ↦ rw (e, inside_after) (rec (some n))
    ]

pub inside_after-filled :
    (f : Values) (inside : Option (List ℕ)) (cs : List Content)
    → inside_after inside (map (filled f) cs) ≡ inside_after inside cs
unfolding inside_after
inside_after-filled f none [] = refl
inside_after-filled f (some n) [] = refl
inside_after-filled f inside (c ∷ cs) =
    filled_one f inside c.kind c.data_bytes c.name c.alloc cs (λ i. inside_after-filled f i cs)

-- Both parts of a list print on their own, the second from where the first ends.
append_one :
    (inside : Option (List ℕ)) (k : Kind) (d name : Option (List ℕ)) (a : Bool)
    (cs ds : List Content)
    → ((i : Option (List ℕ))
        → printed i (cs ++ ds) ≡ printed i cs ++ printed (inside_after i cs) ds)
    → let c : Content = record { kind = k; data_bytes = d; name = name; alloc = a } in
      printed inside (c ∷ (cs ++ ds))
      ≡ printed inside (c ∷ cs) ++ printed (inside_after inside (c ∷ cs)) ds
unfolding inside_after printed
append_one none html d name a cs ds rec =
    ap (λ t. bytes_of d ++ t) (rec none)
    ∙ sym (append_assoc (bytes_of d) (printed none cs) (printed (inside_after none cs) ds))
append_one none var d name a cs ds rec =
    ap (λ t. bytes_of d ++ t) (rec none)
    ∙ sym (append_assoc (bytes_of d) (printed none cs) (printed (inside_after none cs) ds))
append_one none begin_block d name a cs ds rec = rec name
append_one none end_block d name a cs ds rec = rec none
append_one (some n) k d name a cs ds rec =
    elim (Bool-cases (ends_block (record { kind = k; data_bytes = d; name = name; alloc = a }) n)) [
      | inl e ↦ rw (e, printed, inside_after) (rec none)
      | inr e ↦ rw (e, printed, inside_after) (rec (some n))
    ]

pub printed-append :
    (inside : Option (List ℕ)) (cs ds : List Content)
    → printed inside (cs ++ ds) ≡ printed inside cs ++ printed (inside_after inside cs) ds
unfolding printed inside_after
printed-append none [] ds = refl
printed-append (some n) [] ds = refl
printed-append inside (c ∷ cs) ds =
    append_one inside c.kind c.data_bytes c.name c.alloc cs ds (λ i. printed-append i cs ds)

pub contents-append : (xs ys : Cells) → contents (xs ++ ys) ≡ contents xs ++ contents ys
contents-append [] ys = refl
contents-append ((p, c) ∷ xs) ys = ap (λ cs. c ∷ cs) (contents-append xs ys)

-- Copies print their texts.
pub printed-Copy :
    (cs : Cells) (ds : List Content)
    → Copy cs
    → printed none (contents cs ++ ds) ≡ text_of cs ++ printed none ds
unfolding printed Copy text_of
printed-Copy [] ds a = refl
printed-Copy ((p, c) ∷ xs) ds (d, e, a) =
    ap (λ x. printed none (x ∷ (contents xs ++ ds))) e
    ∙ ap (λ t. d ++ t) (printed-Copy xs ds a)
    ∙ sym (append_assoc d (text_of xs) (printed none ds))
    ∙ ap (λ x. (bytes_of x.data_bytes ++ text_of xs) ++ printed none ds) (sym e)

-- Nothing of a part is printed.
pub printed-Flat :
    (n : List ℕ) (xs : Cells) (ds : List Content)
    → Flat n xs
    → printed (some n) (contents xs ++ ds) ≡ printed (some n) ds
unfolding printed
printed-Flat n [] ds flat = refl
printed-Flat n ((p, c) ∷ xs) ds flat = rw (flat.1, printed) (printed-Flat n xs ds flat.3)

-- A page prints what stands before a part, the copies, and what stands behind the part.
pub printed_around :
    (before : List Content) (cs : Cells) (n : List ℕ) (b : Address) (part : Cells) (e : Address)
    (post : Cells)
    → inside_after none before ≡ none
    → Copy cs
    → Flat n part
    → printed none (before ++ contents (cs ++ part_cells n b part e post))
      ≡ printed none before ++ (text_of cs ++ printed none (contents post))
unfolding printed
printed_around before cs n b part e post outside a flat =
    let ds = contents (part_cells n b part e post) in
    let inner : printed (some n) (contents (part ++ ((e, marked closing n) ∷ post)))
        ≡ printed none (contents post) =
      ap (printed (some n)) (contents-append part ((e, marked closing n) ∷ post))
      ∙ printed-Flat n part (marked closing n ∷ contents post) flat
      ∙ rw (strcmp_self n, printed) refl in
    ap (λ xs. printed none (before ++ xs)) (contents-append cs (part_cells n b part e post))
    ∙ printed-append none before (contents cs ++ ds)
    ∙ ap (λ i. printed none before ++ printed i (contents cs ++ ds)) outside
    ∙ ap (λ t. printed none before ++ t) (printed-Copy cs ds a ∙ ap (λ t. text_of cs ++ t) inner)
