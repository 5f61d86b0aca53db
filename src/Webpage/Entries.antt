-- ===== src/Webpage/Entries.antt =====
-- The entries that the blocks of a template make in the tables of lua-webpage.c.
use quick.Prelude.{
  ℕ, suc, ◌+◌, ◌≡◌, refl, sym, ap, ◌∙◌, Option, some, List, [], ◌∷◌, ◌++◌, length, arith,
  length-append, append_assoc, append-nil,
}
use quick.Webpage.Blocks.{
  Address, Kind, html, var, begin_block, end_block, Content, blank, html_content,
}
use quick.Webpage.Chain.{Cells, numbered, numbered-append}
use quick.Webpage.Template.{Mark, opening, closing, mark_kind, last_content, entries, entry_of}

pub entries-append :
    (k : Kind) (xs ys : Cells) → entries k (xs ++ ys) ≡ entries k xs ++ entries k ys
entries-append k [] ys = refl
entries-append k ((p, c) ∷ xs) ys =
    ap (λ t. entry_of k c.kind c.name p ++ t) (entries-append k xs ys)
    ∙ sym (append_assoc (entry_of k c.kind c.name p) (entries k xs) (entries k ys))

pub entry_of_html : (k : Kind) (n : Option (List ℕ)) (p : Address) → entry_of k html n p ≡ []
entry_of_html html n p = refl
entry_of_html var n p = refl
entry_of_html begin_block n p = refl
entry_of_html end_block n p = refl

pub entries-numbered :
    (k : Kind) (base : Address) (cs : List Content) (c : Content)
    → entries k (numbered base (cs ++ (c ∷ [])))
      ≡ entries k (numbered base cs) ++ entry_of k c.kind c.name (base + length cs)
entries-numbered k base cs c =
    ap (entries k) (numbered-append base cs (c ∷ []))
    ∙ entries-append k (numbered base cs) ((base + length cs, c) ∷ [])
    ∙ ap (λ t. entries k (numbered base cs) ++ t)
        (append-nil (entry_of k c.kind c.name (base + length cs)))

-- Text makes no entry.
pub entries_text :
    (k : Kind) (base : Address) (cs : List Content) (c : Content)
    → c.kind ≡ html
    → entries k (numbered base (cs ++ (c ∷ []))) ≡ entries k (numbered base cs)
entries_text k base cs c e =
    entries-numbered k base cs c
    ∙ ap (λ t. entries k (numbered base cs) ++ t)
        (ap (λ x. entry_of k x c.name (base + length cs)) e
          ∙ entry_of_html k c.name (base + length cs))
    ∙ append-nil (entries k (numbered base cs))

pub entries_last :
    (k : Kind) (base : Address) (cs : List Content) (s : List ℕ)
    → entries k (numbered base (cs ++ (last_content s ∷ []))) ≡ entries k (numbered base cs)
entries_last k base cs [] = entries_text k base cs blank refl
entries_last k base cs (c ∷ s) = entries_text k base cs (html_content (c ∷ s)) refl

pub entries_piece :
    (k : Kind) (base : Address) (cs : List Content) (s : List ℕ) (c : Content) (p : Address)
    → p ≡ suc (base + length cs)
    → entries k (numbered base ((cs ++ (html_content s ∷ [])) ++ (c ∷ [])))
      ≡ entries k (numbered base cs) ++ entry_of k c.kind c.name p
entries_piece k base cs s c p e =
    let place : base + length (cs ++ (html_content s ∷ [])) ≡ p =
      omega (arith, length-append cs (html_content s ∷ [])) in
    entries-numbered k base (cs ++ (html_content s ∷ [])) c
    ∙ ap
        (λ a. entries k (numbered base (cs ++ (html_content s ∷ []))) ++ entry_of k c.kind c.name a)
        place
    ∙ ap (λ t. t ++ entry_of k c.kind c.name p) (entries_text k base cs (html_content s) refl)

pub mark_entry : (k : Mark) (n : List ℕ) (p : Address) → entry_of var (mark_kind k) (some n) p ≡ []
mark_entry opening n p = refl
mark_entry closing n p = refl
