-- ===== src/Webpage/Insertion.antt =====
-- `gen_block` of lua-webpage.c on a linked list: the copy goes in front of the block it is given.
use quick.Prelude.{
  ℕ, ◌+◌, ◌≤◌, ◌≡◌, ◌≢◌, refl, sym, ap, ◌∙◌, Option, none, some, List, [], ◌∷◌, ◌++◌, arith,
}
use quick.Webpage.Blocks.{Address, Content, block, Heap, write, set_suiv, set_prec}
use quick.Webpage.Edit.{copy_content, link_prec, link_before}
use quick.Webpage.Chain.{
  Cells, first, last, Chain, count, Distinct, write_self, write_other, count_self, count_other,
  count-append, Chain-frame, Chain-append, Chain-split,
}

-- A block of a list, with its neighbours.
pub Chain-at :
    (h : Heap) (xs ys : Cells) (p : Address) (c : Content) (next : Option Address)
    → Chain h none (xs ++ ((p, c) ∷ ys)) next
    → h p ≡ some (block (last xs none) (first ys next) c)
Chain-at h xs ys p c next l = (Chain-split h none xs ((p, c) ∷ ys) next l).1.0

-- Apart from `p`, and where nothing stands, nothing changes.
set_suiv_lem :
    (h : Heap) (p : Address) (prev next q : Option Address) (c : Content)
    → h p ≡ some (block prev next c)
    → set_suiv p q h ≡ some (write h p (some (block prev q c)))
unfolding set_suiv
set_suiv_lem h p prev next q c at = rw at refl

set_prec_lem :
    (h : Heap) (p : Address) (prev next q : Option Address) (c : Content)
    → h p ≡ some (block prev next c)
    → set_prec p q h ≡ some (write h p (some (block q next c)))
unfolding set_prec
set_prec_lem h p prev next q c at = rw at refl

pub head_once : (p : Address) (c : Content) (xs : Cells) → Distinct ((p, c) ∷ xs) → count p xs ≡ 0
head_once p c xs d = ground (arith, d p)

-- The last block of a list gets a new follower.
relink :
    (h : Heap) (prev : Option Address) (p : Address) (c : Content) (xs : Cells)
    (next : Option Address) (q : Address)
    → Chain h prev ((p, c) ∷ xs) next
    → Distinct ((p, c) ∷ xs)
    → (g : Heap) × (link_prec (last ((p, c) ∷ xs) prev) q h ≡ some g)
      × Chain g prev ((p, c) ∷ xs) (some q)
      × ((a : Address) → count a ((p, c) ∷ xs) ≡ 0 → g a ≡ h a)
relink h prev p c [] next q l d =
    let g = write h p (some (block prev (some q) c)) in
    (
      g,
      set_suiv_lem h p prev next (some q) c l.0,
      (write_self h p (some (block prev (some q) c)), tt),
      λ a out. write_other h p (some (block prev (some q) c)) a (ground arith),
    )
relink h prev p c ((p2, c2) ∷ xs) next q l d =
    let (g, e, chain, outside) =
      relink h (some p) p2 c2 xs next q l.1
        (λ a. omega (arith, d a, count_other a p c ((p2, c2) ∷ xs))) in
    let lone : count p ((p2, c2) ∷ xs) ≡ 0 = head_once p c ((p2, c2) ∷ xs) d in
    (
      g,
      e,
      (outside p lone ∙ l.0, chain),
      λ a out. outside a (omega (arith, out, count_other a p c ((p2, c2) ∷ xs))),
    )

-- A list that may be empty.
relink_any :
    (h : Heap) (xs : Cells) (next : Option Address) (q : Address)
    → Chain h none xs next
    → Distinct xs
    → (g : Heap) × (link_prec (last xs none) q h ≡ some g)
      × Chain g none xs (some q)
      × ((a : Address) → count a xs ≡ 0 → g a ≡ h a)
relink_any h [] next q l d = (h, refl, tt, λ a out. refl)
relink_any h ((p, c) ∷ xs) next q l d = relink h none p c xs next q l d

pub apart : (a b : Address) (xs : Cells) → 1 ≤ count a xs → count b xs ≡ 0 → a ≢ b
apart a b xs some_at out e = omega (arith, ap (λ x. count x xs) e)

-- Two lists that share no block, without `pst`.
record Apart (xs ys : Cells) (pst : Address) : Type 0 where
  front_distinct : Distinct xs
  behind_distinct : Distinct ys
  no_overlap : (a : Address) → 1 ≤ count a ys → count a xs ≡ 0
  not_front : count pst xs ≡ 0
  not_behind : count pst ys ≡ 0

parts-Apart :
    (xs ys : Cells) (pst : Address)
    → Distinct (xs ++ ys)
    → count pst (xs ++ ys) ≡ 0
    → Apart xs ys pst
parts-Apart xs ys pst d new =
    let both : (a : Address) → count a xs + count a ys ≤ 1 =
      λ a. omega (arith, d a, count-append a xs ys) in
    record {
      front_distinct = λ a. omega (arith, both a);
      behind_distinct = λ a. omega (arith, both a);
      no_overlap = λ a some_at. omega (arith, both a);
      not_front = omega (arith, count-append pst xs ys);
      not_behind = omega (arith, count-append pst xs ys);
    }

-- The new block goes between the blocks before `suiv` and `suiv`.
pub link_before_lem :
    (h : Heap) (xs : Cells) (suiv : Address) (c : Content) (ys : Cells) (pst : Address) (d : List ℕ)
    → Chain h none (xs ++ ((suiv, c) ∷ ys)) none
    → Distinct (xs ++ ((suiv, c) ∷ ys))
    → count pst (xs ++ ((suiv, c) ∷ ys)) ≡ 0
    → (g : Heap) × (link_before pst d suiv h ≡ some g)
      × Chain g none (xs ++ ((pst, copy_content d) ∷ (suiv, c) ∷ ys)) none
unfolding link_before
link_before_lem h xs suiv c ys pst d l distinct new =
    let (front, behind) = Chain-split h none xs ((suiv, c) ∷ ys) none l in
    let ap' = parts-Apart xs ((suiv, c) ∷ ys) pst distinct new in
    let suiv_at : 1 ≤ count suiv ((suiv, c) ∷ ys) = count_self suiv c ys in
    let not_pst : suiv ≢ pst = apart suiv pst ((suiv, c) ∷ ys) suiv_at ap'.not_behind in
    let no_suiv : count suiv xs ≡ 0 = ap'.no_overlap suiv suiv_at in
    let copy = some (block (last xs none) none (copy_content d)) in
    let h0 = write h pst copy in
    let front0 : Chain h0 none xs (some suiv) =
      Chain-frame h h0 none xs (some suiv)
        (λ a at. write_other h pst copy a (apart a pst xs at ap'.not_front)) front in
    let (h1, e1, front1, out1) = relink_any h0 xs (some suiv) pst front0 ap'.front_distinct in
    let linked = some (block (last xs none) (some suiv) (copy_content d)) in
    let h2 = write h1 pst linked in
    let e2 : set_suiv pst (some suiv) h1 ≡ some h2 =
      set_suiv_lem h1 pst (last xs none) none (some suiv) (copy_content d)
        (out1 pst ap'.not_front ∙ write_self h pst copy) in
    let moved = some (block (some pst) (first ys none) c) in
    let h3 = write h2 suiv moved in
    let e3 : set_prec suiv (some pst) h2 ≡ some h3 =
      set_prec_lem h2 suiv (last xs none) (first ys none) (some pst) c (
        write_other h1 pst linked suiv not_pst
        ∙ out1 suiv no_suiv
        ∙ write_other h pst copy suiv not_pst
        ∙ behind.0) in
    let later : (a : Address) → a ≢ suiv → a ≢ pst → h3 a ≡ h1 a =
      λ a n m. write_other h2 suiv moved a n ∙ write_other h1 pst linked a m in
    (
      h3,
      rw (behind.0, e1, e2) e3,
      Chain-append h3 none xs ((pst, copy_content d) ∷ (suiv, c) ∷ ys) none
          (Chain-frame h1 h3 none xs (some pst)
            (λ a at. later a (apart a suiv xs at no_suiv) (apart a pst xs at ap'.not_front)) front1)
          (
            write_other h2 suiv moved pst (λ e. not_pst (sym e)) ∙ write_self h1 pst linked,
            (
              write_self h2 suiv moved,
              Chain-frame h h3 (some suiv) ys none
                  (λ a at.
                    let in_back : 1 ≤ count a ((suiv, c) ∷ ys) =
                      omega (arith, at, count_other a suiv c ys) in
                    let m : a ≢ pst = apart a pst ((suiv, c) ∷ ys) in_back ap'.not_behind in
                    later a (apart a suiv ys at (head_once suiv c ys ap'.behind_distinct)) m
                    ∙ out1 a (ap'.no_overlap a in_back)
                    ∙ write_other h pst copy a m)
                  behind.1,
            ),
          ),
    )
