-- ===== src/Webpage/Copies.antt =====
-- The inner loop of `set_block` in lua-webpage.c on a linked list: copies of the blocks of a part,
-- in front of the part's BeginBlock.
use quick.Prelude.{
  append_assoc, ℕ, zero, suc, ◌+◌, ◌≤◌, ◌<◌, ◌≡◌, ◌≢◌, refl, sym, subst, ap, ◌∙◌, Bool, true, false,
  Option, none, some, List, [], ◌∷◌, ◌++◌, ◌==◌, arith, length, if◌then◌else◌, ◌>>=◌,
}
use quick.Webpage.Blocks.{
  Address, Kind, html, var, begin_block, end_block, Content, block, blank, Heap, write, Memory,
}
use quick.Webpage.Render.{ends_block}
use quick.Webpage.Edit.{copy_content, copy_bytes, gen_block, next_of, copy_step, copy_from}
use quick.Webpage.Chain.{
  Fresh, Stands, Cells, first, last, Chain, count, Distinct, write_other, count-append, Chain-frame,
  Chain-split,
}
use quick.Webpage.Insertion.{apart, link_before_lem}

-- The copy of a block with these bytes.
abbrev pub copied : Address → Option (List ℕ) → Cells
copied a none = []
copied a (some []) = []
copied a (some (x ∷ d)) = (a, copy_content (x ∷ d)) ∷ []

-- The copies of blocks, where the first free address is `a`.
abbrev pub copies : Address → Cells → Cells
copies a [] = []
copies a ((p, c) ∷ xs) = copied a c.data_bytes ++ copies (suc a) xs

-- No part begins or ends here, and no block is a copy.
abbrev pub Flat : List ℕ → Cells → Type 0
Flat n [] = Unit
Flat n ((p, c) ∷ xs) =
    (c.kind ≢ begin_block) × (ends_block c n ≡ false) × (c.alloc ≡ false) × Flat n xs

count-copied :
    (q a : Address) (d : Option (List ℕ)) → count q (copied a d) ≤ (if q == a then 1 else 0)
count-copied q a none = omega arith
count-copied q a (some []) = omega arith
count-copied q a (some (x ∷ d)) = omega arith

copy_bytes_lem :
    (h : Heap) (xs : Cells) (suiv : Address) (c : Content) (ys : Cells) (pst : Address)
    (d : Option (List ℕ))
    → Chain h none (xs ++ ((suiv, c) ∷ ys)) none
    → Distinct (xs ++ ((suiv, c) ∷ ys))
    → count pst (xs ++ ((suiv, c) ∷ ys)) ≡ 0
    → (g : Heap) × (copy_bytes d pst suiv h ≡ some g)
      × Chain g none (xs ++ (copied pst d ++ ((suiv, c) ∷ ys))) none
unfolding copy_bytes
copy_bytes_lem h xs suiv c ys pst none l distinct new = (h, refl, l)
copy_bytes_lem h xs suiv c ys pst (some []) l distinct new = (h, refl, l)
copy_bytes_lem h xs suiv c ys pst (some (x ∷ d)) l distinct new =
    link_before_lem h xs suiv c ys pst (x ∷ d) l distinct new

-- The list with the copy.
abbrev with_copy : Address → Content → Cells → Address → Content → Cells → Cells
with_copy a pc xs suiv c ys = xs ++ (copied a pc.data_bytes ++ ((suiv, c) ∷ ys))

gen_block_lem :
    (m : Memory) (xs : Cells) (suiv : Address) (c : Content) (ys : Cells) (p : Address)
    (prev next : Option Address) (pc : Content)
    → m.heap p ≡ some (block prev next pc)
    → Chain m.heap none (xs ++ ((suiv, c) ∷ ys)) none
    → Distinct (xs ++ ((suiv, c) ∷ ys))
    → Fresh m.fresh (xs ++ ((suiv, c) ∷ ys))
    → (g : Heap) × (gen_block p suiv m ≡ some (record { heap = g; fresh = suc m.fresh }))
      × Chain g none (with_copy m.fresh pc xs suiv c ys) none
unfolding gen_block
gen_block_lem m xs suiv c ys p prev next pc at l distinct new =
    let cell = some (block none none blank) in
    let (g, e, chain) =
      copy_bytes_lem (write m.heap m.fresh cell) xs suiv c ys m.fresh pc.data_bytes
        (Chain-frame m.heap (write m.heap m.fresh cell) none (xs ++ ((suiv, c) ∷ ys)) none
          (λ a some_at.
            write_other m.heap m.fresh cell a
              (apart a m.fresh (xs ++ ((suiv, c) ∷ ys)) some_at (new m.fresh (omega arith))))
          l)
        distinct (new m.fresh (omega arith)) in
    (g, rw (at, e) refl, chain)

with_copy-Distinct :
    (a : Address) (pc : Content) (xs : Cells) (suiv : Address) (c : Content) (ys : Cells)
    → Distinct (xs ++ ((suiv, c) ∷ ys))
    → Fresh a (xs ++ ((suiv, c) ∷ ys))
    → Distinct (with_copy a pc xs suiv c ys)
with_copy-Distinct a pc xs suiv c ys d new q = ground (
  arith,
  d q,
  new q,
  count-copied q a pc.data_bytes,
  count-append q xs ((suiv, c) ∷ ys),
  count-append q xs (copied a pc.data_bytes ++ ((suiv, c) ∷ ys)),
  count-append q (copied a pc.data_bytes) ((suiv, c) ∷ ys),
)

with_copy-Fresh :
    (a : Address) (pc : Content) (xs : Cells) (suiv : Address) (c : Content) (ys : Cells)
    → Fresh a (xs ++ ((suiv, c) ∷ ys))
    → Fresh (suc a) (with_copy a pc xs suiv c ys)
with_copy-Fresh a pc xs suiv c ys new q le = ground (
  arith,
  new q,
  count-copied q a pc.data_bytes,
  count-append q xs ((suiv, c) ∷ ys),
  count-append q xs (copied a pc.data_bytes ++ ((suiv, c) ∷ ys)),
  count-append q (copied a pc.data_bytes) ((suiv, c) ∷ ys),
)

-- The rounds that copy.
copy_step_lem :
    (fuel : ℕ) (begin p : Address) (prev next : Option Address) (k : Kind)
    (d name : Option (List ℕ)) (alloc : Bool) (m : Memory)
    → k ≢ begin_block
    → alloc ≡ false
    → copy_step fuel begin p
        (block prev next (record { kind = k; data_bytes = d; name = name; alloc = alloc }))
        m
      ≡ (gen_block p begin m >>= λ m1. next_of m1 (some p))
unfolding copy_step
copy_step_lem fuel begin p prev next html d name alloc m ne e = rw e refl
copy_step_lem fuel begin p prev next var d name alloc m ne e = rw e refl
copy_step_lem fuel begin p prev next end_block d name alloc m ne e = rw e refl
copy_step_lem fuel begin p prev next begin_block d name alloc m ne e = absurd (ne refl)

-- A block between BeginBlock and the end of the list, with its neighbours.
pub part_at :
    (h : Heap) (xs : Cells) (suiv : Address) (c : Content) (ys mid : Cells) (p : Address)
    (pc : Content) (rest : Cells)
    → ys ≡ mid ++ ((p, pc) ∷ rest)
    → Chain h none (xs ++ ((suiv, c) ∷ ys)) none
    → h p ≡ some (block (last mid (some suiv)) (first rest none) pc)
part_at h xs suiv c ys mid p pc rest e l =
    let behind = (Chain-split h none xs ((suiv, c) ∷ ys) none l).1 in
    let tail = subst (λ zs. Chain h (some suiv) zs none) e behind.1 in
    (Chain-split h (some suiv) mid ((p, pc) ∷ rest) none tail).1.0

-- One round: the next block is copied, and the loop goes on behind it.
copy_round :
    (fuel : ℕ) (n : List ℕ) (m : Memory) (xs : Cells) (suiv : Address) (c : Content)
    (ys mid : Cells) (p : Address) (pc : Content) (rest : Cells)
    → ys ≡ mid ++ ((p, pc) ∷ rest)
    → Flat n ((p, pc) ∷ [])
    → Chain m.heap none (xs ++ ((suiv, c) ∷ ys)) none
    → Distinct (xs ++ ((suiv, c) ∷ ys))
    → Fresh m.fresh (xs ++ ((suiv, c) ∷ ys))
    → (g : Heap) × (copy_from (suc fuel) n suiv (some p) m
        ≡ copy_from fuel n suiv (first rest none) (record { heap = g; fresh = suc m.fresh }))
      × Chain g none (with_copy m.fresh pc xs suiv c ys) none
unfolding copy_from
copy_round fuel n m xs suiv c ys mid p pc rest e (nb, ends, orig, u) l d new =
    let here = part_at m.heap xs suiv c ys mid p pc rest e l in
    let (g, made, chain) = gen_block_lem m xs suiv c ys p _ _ pc here l d new in
    let chain' : Chain g none ((xs ++ copied m.fresh pc.data_bytes) ++ ((suiv, c) ∷ ys)) none =
      subst (λ zs. Chain g none zs none)
        (sym (append_assoc xs (copied m.fresh pc.data_bytes) ((suiv, c) ∷ ys))) chain in
    let next = part_at g (xs ++ copied m.fresh pc.data_bytes) suiv c ys mid p pc rest e chain' in
    (
      g,
      rw
          (
            here,
            ends,
            copy_step_lem fuel suiv p (last mid (some suiv)) (first rest none) pc.kind pc.data_bytes
                pc.name pc.alloc m nb orig,
            made,
            next,
          )
          refl,
      chain,
    )

pub regroup : (xs cs ds ys : Cells) → (xs ++ cs) ++ (ds ++ ys) ≡ xs ++ ((cs ++ ds) ++ ys)
regroup xs cs ds ys =
    append_assoc xs cs (ds ++ ys) ∙ ap (λ zs. xs ++ zs) (sym (append_assoc cs ds ys))

-- The loop copies all blocks up to the end of the part.
pub copy_from_lem :
    (fuel : ℕ) (n : List ℕ) (m : Memory) (xs : Cells) (suiv : Address) (c : Content)
    (ys mid todo : Cells) (ep : Address) (ec : Content) (post : Cells)
    → ys ≡ mid ++ (todo ++ ((ep, ec) ∷ post))
    → Flat n todo
    → ends_block ec n ≡ true
    → length todo < fuel
    → Stands m.heap m.fresh (xs ++ ((suiv, c) ∷ ys))
    → (m' : Memory) × (copy_from fuel n suiv (first (todo ++ ((ep, ec) ∷ post)) none) m ≡ some m')
      × (m'.fresh ≡ m.fresh + length todo)
      × Stands m'.heap m'.fresh (xs ++ (copies m.fresh todo ++ ((suiv, c) ∷ ys)))
unfolding copy_from
copy_from_lem zero n m xs suiv c ys mid todo ep ec post e flat ends enough v = absurd (omega arith)
copy_from_lem (suc fuel) n m xs suiv c ys mid [] ep ec post e flat ends enough v =
    (m, rw (part_at m.heap xs suiv c ys mid ep ec post e v.0, ends) refl, omega arith, v)
copy_from_lem (suc fuel) n m xs suiv c ys mid ((p, pc) ∷ todo) ep ec post e flat ends enough v =
    let (nb, ne, orig, later) = flat in
    let cp = copied m.fresh pc.data_bytes in
    let (g, round, chain) =
      copy_round fuel n m xs suiv c ys mid p pc (todo ++ ((ep, ec) ∷ post)) e (nb, ne, orig, tt) v.0
        v.1 v.2 in
    let m1 : Memory = record { heap = g; fresh = suc m.fresh } in
    let v1 : Stands m1.heap m1.fresh ((xs ++ cp) ++ ((suiv, c) ∷ ys)) =
      subst (λ zs. Stands g (suc m.fresh) zs) (sym (append_assoc xs cp ((suiv, c) ∷ ys)))
        (
          chain,
          with_copy-Distinct m.fresh pc xs suiv c ys v.1 v.2,
          with_copy-Fresh m.fresh pc xs suiv c ys v.2,
        ) in
    let (m', rest, more, v') =
      copy_from_lem fuel n m1 (xs ++ cp) suiv c ys (mid ++ ((p, pc) ∷ [])) todo ep ec post
        (e ∙ sym (append_assoc mid ((p, pc) ∷ []) (todo ++ ((ep, ec) ∷ post)))) later ends
        (omega arith) v1 in
    (
      m',
      round ∙ rest,
      omega (arith, more),
      subst (λ zs. Stands m'.heap m'.fresh zs)
          (regroup xs cp (copies (suc m.fresh) todo) ((suiv, c) ∷ ys)) v',
    )
