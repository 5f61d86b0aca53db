-- ===== src/Webpage/Build.antt =====
-- How `parse` of lua-webpage.c builds the list of blocks: each block is finished while the next one,
-- still empty, is linked behind it.
use quick.Webpage.Sorter.{Sorter, qsort}
use quick.Prelude.{
  ℕ, suc, ◌+◌, ◌<◌, ◌≡◌, refl, sym, subst, ap, ◌∙◌, Option, none, some, List, [], ◌∷◌, ◌++◌, length,
  arith, length-append,
}
use quick.Webpage.Blocks.{
  Address, Content, block, blank, html_content, Heap, write, Memory, set_suiv, set_content,
}
use quick.Webpage.Names.{Table}
use quick.Webpage.Parse.{Parser, emit, finish}
use quick.Webpage.Chain.{
  Cells, last, Chain, numbered, write_self, write_other, Chain-frame, Chain-append, numbered-append,
  count-numbered_range,
}
use quick.Webpage.Template.{last_content}

-- `cs` are finished, at addresses from `base` on, and `pst` is the empty block behind them; below
-- `base` the memory is as it was in `h0`.
pub record Open (h0 : Heap) (base : Address) (cs : List Content) (m : Memory) (pst : Address)
    : Type 0 where
  pub chain : Chain m.heap none (numbered base cs) (some pst)
  pub here : m.heap pst ≡ some (block (last (numbered base cs) none) none blank)
  pub place : pst ≡ base + length cs
  pub next_fresh : m.fresh ≡ suc pst
  pub below : (a : Address) → a < base → m.heap a ≡ h0 a

-- `c` in the block under construction, and a new one behind it.
abbrev pub grown : Memory → Address → Option Address → Content → Memory
grown m pst prev c = record {
  heap =
      write (write m.heap m.fresh (some (block (some pst) none blank))) pst
        (some (block prev (some m.fresh) c));
  fresh = suc m.fresh;
}

module _ (h0 : Heap) (base : Address) (cs : List Content) (m : Memory) (pst : Address)
    (v : Open h0 base cs m pst) where
  pub emit_lem :
      (c : Content) (offset pos : List ℕ) (vars blocks : Table)
      → emit c (record {
        mem = m;
        pst = pst;
        offset = offset;
        pos = pos;
        vartable = vars;
        blocktable = blocks;
      })
        ≡ some (record {
          mem = grown m pst (last (numbered base cs) none) c;
          pst = m.fresh;
          offset = offset;
          pos = pos;
          vartable = vars;
          blocktable = blocks;
        })
  unfolding emit
  emit_lem c offset pos vars blocks = rw (v.here)

  -- The finished blocks are not at `pst` nor behind it.
  kept :
      (g : Heap)
      → ((a : Address) → a < pst → g a ≡ m.heap a)
      → Chain g none (numbered base cs) (some pst)
  kept g same =
      Chain-frame m.heap g none (numbered base cs) (some pst)
        (λ a in_it. same a (omega (arith, v.place, count-numbered_range a base cs in_it))) v.chain

  grown_below :
      (c : Content) (prev : Option Address) (a : Address)
      → a < pst
      → (grown m pst prev c).heap a ≡ m.heap a
  grown_below c prev a lt =
      write_other _ pst _ a (omega arith) ∙ write_other _ m.fresh _ a (omega (arith, v.next_fresh))

  pub emit-Open :
      (c : Content)
      → Open h0 base (cs ++ (c ∷ [])) (grown m pst (last (numbered base cs) none) c) m.fresh
  emit-Open c = record {
    chain =
        subst (λ xs. Chain g none xs (some m.fresh)) (sym numbers)
          (Chain-append g none (numbered base cs) ((pst, c) ∷ []) (some m.fresh)
            (kept g (grown_below c (last (numbered base cs) none))) (write_self _ pst _, tt));
    here =
        write_other _ pst _ m.fresh (omega (arith, v.next_fresh))
        ∙ write_self m.heap m.fresh _
        ∙ ap (λ p. some (block p none blank)) (sym ends);
    place = omega (arith, v.place, v.next_fresh, length-append cs (c ∷ []));
    next_fresh = refl;
    below = λ a lt.
        grown_below c (last (numbered base cs) none) a (omega (arith, v.place)) ∙ v.below a lt;
  }
    where
      g : Heap
      g = (grown m pst (last (numbered base cs) none) c).heap

      numbers : numbered base (cs ++ (c ∷ [])) ≡ numbered base cs ++ ((pst, c) ∷ [])
      numbers =
          numbered-append base cs (c ∷ [])
          ∙ ap (λ a. numbered base cs ++ ((a, c) ∷ [])) (sym v.place)

      last-append : (xs : Cells) (p : Option Address) → last (xs ++ ((pst, c) ∷ [])) p ≡ some pst
      last-append [] p = refl
      last-append ((q, d) ∷ xs) p = last-append xs (some q)

      ends : last (numbered base (cs ++ (c ∷ []))) none ≡ some pst
      ends = ap (λ xs. last xs none) numbers ∙ last-append (numbered base cs) none

  -- The list with the block under construction as its last.
  closed :
      (c : Content) (g : Heap)
      → g pst ≡ some (block (last (numbered base cs) none) none c)
      → ((a : Address) → a < pst → g a ≡ m.heap a)
      → Chain g none (numbered base (cs ++ (c ∷ []))) none
  closed c g here same =
      subst (λ xs. Chain g none xs none)
        (sym (
          numbered-append base cs (c ∷ [])
          ∙ ap (λ a. numbered base cs ++ ((a, c) ∷ [])) (sym v.place)))
        (Chain-append g none (numbered base cs) ((pst, c) ∷ []) none (kept g same) (here, tt))

  pub finish_lem :
      ⦃sorter : Sorter⦄ (offset pos : List ℕ) (vars blocks : Table)
      → (q : Parser) × (finish (record {
        mem = m;
        pst = pst;
        offset = offset;
        pos = pos;
        vartable = vars;
        blocktable = blocks;
      })
          ≡ some q)
        × (q.vartable ≡ qsort vars)
        × (q.blocktable ≡ qsort blocks)
        × (q.mem.fresh ≡ m.fresh)
        × Chain q.mem.heap none (numbered base (cs ++ (last_content offset ∷ []))) none
        × ((a : Address) → a < base → q.mem.heap a ≡ h0 a)
  unfolding finish set_suiv set_content
  finish_lem [] pos vars blocks =
      (_, refl, refl, refl, refl, closed blank m.heap v.here (λ a lt. refl), v.below)
  finish_lem (c ∷ s) pos vars blocks = (
    record {
      mem = record { heap = g; fresh = m.fresh };
      pst = pst;
      offset = c ∷ s;
      pos = pos;
      vartable = qsort vars;
      blocktable = qsort blocks;
    },
    rw (v.here, write_self m.heap pst (some (block (last (numbered base cs) none) none blank))),
    refl,
    refl,
    refl,
    closed (html_content (c ∷ s)) g (write_self _ pst _) below_pst,
    λ a lt. below_pst a (omega (arith, v.place)) ∙ v.below a lt,
  )
    where
      g : Heap
      g =
          write (write m.heap pst (some (block (last (numbered base cs) none) none blank))) pst
            (some (block (last (numbered base cs) none) none (html_content (c ∷ s))))

      below_pst : (a : Address) → a < pst → g a ≡ m.heap a
      below_pst a lt =
          write_other _ pst _ a (omega arith) ∙ write_other m.heap pst _ a (omega arith)
