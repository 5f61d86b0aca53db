-- ===== src/Webpage/Skipping.antt =====
-- The search of `render` in lua-webpage.c for the end of a part.
use quick.Prelude.{
  ℕ, zero, suc, ◌≤◌, ◌<◌, ◌≡◌, refl, inl, inr, true, false, Option, none, some, List, [], ◌∷◌,
  length, arith, Bool-cases,
}
use quick.Webpage.Blocks.{Address, Content, Heap}
use quick.Webpage.Render.{ends_block, skip_to}
use quick.Webpage.Chain.{Cells, first, Chain, contents}
use quick.Webpage.Printing.{printed, AllNamed}

-- The block at which a search for the end of a part stops, and what stands behind it.
pub record Found (h : Heap) (name : List ℕ) (xs : Cells) (q : Address) : Type 0 where
  pub prev : Option Address
  pub content : Content
  pub rest : Cells
  pub linked : Chain h prev ((q, content) ∷ rest) none
  pub ends : ends_block content name ≡ true
  pub same : printed (some name) (contents xs) ≡ printed none (contents rest)
  pub named : AllNamed rest
  pub shorter : length rest < length xs

abbrev pub Skipped : Heap → List ℕ → Cells → Option Address → Type 0
Skipped h name xs none = printed (some name) (contents xs) ≡ []
Skipped h name xs (some q) = Found h name xs q

pub skip_to_lem :
    (fuel : ℕ) (h : Heap) (name : List ℕ) (prev : Option Address) (xs : Cells)
    → Chain h prev xs none
    → AllNamed xs
    → length xs ≤ fuel
    → (at : Option Address) × (skip_to fuel h name (first xs none) ≡ some at) × Skipped h name xs at
unfolding skip_to printed
skip_to_lem zero h name prev [] l named enough = (none, refl, refl)
skip_to_lem (suc fuel) h name prev [] l named enough = (none, refl, refl)
skip_to_lem zero h name prev ((p, c) ∷ xs) l named enough = absurd (omega arith)
skip_to_lem (suc fuel) h name prev ((p, c) ∷ xs) l named enough =
    elim (Bool-cases (ends_block c name)) [
      | inl e ↦ (
        some p,
        rw (l.0, e, skip_to),
        record {
          prev = prev;
          content = c;
          rest = xs;
          linked = l;
          ends = e;
          same = rw (e, printed);
          named = named.1;
          shorter = omega arith;
        },
      )
      | inr e ↦
          let (at, found, skipped) =
            skip_to_lem fuel h name (some p) xs l.1 named.1 (omega arith) in
          (at, rw (l.0, e, skip_to) found, longer at e skipped)
    ]
  where
    longer :
        (at : Option Address)
        → ends_block c name ≡ false
        → Skipped h name xs at
        → Skipped h name ((p, c) ∷ xs) at
    longer none e s = rw (e, printed) s
    longer (some q) e s = record {
      prev = s.prev;
      content = s.content;
      rest = s.rest;
      linked = s.linked;
      ends = s.ends;
      same = rw (e, printed) s.same;
      named = s.named;
      shorter = omega (arith, s.shorter);
    }
