-- ===== src/Skiplist/State.antt =====
-- A list of skiplist.c that holds given entries in their order, and `slCreate`.
use quick.Prelude.{
  suc, ℕ, ◌<◌, ◌^◌, ◌≡◌, refl, sym, ap, ◌∙◌, none, some, [], ◌∷◌, ◌++◌, length, length-append,
  arith,
}
use quick.Skiplist.Objects.{Scores}
use quick.Skiplist.Nodes.{
  Garbage, create_node, write, Address, level, Heap, SkipList, max_level, get_level, create,
}
use quick.Skiplist.Memory.{clear_levels_lem, set_backward-runs, levels-create, info-create}
use quick.Skiplist.Cells.{info, Cells, prev_of, Linked}
use quick.Skiplist.Apart.{Apart}

pub record Represents {A : Type 0} (s : SkipList A) (xs : Cells A) : Type 0 where
  pub linked : Linked s.heap s.header s.level xs
  pub apart : Apart s.header s.fresh xs
  pub count : s.length ≡ length xs
  pub last : s.tail ≡ prev_of xs
  pub small : length xs < 2 ^ 32

module _ {A : Type 0} where
  empty_front : (d r : Cells A) → [] ≡ d ++ r → (d ≡ []) × (r ≡ [])
  empty_front [] r split = (refl, sym split)
  empty_front (c ∷ d) r split = absurd (omega (arith, ap length split))

module _ {A : Type 0} ⦃o : Scores A⦄ (h : Heap A) (fresh : Address)
    (memory : Address → Garbage) where
  pub record Created : Type 0 where
    pub after : SkipList A
    pub runs : create h fresh memory ≡ some after
    pub represents : Represents after []

  -- The loop over the levels and the store of `backward` leave nothing of what memory held.
  pub create_lem : Created
  unfolding create
  create_lem =
      let raw = memory fresh in
      let node = create_node raw max_level o.zero_score none in
      let w = write h fresh (some node) in
      let c = clear_levels_lem w fresh max_level 0 (λ i le lt. (
        raw.level_at i,
        levels-create h fresh raw max_level o.zero_score none fresh i (omega arith) ∙ ground arith,
      )) in
      let held : info c.after fresh ≡ some (none, o.zero_score, raw.backward, max_level) =
        c.infos_same fresh
        ∙ info-create h fresh raw max_level o.zero_score none fresh
        ∙ ground arith in
      let b = set_backward-runs c.after fresh none raw.backward none o.zero_score max_level held in
      let header_level : (i : ℕ) → i < max_level → get_level b.after fresh i ≡ some (level none 0) =
        λ i lt. b.levels_same fresh i ∙ c.clear i (omega arith) (omega arith) in
      record {
        after = record {
          heap = b.after;
          fresh = suc fresh;
          header = fresh;
          tail = none;
          length = 0;
          level = 1;
          memory = memory;
        };
        runs = rw (c.runs, b.runs) refl;
        represents = record {
          linked = record {
            header_info = (o.zero_score, b.infos_are fresh ∙ ground arith);
            infos =
                λ d c' r split. absurd (omega (arith, ap length split, length-append d (c' ∷ r)));
            links = λ d r i split lt tall.
                let (none_front, none_rest) = empty_front d r split in
                rw (none_front, none_rest) (header_level i (omega arith) ∙ refl);
            spare = λ i le lt. (0, header_level i lt);
            heights = tt;
            at_least = omega arith;
            at_most = omega arith;
          };
          apart = record { distinct = tt; low = omega arith; below = tt };
          count = refl;
          last = refl;
          small = omega arith;
        };
      }
