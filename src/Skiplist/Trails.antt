-- ===== src/Skiplist/Trails.antt =====
-- What `update` and `rank` hold, and what no longer stands in a list.
use quick.Prelude.{
  ℕ, ◌<◌, ◌≡◌, ◌≢◌, refl, sym, subst, ap, ◌∙◌, Option, some, [], ◌∷◌, ◌++◌, length, append_assoc,
}
use quick.Skiplist.Nodes.{Address, Heap, max_level, get_level}
use quick.Skiplist.Search.{Trail}
use quick.Skiplist.Cells.{Cell, Cells, end_of, height_of, Low, Linked, info}
use quick.Skiplist.Apart.{Apart, Absent, Below, Distinct}
use quick.Skiplist.Walk.{Reached}
use quick.Skiplist.Splits.{last_unique, end_of-cell}
use quick.Skiplist.Linking.{OffTrail}

module _ {A : Type 0} (header : Address) (good : Cells A) (j : ℕ) (trail : Trail)
    (r : Reached header good j (trail j)) where
  pub reached_entry :
      (front rest : Cells A)
      → good ≡ front ++ rest
      → Low j rest
      → j < height_of max_level front
      → trail j ≡ some (end_of header front, length front)
  reached_entry front rest split low tall =
      let same =
        last_unique j max_level r.front r.rest front rest (sym r.split ∙ split) r.low low r.tall
          tall in
      r.entry_is ∙ ap (λ ys. some (end_of header ys, length ys)) same

  pub reached_off :
      (q : Address)
      → ((front rest : Cells A)
          → good ≡ front ++ rest
          → Low j rest
          → j < height_of max_level front
          → q ≢ end_of header front)
      → OffTrail trail j q
  reached_off q off u k entry same =
      let entries : ◌≡◌ {A = Option (Address × ℕ)} (some (u, k))
          (some (end_of header r.front, length r.front)) =
        sym entry ∙ r.entry_is in
      let pairs : ◌≡◌ {A = Address × ℕ} (u, k) (end_of header r.front, length r.front) = cc in
      off r.front r.rest r.split r.low r.tall (same ∙ ap (λ t. t.0) pairs)

module _ {A : Type 0} where
  Absent-remove :
      (a : Address) (xs ys : Cells A) (c : Cell A) → Absent a (xs ++ (c ∷ ys)) → Absent a (xs ++ ys)
  Absent-remove a [] ys c v = v.1
  Absent-remove a (e ∷ xs) ys c v = (v.0, Absent-remove a xs ys c v.1)

  Below-remove :
      (a : Address) (xs ys : Cells A) (c : Cell A) → Below a (xs ++ (c ∷ ys)) → Below a (xs ++ ys)
  Below-remove a [] ys c v = v.1
  Below-remove a (e ∷ xs) ys c v = (v.0, Below-remove a xs ys c v.1)

  pub Distinct-Absent : (a : Address) (xs : Cells A) → Distinct a xs → Absent a xs
  Distinct-Absent a [] v = tt
  Distinct-Absent a (c ∷ xs) v = (v.0, v.1)

  Absent-Distinct :
      (a : Address) (c : Cell A) (ys : Cells A) → Absent a ys → Distinct c.at ys → Distinct a ys
  Absent-Distinct a c [] v w = tt
  Absent-Distinct a c (e ∷ ys) v w = (v.0, v.1, w.2)

  Distinct-remove :
      (a : Address) (xs ys : Cells A) (c : Cell A)
      → Distinct a (xs ++ (c ∷ ys))
      → Distinct a (xs ++ ys)
  Distinct-remove a [] ys c v = Absent-Distinct a c ys v.1 v.2
  Distinct-remove a (e ∷ xs) ys c v =
      (v.0, Absent-remove a xs ys c v.1, Distinct-remove e.at xs ys c v.2)

  pub Apart-remove :
      (header fresh : Address) (xs ys : Cells A) (c : Cell A)
      → Apart header fresh (xs ++ (c ∷ ys))
      → Apart header fresh (xs ++ ys)
  Apart-remove header fresh xs ys c v = record {
    distinct = Distinct-remove header xs ys c v.distinct;
    low = v.low;
    below = Below-remove fresh xs ys c v.below;
  }

  Absent-middle :
      (a : Address) (xs ys : Cells A) (c : Cell A) → Absent a (xs ++ (c ∷ ys)) → c.at ≢ a
  Absent-middle a [] ys c v = v.0
  Absent-middle a (e ∷ xs) ys c v = Absent-middle a xs ys c v.1

  -- Once out, an entry does not stand in the list.
  pub removed-Absent :
      (a : Address) (xs ys : Cells A) (c : Cell A)
      → Distinct a (xs ++ (c ∷ ys))
      → (a ≢ c.at) × Absent c.at (xs ++ ys)
  removed-Absent a [] ys c v = ((λ e. v.0 (sym e)), Distinct-Absent c.at ys v.2)
  removed-Absent a (e ∷ xs) ys c v =
      let (ne, rest) = removed-Absent e.at xs ys c v.2 in
      let away = Absent-middle a xs ys c v.1 in ((λ e. away (sym e)), (ne, rest))

  end_of-away : (a x : Address) (d r : Cells A) → a ≢ x → Absent x (d ++ r) → end_of a d ≢ x
  end_of-away a x [] r ne v = ne
  end_of-away a x (c ∷ d) r ne v = end_of-away c.at x d r v.0 v.1

  -- A write to an address that does not stand in the list.
  pub Linked-elsewhere :
      (h g : Heap A) (header x n : ℕ) (xs : Cells A)
      → ((q : Address) → q ≢ x → g q ≡ h q)
      → header ≢ x
      → Absent x xs
      → Linked h header n xs
      → Linked g header n xs
  unfolding info get_level
  Linked-elsewhere h g header x n xs same ne absent v =
      let away : (d r : Cells A) → xs ≡ d ++ r → end_of header d ≢ x =
        λ d r split. end_of-away header x d r ne (subst (λ ys. Absent x ys) split absent) in
      let levels : (q : Address) (j : ℕ) → q ≢ x → get_level g q j ≡ get_level h q j =
        λ q j neq. rw (same q neq) refl in
      let infos : (q : Address) → q ≢ x → info g q ≡ info h q = λ q neq. rw (same q neq) refl in
      record {
        header_info = (v.header_info.0, infos header ne ∙ v.header_info.1);
        infos = λ d c r split.
            let there : c.at ≢ x =
              subst (λ q. q ≢ x) (end_of-cell header d c)
                (away (d ++ (c ∷ [])) r (split ∙ sym (append_assoc d (c ∷ []) r))) in
            infos c.at there ∙ v.infos d c r split;
        links = λ d r j split lt tall.
            levels (end_of header d) j (away d r split) ∙ v.links d r j split lt tall;
        spare = λ j le lt. let old = v.spare j le lt in (old.0, levels header j ne ∙ old.1);
        heights = v.heights;
        at_least = v.at_least;
        at_most = v.at_most;
      }
