-- ===== src/Skiplist/Apart.antt =====
-- The addresses of a list of skiplist.c: no node stands twice, and all stand below the next address
-- that memory gives.
use quick.Prelude.{subst, suc, ◌<◌, ◌≡◌, ◌≢◌, refl, sym, ap, ◌∙◌, [], ◌∷◌, ◌++◌, length, arith}
use quick.Skiplist.Nodes.{Address}
use quick.Skiplist.Cells.{Cell, Cells, end_of}

module _ {A : Type 0} where
  -- `a` is not in `xs`.
  abbrev pub Absent : Address → Cells A → Type 0
  Absent a [] = Unit
  Absent a (c ∷ cs) = (c.at ≢ a) × Absent a cs

  abbrev pub Below : Address → Cells A → Type 0
  Below a [] = Unit
  Below a (c ∷ cs) = (c.at < a) × Below a cs

  abbrev pub Distinct : Address → Cells A → Type 0
  Distinct a [] = Unit
  Distinct a (c ∷ cs) = (c.at ≢ a) × Absent a cs × Distinct c.at cs

  pub record Apart (header fresh : Address) (xs : Cells A) : Type 0 where
    pub distinct : Distinct header xs
    pub low : header < fresh
    pub below : Below fresh xs

  pub Absent-append :
      (a : Address) (xs ys : Cells A) → Absent a (xs ++ ys) → Absent a xs × Absent a ys
  Absent-append a [] ys v = (tt, v)
  Absent-append a (c ∷ xs) ys v = let (p, q) = Absent-append a xs ys v.1 in ((v.0, p), q)

  Absent-insert :
      (a : Address) (xs ys : Cells A) (c : Cell A)
      → c.at ≢ a
      → Absent a (xs ++ ys)
      → Absent a (xs ++ (c ∷ ys))
  Absent-insert a [] ys c ne v = (ne, v)
  Absent-insert a (e ∷ xs) ys c ne v = (v.0, Absent-insert a xs ys c ne v.1)

  Below-Absent : (a : Address) (xs : Cells A) → Below a xs → Absent a xs
  Below-Absent a [] v = tt
  Below-Absent a (c ∷ xs) v = ((λ e. omega (arith, v.0, e)), Below-Absent a xs v.1)

  Below-suc : (a : Address) (xs : Cells A) → Below a xs → Below (suc a) xs
  Below-suc a [] v = tt
  Below-suc a (c ∷ xs) v = (omega (arith, v.0), Below-suc a xs v.1)

  Below-insert :
      (a : Address) (xs ys : Cells A) (c : Cell A)
      → c.at < a
      → Below a (xs ++ ys)
      → Below a (xs ++ (c ∷ ys))
  Below-insert a [] ys c lt v = (lt, v)
  Below-insert a (e ∷ xs) ys c lt v = (v.0, Below-insert a xs ys c lt v.1)

  Distinct-insert :
      (a : Address) (xs ys : Cells A) (c : Cell A)
      → a < c.at
      → Below c.at (xs ++ ys)
      → Distinct a (xs ++ ys)
      → Distinct a (xs ++ (c ∷ ys))
  Distinct-insert a [] [] c lt below v = ((λ e. omega (arith, e)), tt, tt)
  Distinct-insert a [] (e ∷ ys) c lt below v = (
    (λ q. omega (arith, q)),
    (v.0, v.1),
    ((λ q. omega (arith, below.0, q)), Below-Absent c.at ys below.1, v.2),
  )
  Distinct-insert a (e ∷ xs) ys c lt below v = (
    v.0,
    Absent-insert a xs ys c (λ q. omega (arith, q)) v.1,
    Distinct-insert e.at xs ys c below.0 below.1 v.2,
  )

  -- The next address that memory gives, somewhere in the list.
  pub Apart-insert :
      (header fresh : Address) (xs ys : Cells A) (c : Cell A)
      → c.at ≡ fresh
      → Apart header fresh (xs ++ ys)
      → Apart header (suc fresh) (xs ++ (c ∷ ys))
  Apart-insert header fresh xs ys c e v =
      let here = subst (λ a. Below a (xs ++ ys)) (sym e) v.below in
      record {
        distinct = Distinct-insert header xs ys c (omega (arith, v.low, e)) here v.distinct;
        low = omega (arith, v.low);
        below =
            Below-insert (suc fresh) xs ys c (omega (arith, e))
              (Below-suc fresh (xs ++ ys) v.below);
      }

  pub end_of-Absent :
      (a : Address) (c : Cell A) (cs : Cells A) → Absent a (c ∷ cs) → end_of c.at cs ≢ a
  end_of-Absent a c [] v = v.0
  end_of-Absent a c (e ∷ cs) v = end_of-Absent a e cs v.1

  -- Where two fronts of the list end at the same node, they are of one length.
  pub end_of-injective :
      (a : Address) (d r d' r' : Cells A)
      → Distinct a (d ++ r)
      → d ++ r ≡ d' ++ r'
      → end_of a d ≡ end_of a d'
      → length d ≡ length d'
  end_of-injective a [] r [] r' v split e = refl
  end_of-injective a [] r (c ∷ d') r' v split e =
      let w = subst (λ ys. Distinct a ys) split v in
      absurd (end_of-Absent a c d' (w.0, (Absent-append a d' r' w.1).0) (sym e))
  end_of-injective a (c ∷ d) r [] r' v split e =
      absurd (end_of-Absent a c d (v.0, (Absent-append a d r v.1).0) e)
  end_of-injective a (c ∷ d) r (c' ∷ d') r' v split e =
      let head : c ≡ c' = cc in
      let rest : d ++ r ≡ d' ++ r' = cc in
      ap suc (
        end_of-injective c.at d r d' r' v.2 rest
          (e ∙ ap (λ k. end_of k d') (sym (ap (λ k. k.at) head))))

  pub end_of-Below :
      (a fresh : Address) (d r : Cells A) → a < fresh → Below fresh (d ++ r) → end_of a d < fresh
  end_of-Below a fresh [] r lt v = lt
  end_of-Below a fresh (c ∷ d) r lt v = end_of-Below c.at fresh d r v.0 v.1
