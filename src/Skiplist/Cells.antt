-- ===== src/Skiplist/Cells.antt =====
-- A sorted set as a list of cells, and what the memory of skiplist.c holds for it: on level `i` each
-- node of more than `i` levels points to the next such node, and its span is the distance to it, or
-- to the end.
use quick.Prelude.{
  subst, append-nil, ℕ, suc, ◌+◌, ◌≤◌, ◌<◌, ◌≡◌, refl, ap, ◌∙◌, Option, none, some, List, [], ◌∷◌,
  ◌++◌, ltb, if◌then◌else◌, length, length-append, arith, ◌>>=◌, ◌⊎◌, inl, inr, Bool-cases,
}
use quick.Skiplist.Objects.{Obj}
use quick.Skiplist.Nodes.{Address, level, Node, Heap, max_level, get_level}

pub record Cell (A : Type 0) : Type 0 where
  pub at : Address
  pub score : A
  pub obj : Obj
  pub height : ℕ

abbrev pub Cells : Type 0 → Type 0
Cells A = List (Cell A)

-- All that a node holds but its levels.
abbrev pub Info : Type 0 → Type 0
Info A = Option Obj × A × Option Address × ℕ

module _ {A : Type 0} where
  abbrev pub next_at : ℕ → Cells A → Option Address
  next_at i [] = none
  next_at i (c ∷ cs) = if ltb i c.height then some c.at else next_at i cs

  abbrev pub gap_at : ℕ → Cells A → ℕ
  gap_at i [] = 0
  gap_at i (c ∷ cs) = if ltb i c.height then 1 else suc (gap_at i cs)

  -- The last node, or the header if there is none, and its number of levels.
  abbrev pub end_of : Address → Cells A → Address
  end_of header [] = header
  end_of header (c ∷ cs) = end_of c.at cs

  abbrev pub height_of : ℕ → Cells A → ℕ
  height_of n [] = n
  height_of n (c ∷ cs) = height_of c.height cs

  abbrev pub prev_of : Cells A → Option Address
  prev_of [] = none
  prev_of (c ∷ cs) = some (end_of c.at cs)

  -- No node stands on level `i`.
  abbrev pub Low : ℕ → Cells A → Type 0
  Low i [] = Unit
  Low i (c ∷ cs) = (c.height ≤ i) × Low i cs

  abbrev pub Heights : ℕ → Cells A → Type 0
  Heights n [] = Unit
  Heights n (c ∷ cs) = (1 ≤ c.height) × (c.height ≤ n) × Heights n cs

  abbrev pub info_of : Node A → Info A
  info_of b = (b.obj, b.score, b.backward, length b.levels)

  unfoldable pub info : Heap A → Address → Option (Info A)
  info h p = do b ← h p; some (info_of b)

  -- The nodes in memory. `header` has all levels; above `n` its own point nowhere.
  pub record Linked (h : Heap A) (header : Address) (n : ℕ) (xs : Cells A) : Type 0 where
    pub header_info : (s : A) × (info h header ≡ some (none, s, none, max_level))
    pub infos :
        (d : Cells A) (c : Cell A) (r : Cells A)
        → xs ≡ d ++ (c ∷ r)
        → info h c.at ≡ some (some c.obj, c.score, prev_of d, c.height)
    pub links :
        (d r : Cells A) (i : ℕ)
        → xs ≡ d ++ r
        → i < n
        → i < height_of max_level d
        → get_level h (end_of header d) i ≡ some (level (next_at i r) (gap_at i r))
    pub spare :
        (i : ℕ) → n ≤ i → i < max_level → (s : ℕ) × (get_level h header i ≡ some (level none s))
    pub heights : Heights n xs
    pub at_least : 1 ≤ n
    pub at_most : n ≤ max_level

  -- A level on which no node of the front stands.
  pub next_at-append-Low :
      (i : ℕ) (xs ys : Cells A) → Low i xs → next_at i (xs ++ ys) ≡ next_at i ys
  next_at-append-Low i [] ys low = refl
  next_at-append-Low i (c ∷ xs) ys low = ground (arith, next_at-append-Low i xs ys low.1)

  pub gap_at-append-Low :
      (i : ℕ) (xs ys : Cells A) → Low i xs → gap_at i (xs ++ ys) ≡ length xs + gap_at i ys
  gap_at-append-Low i [] ys low = omega arith
  gap_at-append-Low i (c ∷ xs) ys low = ground (arith, gap_at-append-Low i xs ys low.1)

  pub next_at-Low : (i : ℕ) (xs : Cells A) → Low i xs → next_at i xs ≡ none
  next_at-Low i [] low = refl
  next_at-Low i (c ∷ xs) low = ground (arith, next_at-Low i xs low.1)

  pub gap_at-Low : (i : ℕ) (xs : Cells A) → Low i xs → gap_at i xs ≡ length xs
  gap_at-Low i [] low = refl
  gap_at-Low i (c ∷ xs) low = ground (arith, gap_at-Low i xs low.1)

  pub Heights-Low : (n : ℕ) (xs : Cells A) → Heights n xs → Low n xs
  Heights-Low n [] h = tt
  Heights-Low n (c ∷ xs) h = (h.1, Heights-Low n xs h.2)

  -- Each node stands on level 0.
  pub Heights-none : (n : ℕ) (xs : Cells A) → Heights n xs → Low 0 xs → xs ≡ []
  Heights-none n [] h low = refl
  Heights-none n (c ∷ xs) h low = absurd (omega (arith, h.0, low.0))

  pub Low-mono : (i j : ℕ) (xs : Cells A) → i ≤ j → Low i xs → Low j xs
  Low-mono i j [] le low = tt
  Low-mono i j (c ∷ xs) le low = (omega (arith, low.0), Low-mono i j xs le low.1)

  pub Low-append : (i : ℕ) (xs ys : Cells A) → Low i xs → Low i ys → Low i (xs ++ ys)
  Low-append i [] ys a b = b
  Low-append i (c ∷ xs) ys a b = (a.0, Low-append i xs ys a.1 b)

  pub Heights-append :
      (n : ℕ) (xs ys : Cells A) → Heights n xs → Heights n ys → Heights n (xs ++ ys)
  Heights-append n [] ys a b = b
  Heights-append n (c ∷ xs) ys a b = (a.0, a.1, Heights-append n xs ys a.2 b)

  pub Heights-split : (n : ℕ) (xs ys : Cells A) → Heights n (xs ++ ys) → Heights n xs × Heights n ys
  Heights-split n [] ys a = (tt, a)
  Heights-split n (c ∷ xs) ys a = let (b, d) = Heights-split n xs ys a.2 in ((a.0, a.1, b), d)

  -- No node of level 0 is left behind the front.
  pub front-Low :
      (n : ℕ) (good bad d m : Cells A)
      → Heights n (good ++ bad)
      → good ≡ d ++ m
      → Low 0 m
      → good ≡ d
  front-Low n good bad d m h split low =
      let here =
        Heights-split n d m (subst (λ ys. Heights n ys) split (Heights-split n good bad h).0) in
      split ∙ ap (λ ys. d ++ ys) (Heights-none n m here.1 low) ∙ append-nil d

  pub front-length : (good d m : Cells A) → good ≡ d ++ m → length d ≡ length good → good ≡ d
  front-length good d [] split e = split ∙ append-nil d
  front-length good d (c ∷ m) split e =
      absurd (omega (arith, ap length split, length-append d (c ∷ m)))

  pub end_of-append :
      (header : Address) (xs ys : Cells A) → end_of header (xs ++ ys) ≡ end_of (end_of header xs) ys
  end_of-append header [] ys = refl
  end_of-append header (c ∷ xs) ys = end_of-append c.at xs ys

  pub height_of-append :
      (n : ℕ) (xs ys : Cells A) → height_of n (xs ++ ys) ≡ height_of (height_of n xs) ys
  height_of-append n [] ys = refl
  height_of-append n (c ∷ xs) ys = height_of-append c.height xs ys

  -- The first node that stands on level `i`, if there is one.
  pub record First (i : ℕ) (xs : Cells A) : Type 0 where
    pub before : Cells A
    pub cell : Cell A
    pub behind : Cells A
    pub split : xs ≡ before ++ (cell ∷ behind)
    pub low : Low i before
    pub tall : i < cell.height

  pub find-First : (i : ℕ) (xs : Cells A) → Low i xs ⊎ First i xs
  find-First i [] = inl tt
  find-First i (c ∷ xs) = elim (Bool-cases (ltb i c.height)) [
    | inl t ↦
        inr (record {
          before = [];
          cell = c;
          behind = xs;
          split = refl;
          low = tt;
          tall = ground arith;
        })
    | inr f ↦ elim (find-First i xs) [
      | inl low ↦ inl (ground arith, low)
      | inr t ↦ inr (record {
        before = c ∷ t.before;
        cell = t.cell;
        behind = t.behind;
        split = ap (λ ys. c ∷ ys) t.split;
        low = (ground arith, t.low);
        tall = t.tall;
      })
    ]
  ]
