-- ===== src/Webpage/Assigned.antt =====
-- The loop of `set` in lua-webpage.c over the entries of a name, and the blocks behind it.
use quick.Prelude.{
  ℕ, ◌≡◌, ◌≢◌, refl, ap, ◌∙◌, inl, inr, Bool, true, false, ◌||◌, Option, none, some, List, [], ◌∷◌,
  All, ◌==◌, ==_iff, if◌then◌else◌, arith, Bool-cases,
}
use quick.Webpage.Blocks.{Address, Kind, var, Content, Block, Heap, write, set_content}
use quick.Webpage.Names.{NamePtr, Table, same_name}
use quick.Webpage.Edit.{set_entries}
use quick.Webpage.Chain.{Cells, write_self, write_other}

-- A variable of the name `n`.
abbrev pub is_target : List ℕ → Kind → Option (List ℕ) → Bool
is_target n var (some m) = same_name n m
is_target n _ _ = false

abbrev pub given : List ℕ → Content → Content
given val c = record c { data_bytes = some val }

abbrev pub assign : List ℕ → List ℕ → Content → Content
assign n val c = if is_target n c.kind c.name then given val c else c

abbrev pub edited : (Content → Content) → Cells → Cells
edited f [] = []
edited f ((p, c) ∷ xs) = (p, f c) ∷ edited f xs

-- Whether an entry of the table leads to the address.
abbrev pub hits : Address → Table → Bool
hits a [] = false
hits a (e ∷ es) = a == e.block_at || hits a es

abbrev pub update : List ℕ → Option Block → Option Block
update val none = none
update val (some b) = some (record b { content = given val b.content })

abbrev pub Allocated : Heap → Address → Type 0
Allocated h a = (b : Block) × (h a ≡ some b)

module _ (h : Heap) (p : Address) (b : Block) (val : List ℕ) (here : h p ≡ some b) where
  one : Heap
  one = write h p (some (record b { content = given val b.content }))

  set_content-one : set_content p (given val b.content) h ≡ some one
  unfolding set_content one
  set_content-one = rw here

  one-Allocated : (a : Address) → Allocated h a → Allocated one a
  unfolding one
  one-Allocated a (c, e) = elim (Bool-cases (a == p)) [
    | inl t ↦
        let same : a ≡ p = (==_iff a p).0 t in
        (record b { content = given val b.content }, ap one same ∙ write_self h p _)
    | inr f ↦ let other : a ≢ p = ground arith in (c, write_other h p _ a other ∙ e)
  ]

  one-update :
      (a : Address) (more : Bool)
      → (if more then update val (one a) else one a)
        ≡ (if a == p || more then update val (h a) else h a)
  unfolding one
  one-update a more = elim (Bool-cases (a == p)) [
    | inl t ↦
        let same : a ≡ p = (==_iff a p).0 t in
        let now : one a ≡ some (record b { content = given val b.content }) =
          ap one same ∙ write_self h p _ in
        let was : h a ≡ some b = ap h same ∙ here in rw (now, was, t) (twice more)
    | inr f ↦
        let other : a ≢ p = ground arith in
        let now : one a ≡ h a = write_other h p _ a other in rw (now, f)
  ]
    where
      twice :
          (more : Bool)
          → (if more
              then some (record b { content = given val b.content })
              else some (record b { content = given val b.content }))
            ≡ some (record b { content = given val b.content })
      twice true = refl
      twice false = refl

All-one :
    (h : Heap) (p : Address) (b : Block) (val : List ℕ) (here : h p ≡ some b) (es : Table)
    → All (λ (e : NamePtr). Allocated h e.block_at) es
    → All (λ (e : NamePtr). Allocated (one h p b val here) e.block_at) es
All-one h p b val here [] all = tt
All-one h p b val here (e ∷ es) all =
    (one-Allocated h p b val here e.block_at all.0, All-one h p b val here es all.1)

-- The entries in turn: a block that is led to gets the value.
pub set_entries_lem :
    (es : Table) (val : List ℕ) (h : Heap)
    → All (λ (e : NamePtr). Allocated h e.block_at) es
    → (g : Heap) × (set_entries es val h ≡ some g)
      × ((a : Address) → g a ≡ (if hits a es then update val (h a) else h a))
unfolding set_entries
set_entries_lem [] val h all = (h, refl, λ a. refl)
set_entries_lem (e ∷ es) val h all =
    let (b, here) = all.0 in
    let (g, found, at) =
      set_entries_lem es val (one h e.block_at b val here)
        (All-one h e.block_at b val here es all.1) in
    (
      g,
      rw (here, set_content-one h e.block_at b val here) found,
      λ a. at a ∙ one-update h e.block_at b val here a (hits a es),
    )
