-- ===== src/Webpage/Chain.antt =====
-- Doubly linked lists of blocks in memory, as lists of addresses with contents.
use quick.Prelude.{
  none, ℕ, suc, ◌+◌, ◌≤◌, ◌<◌, ◌≡◌, ◌≢◌, refl, sym, ap, ◌∙◌, inl, inr, Option, some, List, [], ◌∷◌,
  ◌++◌, length, ◌==◌, ==_iff, if◌then◌else◌, arith, Bool-cases,
}
use quick.Webpage.Blocks.{Address, Content, Block, block, Heap, write}

abbrev pub Cells : Type 0
Cells = List (Address × Content)

abbrev pub first : Cells → Option Address → Option Address
first [] next = next
first ((p, c) ∷ xs) next = some p

abbrev pub last : Cells → Option Address → Option Address
last [] prev = prev
last ((p, c) ∷ xs) prev = last xs (some p)

-- The blocks at the addresses are linked in both directions, between `prev` and `next`.
abbrev pub Chain : Heap → Option Address → Cells → Option Address → Type 0
Chain h prev [] next = Unit
Chain h prev ((p, c) ∷ xs) next =
    (h p ≡ some (block prev (first xs next) c)) × Chain h (some p) xs next

abbrev pub contents : Cells → List Content
contents [] = []
contents ((p, c) ∷ xs) = c ∷ contents xs

-- Contents at addresses one after the other.
abbrev pub numbered : Address → List Content → Cells
numbered a [] = []
numbered a (c ∷ cs) = (a, c) ∷ numbered (suc a) cs

-- How often an address occurs.
abbrev pub count : Address → Cells → ℕ
count a [] = 0
count a ((p, c) ∷ xs) = (if a == p then 1 else 0) + count a xs

abbrev pub Distinct : Cells → Type 0
Distinct xs = (a : Address) → count a xs ≤ 1

-- No block stands at `a` or behind.
abbrev pub Fresh : Address → Cells → Type 0
Fresh a xs = (q : Address) → a ≤ q → count q xs ≡ 0

-- A list in memory below the first free address.
abbrev pub Stands : Heap → Address → Cells → Type 0
Stands h fresh zs = Chain h none zs none × Distinct zs × Fresh fresh zs

pub write_self : (h : Heap) (p : Address) (b : Option Block) → write h p b p ≡ b
unfolding write
write_self h p b = ground arith

pub write_other :
    (h : Heap) (p : Address) (b : Option Block) (q : Address) → q ≢ p → write h p b q ≡ h q
unfolding write
write_other h p b q ne = ground arith

pub count_self : (p : Address) (c : Content) (xs : Cells) → 1 ≤ count p ((p, c) ∷ xs)
count_self p c xs = ground arith

pub count_other : (a p : Address) (c : Content) (xs : Cells) → count a xs ≤ count a ((p, c) ∷ xs)
count_other a p c xs = omega arith

pub count-append : (a : Address) (xs ys : Cells) → count a (xs ++ ys) ≡ count a xs + count a ys
count-append a [] ys = omega arith
count-append a ((p, c) ∷ xs) ys = omega (arith, count-append a xs ys)

pub Chain-frame :
    (h g : Heap) (prev : Option Address) (xs : Cells) (next : Option Address)
    → ((a : Address) → 1 ≤ count a xs → g a ≡ h a)
    → Chain h prev xs next
    → Chain g prev xs next
Chain-frame h g prev [] next same l = tt
Chain-frame h g prev ((p, c) ∷ xs) next same l = (
  same p (count_self p c xs) ∙ l.0,
  Chain-frame h g (some p) xs next (λ a m. same a (omega (arith, count_other a p c xs))) l.1,
)

pub first-append :
    (xs ys : Cells) (next : Option Address) → first (xs ++ ys) next ≡ first xs (first ys next)
first-append [] ys next = refl
first-append ((p, c) ∷ xs) ys next = refl

pub Chain-append :
    (h : Heap) (prev : Option Address) (xs ys : Cells) (next : Option Address)
    → Chain h prev xs (first ys next)
    → Chain h (last xs prev) ys next
    → Chain h prev (xs ++ ys) next
Chain-append h prev [] ys next l m = m
Chain-append h prev ((p, c) ∷ xs) ys next l m = (
  l.0 ∙ ap (λ n. some (block prev n c)) (sym (first-append xs ys next)),
  Chain-append h (some p) xs ys next l.1 m,
)

pub Chain-split :
    (h : Heap) (prev : Option Address) (xs ys : Cells) (next : Option Address)
    → Chain h prev (xs ++ ys) next
    → Chain h prev xs (first ys next) × Chain h (last xs prev) ys next
Chain-split h prev [] ys next l = (tt, l)
Chain-split h prev ((p, c) ∷ xs) ys next l =
    let (front, rest) = Chain-split h (some p) xs ys next l.1 in
    ((l.0 ∙ ap (λ n. some (block prev n c)) (first-append xs ys next), front), rest)

pub numbered-append :
    (a : Address) (cs ds : List Content)
    → numbered a (cs ++ ds) ≡ numbered a cs ++ numbered (a + length cs) ds
numbered-append a [] ds = ap (λ b. numbered b ds) (omega arith)
numbered-append a (c ∷ cs) ds =
    ap (λ xs. (a, c) ∷ xs)
      (numbered-append (suc a) cs ds ∙ ap (λ b. numbered (suc a) cs ++ numbered b ds) (omega arith))

pub contents-numbered : (a : Address) (cs : List Content) → contents (numbered a cs) ≡ cs
contents-numbered a [] = refl
contents-numbered a (c ∷ cs) = ap (λ ds. c ∷ ds) (contents-numbered (suc a) cs)

pub count-numbered_range :
    (a b : Address) (cs : List Content)
    → 1 ≤ count a (numbered b cs)
    → (b ≤ a) × (a < b + length cs)
count-numbered_range a b [] h = absurd (omega arith)
count-numbered_range a b (c ∷ cs) h = elim (Bool-cases (a == b)) [
  | inl e ↦ let same : a ≡ b = (==_iff a b).0 e in (omega arith, omega arith)
  | inr e ↦
      let later = count-numbered_range a (suc b) cs (ground arith) in
      (omega (arith, later.0), omega (arith, later.1))
]

pub numbered-Distinct : (b : Address) (cs : List Content) → Distinct (numbered b cs)
numbered-Distinct b [] a = omega arith
numbered-Distinct b (c ∷ cs) a = elim (Bool-cases (a == b)) [
  | inl e ↦
      let same : a ≡ b = (==_iff a b).0 e in
      let rest = numbered-Distinct (suc b) cs a in
      elim (Bool-cases (count a (numbered (suc b) cs) == 0)) [
        | inl z ↦ ground arith
        | inr z ↦
            let range = count-numbered_range a (suc b) cs (ground arith) in
            absurd (omega (arith, range.0))
      ]
  | inr e ↦ let rest = numbered-Distinct (suc b) cs a in ground arith
]

pub numbered-Stands :
    (h : Heap) (base : Address) (cs : List Content)
    → Chain h none (numbered base cs) none
    → Stands h (base + length cs) (numbered base cs)
numbered-Stands h base cs l = (
  l,
  numbered-Distinct base cs,
  λ q le. elim (Bool-cases (count q (numbered base cs) == 0)) [
    | inl e ↦ (==_iff _ _).0 e
    | inr e ↦
        let range = count-numbered_range q base cs (ground arith) in absurd (omega (arith, range.1))
  ],
)
