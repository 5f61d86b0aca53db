-- ===== src/Log/Cells.antt =====
-- Chains of buffers in memory, and the bookkeeping of who holds which address.
use quick.Prelude.{
  ◌⊎◌, inl, inr, Bool-cases, ==_iff, ℕ, ◌+◌, ◌≡◌, refl, sym, append_assoc, ap, ◌∙◌, Option, none,
  some, List, [], ◌∷◌, ◌++◌, ◌==◌, if◌then◌else◌, arith, length,
}
use quick.Log.Heap.{Address, Buffer, buffer, Heap, write, BufferList}

-- Address and content of each buffer of a chain, in order.
abbrev pub Cells : Type 0
Cells = List (Address × List ℕ)

abbrev pub first : Cells → Option Address → Option Address
first [] stop = stop
first ((p, d) ∷ xs) stop = some p

abbrev pub last : Cells → Option Address → Option Address
last [] start = start
last ((p, d) ∷ xs) start = last xs (some p)

-- The `next` pointers lead through the cells and end at `stop`.
abbrev pub Linked : Heap → Cells → Option Address → Type 0
Linked h [] stop = Unit
Linked h ((p, d) ∷ xs) stop = (h p ≡ some (buffer (first xs stop) d)) × Linked h xs stop

abbrev pub contents : Cells → List ℕ
contents [] = []
contents ((p, d) ∷ xs) = d ++ contents xs

abbrev pub list_of : Cells → BufferList
list_of xs = record { head = first xs none; tail = last xs none; size = length xs }

-- How often an address occurs.
abbrev pub occurs : Address → Address → ℕ
occurs a p = if a == p then 1 else 0

abbrev pub count : Address → Cells → ℕ
count a [] = 0
count a ((p, d) ∷ xs) = occurs a p + count a xs

abbrev pub count_option : Address → Option Address → ℕ
count_option a none = 0
count_option a (some p) = occurs a p

pub count-append : (a : Address) (xs ys : Cells) → count a (xs ++ ys) ≡ count a xs + count a ys
count-append a [] ys = omega arith
count-append a ((p, d) ∷ xs) ys = omega (arith, count-append a xs ys)

pub occurs_self : (a : Address) → occurs a a ≡ 1
occurs_self a = ground arith

pub occurs_sym : (a b : Address) → occurs a b ≡ occurs b a
occurs_sym a b = ground arith

pub occurs-cases : (a b : Address) → (occurs a b ≡ 0) ⊎ (a ≡ b)
occurs-cases a b = elim (Bool-cases (a == b)) [
  | inl e ↦ inr ((==_iff a b).0 e)
  | inr e ↦ inl (rw e)
]

pub write_self : (h : Heap) (p : Address) (c : Option Buffer) → write h p c p ≡ c
unfolding write
write_self h p c = ground arith

pub write_other :
    (h : Heap) (p q : Address) (c : Option Buffer) → occurs p q ≡ 0 → write h p c q ≡ h q
unfolding write
write_other h p q c e = ground arith

-- A write elsewhere leaves a chain alone.
pub Linked-write :
    (h : Heap) (xs : Cells) (stop : Option Address) (p : Address) (c : Option Buffer)
    → count p xs ≡ 0
    → Linked h xs stop
    → Linked (write h p c) xs stop
Linked-write h [] stop p c z l = tt
Linked-write h ((q, d) ∷ xs) stop p c z l =
    (write_other h p q c (omega arith) ∙ l.0, Linked-write h xs stop p c (omega arith) l.1)

-- An unallocated address is in no chain.
pub count_fresh :
    (h : Heap) (xs : Cells) (stop : Option Address) (p : Address)
    → h p ≡ none
    → Linked h xs stop
    → count p xs ≡ 0
count_fresh h [] stop p e l = refl
count_fresh h ((q, d) ∷ xs) stop p e l = ground (arith, count_fresh h xs stop p e l.1)

pub occurs_fresh :
    (h : Heap) (p q : Address) (c : Buffer) → h p ≡ none → h q ≡ some c → occurs p q ≡ 0
occurs_fresh h p q c e f = ground arith

pub Linked-snoc :
    (h : Heap) (xs : Cells) (stop : Option Address) (p : Address) (d : List ℕ)
    → Linked h xs (some p)
    → h p ≡ some (buffer stop d)
    → Linked h (xs ++ ((p, d) ∷ [])) stop
Linked-snoc h [] stop p d l e = (e, tt)
Linked-snoc h ((q, c) ∷ []) stop p d l e = (l.0, (e, tt))
Linked-snoc h ((q, c) ∷ x ∷ xs) stop p d l e = (l.0, Linked-snoc h (x ∷ xs) stop p d l.1 e)

pub last-snoc :
    (xs : Cells) (p : Address) (d : List ℕ) (start : Option Address)
    → last (xs ++ ((p, d) ∷ [])) start ≡ some p
last-snoc [] p d start = refl
last-snoc ((q, c) ∷ xs) p d start = last-snoc xs p d (some q)

pub contents-append : (xs ys : Cells) → contents (xs ++ ys) ≡ contents xs ++ contents ys
contents-append [] ys = refl
contents-append ((p, d) ∷ xs) ys =
    ap (λ t. d ++ t) (contents-append xs ys) ∙ sym (append_assoc d (contents xs) (contents ys))
