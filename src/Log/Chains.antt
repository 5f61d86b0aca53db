-- ===== src/Log/Chains.antt =====
-- The loops of the worker of lua-log.c over a chain of buffers: writing it and freeing it.
use quick.Prelude.{
  ℕ, zero, suc, ◌+◌, ◌≤◌, ◌≡◌, refl, sym, ◌∙◌, true, inl, inr, Option, none, some, List, [], ◌∷◌,
  ◌++◌, length, length-append, arith, append_assoc, append-nil,
}
use quick.Log.Heap.{Address, Heap, write}
use quick.Log.Cells.{
  Cells, Linked, first, count, contents, occurs_sym, occurs-cases, occurs_self, write_self,
  write_other, Linked-write,
}
use quick.Log.Roll.{Roll}
use quick.Log.Worker.{free_chain, write_chain, has_handle}

-- Where `h` and `g` agree on a chain, the chain is in both.
pub Linked-frame :
    (h g : Heap) (xs : Cells) (stop : Option Address)
    → ((a : Address) → 1 ≤ count a xs → g a ≡ h a)
    → Linked h xs stop
    → Linked g xs stop
Linked-frame h g [] stop same l = tt
Linked-frame h g ((p, d) ∷ xs) stop same l = (
  same p (omega (arith, occurs_self p)) ∙ l.0,
  Linked-frame h g xs stop (λ a m. same a (omega arith)) l.1,
)

written_eq :
    (r : Roll) (m n : ℕ) (out out' : List ℕ)
    → m ≡ n
    → out ≡ out'
    → ◌≡◌ {A = Option (Roll × List ℕ)}
        (some (record r { written_bytes = m }, out))
        (some (record r { written_bytes = n }, out'))
written_eq r m n out out' e f = rw (e, f)

-- The loop writes the contents in order and counts them; it needs one round for each buffer.
pub write_chain_lem :
    (fuel : ℕ) (xs : Cells) (h : Heap) (r : Roll) (out : List ℕ)
    → Linked h xs none
    → has_handle r.handle ≡ true
    → length xs ≤ fuel
    → write_chain fuel (first xs none) h r out
      ≡ some
          (record r { written_bytes = r.written_bytes + length (contents xs) }, out ++ contents xs)
unfolding write_chain
write_chain_lem fuel [] h r out l open_ enough =
    written_eq r _ _ out _ (omega arith) (sym (append-nil out))
write_chain_lem zero ((p, d) ∷ xs) h r out l open_ enough = absurd (omega arith)
write_chain_lem (suc fuel) ((p, d) ∷ xs) h r out l open_ enough =
    rw
      (
        l.0,
        open_,
        write_chain_lem fuel xs h (record r { written_bytes = r.written_bytes + length d })
            (out ++ d) l.1 open_ (omega arith),
      )
      (written_eq r _ _ _ _ (omega (arith, length-append d (contents xs)))
        (append_assoc out d (contents xs)))

-- What freeing a chain leaves: its own addresses are unallocated, the others untouched.
pub record Freed (xs : Cells) (h g : Heap) : Type 0 where
  pub gone : (a : Address) → 1 ≤ count a xs → g a ≡ none
  pub kept : (a : Address) → count a xs ≡ 0 → g a ≡ h a

pub free_chain_lem :
    (fuel : ℕ) (xs : Cells) (h : Heap)
    → Linked h xs none
    → ((a : Address) → count a xs ≤ 1)
    → length xs ≤ fuel
    → (g : Heap) × (free_chain fuel (first xs none) h ≡ some g) × Freed xs h g
unfolding free_chain
free_chain_lem fuel [] h l d enough =
    (h, refl, record { gone = λ a m. absurd (omega arith); kept = λ a z. refl })
free_chain_lem zero ((p, c) ∷ xs) h l d enough = absurd (omega arith)
free_chain_lem (suc fuel) ((p, c) ∷ xs) h l d enough =
    let away : count p xs ≡ 0 = omega (arith, d p, occurs_self p) in
    let r =
      free_chain_lem fuel xs (write h p none) (Linked-write h xs none p none away l.1)
        (λ a. omega (arith, d a)) (omega arith) in
    (
      r.0,
      rw l.0 r.1,
      record {
        gone = λ a m. elim (occurs-cases a p) [
          | inl other ↦ r.2.gone a (omega arith)
          | inr same ↦ rw same (r.2.kept p away ∙ write_self h p none)
        ];
        kept = λ a z.
            r.2.kept a (omega arith) ∙ write_other h p a none (omega (arith, occurs_sym p a));
      },
    )
