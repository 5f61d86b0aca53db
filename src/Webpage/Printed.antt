-- ===== src/Webpage/Printed.antt =====
-- `render` of lua-webpage.c on a chain of blocks.
use quick.Prelude.{
  ℕ, zero, suc, ◌≤◌, ◌≡◌, ◌≢◌, refl, sym, ap, ◌∙◌, ◌⊎◌, inl, inr, Bool, true, Option, none, some,
  List, [], ◌∷◌, ◌++◌, length, arith, ◌>>=◌,
}
use quick.Webpage.Blocks.{
  Address, Kind, html, var, begin_block, end_block, Content, block, Heap, Memory,
}
use quick.Webpage.Render.{Output, ends_block, skip_to, past_block, put_block, render_from, render}
use quick.Webpage.Chain.{Cells, first, Chain, contents}
use quick.Webpage.Printing.{
  bytes_of, printed, AllNamed, extend, IsLive, extend_nil, extend-extend, extend-IsLive,
  put_data_lem,
}
use quick.Webpage.Skipping.{Skipped, skip_to_lem}

-- What a block prints that begins no part.
plain_bytes : Kind → Option (List ℕ) → List ℕ
plain_bytes html d = bytes_of d
plain_bytes var d = bytes_of d
plain_bytes begin_block d = []
plain_bytes end_block d = []

Kind-cases : (k : Kind) → (k ≡ begin_block) ⊎ (k ≢ begin_block)
Kind-cases html = inr (cc)
Kind-cases var = inr (cc)
Kind-cases begin_block = inl refl
Kind-cases end_block = inr (cc)

put_plain :
    (k : Kind) (d n : Option (List ℕ)) (a : Bool) (out : Output)
    → IsLive out
    → put_block (record { kind = k; data_bytes = d; name = n; alloc = a }) out
      ≡ some (extend out (plain_bytes k d))
unfolding plain_bytes
put_plain html d n a out live = put_data_lem d out live
put_plain var d n a out live = put_data_lem d out live
put_plain begin_block d n a out live = ap some (sym (extend_nil out))
put_plain end_block d n a out live = ap some (sym (extend_nil out))

past_plain :
    (fuel : ℕ) (h : Heap) (p : Address) (prev next : Option Address) (k : Kind)
    (d n : Option (List ℕ)) (a : Bool)
    → k ≢ begin_block
    → past_block fuel h p
        (block prev next (record { kind = k; data_bytes = d; name = n; alloc = a }))
      ≡ some (some p)
unfolding past_block
past_plain fuel h p prev next html d n a plain = refl
past_plain fuel h p prev next var d n a plain = refl
past_plain fuel h p prev next begin_block d n a plain = absurd (plain refl)
past_plain fuel h p prev next end_block d n a plain = refl

past_begin :
    (fuel : ℕ) (h : Heap) (p : Address) (prev next : Option Address) (k : Kind)
    (d n : Option (List ℕ)) (a : Bool) (name : List ℕ)
    → k ≡ begin_block
    → n ≡ some name
    → past_block fuel h p
        (block prev next (record { kind = k; data_bytes = d; name = n; alloc = a }))
      ≡ skip_to fuel h name next
unfolding past_block
past_begin fuel h p prev next k d n a name ek en = rw (ek, en)

printed_plain :
    (k : Kind) (d n : Option (List ℕ)) (a : Bool) (cs : List Content)
    → k ≢ begin_block
    → printed none (record { kind = k; data_bytes = d; name = n; alloc = a } ∷ cs)
      ≡ plain_bytes k d ++ printed none cs
unfolding printed plain_bytes
printed_plain html d n a cs plain = refl
printed_plain var d n a cs plain = refl
printed_plain begin_block d n a cs plain = absurd (plain refl)
printed_plain end_block d n a cs plain = refl

printed_begin :
    (k : Kind) (d n : Option (List ℕ)) (a : Bool) (cs : List Content) (name : List ℕ)
    → k ≡ begin_block
    → n ≡ some name
    → printed none (record { kind = k; data_bytes = d; name = n; alloc = a } ∷ cs)
      ≡ printed (some name) cs
unfolding printed
printed_begin k d n a cs name ek en = rw (ek, en)

-- An EndBlock prints nothing.
put_end :
    (c : Content) (name : List ℕ) (out : Output)
    → ends_block c name ≡ true
    → put_block c out ≡ some out
put_end c name out e = end_case c.kind c.data_bytes c.name c.alloc e
  where
    end_case :
        (k : Kind) (d n : Option (List ℕ)) (a : Bool)
        → ends_block (record { kind = k; data_bytes = d; name = n; alloc = a }) name ≡ true
        → put_block (record { kind = k; data_bytes = d; name = n; alloc = a }) out ≡ some out
    end_case html d n a e = cc
    end_case var d n a e = cc
    end_case begin_block d n a e = cc
    end_case end_block d n a e = refl

abbrev at_block : ℕ → Heap → Output → Option Address → Option Output
at_block fuel h out none = some out
at_block fuel h out (some q) = do
  c ← h q
  out' ← put_block c.content out
  render_from fuel h c.suiv out'

-- The rest of the round behind a part that is left out.
after_skip :
    (fuel : ℕ) (h : Heap) (name : List ℕ) (xs : Cells) (out : Output) (at : Option Address)
    → IsLive out
    → ((prev : Option Address) (ys : Cells) (out' : Output)
        → Chain h prev ys none
        → AllNamed ys
        → length ys ≤ fuel
        → IsLive out'
        → render_from fuel h (first ys none) out' ≡ some (extend out' (printed none (contents ys))))
    → length xs ≤ fuel
    → Skipped h name xs at
    → at_block fuel h out at ≡ some (extend out (printed (some name) (contents xs)))
after_skip fuel h name xs out none live rec enough s =
    ap some (sym (extend_nil out) ∙ ap (extend out) (sym s))
after_skip fuel h name xs out (some q) live rec enough s =
    let put = put_end s.content name out s.ends in
    rw (s.linked.0, put)
      (rec (some q) s.rest out s.linked.1 s.named (omega (arith, s.shorter)) live
        ∙ ap (λ t. some (extend out t)) (sym s.same))

render_from_lem :
    (fuel : ℕ) (h : Heap) (prev : Option Address) (xs : Cells) (out : Output)
    → Chain h prev xs none
    → AllNamed xs
    → length xs ≤ fuel
    → IsLive out
    → render_from fuel h (first xs none) out ≡ some (extend out (printed none (contents xs)))
unfolding render_from printed
render_from_lem zero h prev [] out l named enough live = ap some (sym (extend_nil out))
render_from_lem (suc fuel) h prev [] out l named enough live = ap some (sym (extend_nil out))
render_from_lem zero h prev ((p, c) ∷ xs) out l named enough live = absurd (omega arith)
render_from_lem (suc fuel) h prev ((p, c) ∷ xs) out l named enough live =
    elim (Kind-cases (c.kind)) [
      | inr plain ↦
          let at =
            past_plain fuel h p prev (first xs none) c.kind c.data_bytes c.name c.alloc plain in
          let put = put_plain c.kind c.data_bytes c.name c.alloc out live in
          let rest =
            render_from_lem fuel h (some p) xs (extend out (plain_bytes c.kind c.data_bytes)) l.1
              named.1 (omega arith) (extend-IsLive out (plain_bytes c.kind c.data_bytes) live) in
          rw (l.0, at, l.0, put)
            (rest
              ∙ ap some (
                  extend-extend out (plain_bytes c.kind c.data_bytes) (printed none (contents xs))
                  ∙ ap (extend out)
                      (sym (printed_plain c.kind c.data_bytes c.name c.alloc (contents xs) plain))))
      | inl begins ↦
          let (name, en) = named.0 begins in
          let past =
            past_begin fuel h p prev (first xs none) c.kind c.data_bytes c.name c.alloc name begins
              en in
          let (at, found, skipped) =
            skip_to_lem fuel h name (some p) xs l.1 named.1 (omega arith) in
          let begun =
            printed_begin c.kind c.data_bytes c.name c.alloc (contents xs) name begins en in
          rw (l.0, past, found)
            (after_skip fuel h name xs out at live (render_from_lem fuel h) (omega arith) skipped
              ∙ ap (λ t. some (extend out t)) (sym begun))
    ]

-- On a chain of named blocks `render` ends, with no fault, and adds to the result what the blocks
-- print: the texts and the values of variables in order, and nothing of what stands between a
-- BeginBlock and the next EndBlock of its name.
pub render_lem :
    (m : Memory) (xs : Cells) (out : Output)
    → Chain m.heap none xs none
    → AllNamed xs
    → length xs ≤ m.fresh
    → IsLive out
    → render m (first xs none) out ≡ some (extend out (printed none (contents xs)))
unfolding render
render_lem m xs out l named enough live =
    render_from_lem m.fresh m.heap none xs out l named enough live
