-- ===== src/Webpage/Reuse.antt =====
-- `lrender` of lua-webpage.c frees `result` and keeps the pointer: what a second call finds.
use quick.Prelude.{
  length, arith, Bool, ℕ, zero, suc, ◌≡◌, refl, sym, ap, ◌∙◌, Option, none, some, List, [], ◌∷◌,
  ◌>>=◌,
}
use quick.Webpage.Blocks.{Address, Kind, html, var, begin_block, end_block, Heap}
use quick.Webpage.Render.{
  Output, null, bytes, dangling, append_data, put_data, put_block, past_block, render_from, render,
}
use quick.Webpage.Page.{Page, push_result, lrender}

-- A fault, or still freed memory.
abbrev Freed : Option Output → Type 0
Freed none = Unit
Freed (some out) = out ≡ dangling

bind-Freed :
    {A : Type 0} (o : Option A) (k : A → Option Output) → ((x : A) → Freed (k x)) → Freed (o >>= k)
bind-Freed none k f = tt
bind-Freed (some x) k f = f x

put_data-Freed : (d : Option (List ℕ)) → Freed (put_data d dangling)
unfolding put_data append_data
put_data-Freed none = refl
put_data-Freed (some []) = refl
put_data-Freed (some (c ∷ d)) = tt

put_block-Freed :
    (k : Kind) (d name : Option (List ℕ)) (a : Bool)
    → Freed (put_block (record { kind = k; data_bytes = d; name = name; alloc = a }) dangling)
put_block-Freed html d name a = put_data-Freed d
put_block-Freed var d name a = put_data-Freed d
put_block-Freed begin_block d name a = refl
put_block-Freed end_block d name a = refl

later-Freed :
    (o : Option Output) (k : Output → Option Output)
    → Freed o
    → Freed (k dangling)
    → Freed (o >>= k)
later-Freed none k f g = tt
later-Freed (some out) k f g = rw f g

render_from-Freed :
    (fuel : ℕ) (h : Heap) (at : Option Address) → Freed (render_from fuel h at dangling)
unfolding render_from
render_from-Freed fuel h none = refl
render_from-Freed zero h (some p) = tt
render_from-Freed (suc fuel) h (some p) =
    bind-Freed (h p) _
      λ b. bind-Freed (past_block fuel h p b) _ λ at. rest at (render_from-Freed fuel h)
  where
    rest :
        (at : Option Address)
        → ((next : Option Address) → Freed (render_from fuel h next dangling))
        → Freed (elim at [
          | none ↦ some dangling
          | some q ↦ do c ← h q; out' ← put_block c.content dangling; render_from fuel h c.suiv out'
        ])
    rest none rec = refl
    rest (some q) rec = bind-Freed (h q) _ λ c.
        later-Freed (put_block c.content dangling) (render_from fuel h c.suiv)
          (put_block-Freed c.content.kind c.content.data_bytes c.content.name c.content.alloc)
          (rec c.suiv)

Freed-fault : (o : Option Output) (s : Page) → Freed o → (o >>= push_result s) ≡ none
Freed-fault none s f = refl
Freed-fault (some out) s f = rw f refl

-- The state that a call leaves.
abbrev result_of : Option (List ℕ × Page) → Output
result_of none = dangling
result_of (some r) = r.1.result

abbrev text_size : Option (List ℕ × Page) → ℕ
text_size none = 0
text_size (some r) = length r.0

after_push :
    (o : Option Output) (s s' : Page) (c : ℕ) (text : List ℕ)
    → (o >>= push_result s) ≡ some (c ∷ text, s')
    → s'.result ≡ dangling
after_push none s s' c text e = cc
after_push (some null) s s' c text e = absurd (omega (arith, ap text_size e))
after_push (some (bytes out)) s s' c text e = sym (ap result_of e)
after_push (some dangling) s s' c text e = cc

-- Behind a `render` that gave Lua a text that is not empty, the next `render` of the page always
-- uses freed memory, whatever the page holds.
pub lrender-lrender :
    (s s' : Page) (c : ℕ) (text : List ℕ) → lrender s ≡ some (c ∷ text, s') → lrender s' ≡ none
unfolding lrender render
lrender-lrender s s' c text e =
    ap (λ out. render_from s'.mem.fresh s'.mem.heap s'.head out >>= push_result s')
      (after_push (render s.mem s.head s.result) s s' c text e)
    ∙ Freed-fault (render_from s'.mem.fresh s'.mem.heap s'.head dangling) s'
        (render_from-Freed s'.mem.fresh s'.mem.heap s'.head)
