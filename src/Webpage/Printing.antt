-- ===== src/Webpage/Printing.antt =====
-- What a list of blocks prints, said without the memory of lua-webpage.c, and the result behind it.
use quick.Prelude.{
  ℕ, ◌≡◌, refl, sym, ap, true, false, Option, none, some, List, [], ◌∷◌, ◌++◌, append_assoc,
  append-nil,
}
use quick.Webpage.Blocks.{html, var, begin_block, end_block, Content}
use quick.Webpage.Render.{Output, null, bytes, dangling, append_data, put_data, ends_block}
use quick.Webpage.Chain.{Cells}

abbrev pub bytes_of : Option (List ℕ) → List ℕ
bytes_of none = []
bytes_of (some d) = d

-- The text of the contents; inside a part, whose name is kept, nothing is printed up to its end.
unfoldable pub printed : Option (List ℕ) → List Content → List ℕ
printed inside [] = []
printed (some name) (c ∷ cs) = elim (ends_block c name) [
  | true ↦ printed none cs
  | false ↦ printed (some name) cs
]
printed none (c ∷ cs) = elim (c.kind) [
  | html ↦ bytes_of c.data_bytes ++ printed none cs
  | var ↦ bytes_of c.data_bytes ++ printed none cs
  | begin_block ↦ printed c.name cs
  | end_block ↦ printed none cs
]

-- A block that begins a part has a name.
abbrev pub IsNamed : Content → Type 0
IsNamed c = c.kind ≡ begin_block → (name : List ℕ) × (c.name ≡ some name)

abbrev pub AllNamed : Cells → Type 0
AllNamed [] = Unit
AllNamed ((p, c) ∷ xs) = IsNamed c × AllNamed xs

-- `result` with more text behind it.
abbrev pub extend : Output → List ℕ → Output
extend null [] = null
extend null (c ∷ s) = bytes (c ∷ s)
extend (bytes out) s = bytes (out ++ s)
extend dangling s = dangling

-- `result` has not been freed.
abbrev pub IsLive : Output → Type 0
IsLive null = Unit
IsLive (bytes out) = Unit
IsLive dangling = ⊥

pub extend_nil : (out : Output) → extend out [] ≡ out
extend_nil null = refl
extend_nil (bytes out) = ap bytes (append-nil out)
extend_nil dangling = refl

pub extend-extend : (out : Output) (s t : List ℕ) → extend (extend out s) t ≡ extend out (s ++ t)
extend-extend null [] t = refl
extend-extend null (c ∷ s) t = refl
extend-extend (bytes out) s t = ap bytes (append_assoc out s t)
extend-extend dangling s t = refl

pub extend-IsLive : (out : Output) (s : List ℕ) → IsLive out → IsLive (extend out s)
extend-IsLive null [] live = tt
extend-IsLive null (c ∷ s) live = tt
extend-IsLive (bytes out) s live = tt
extend-IsLive dangling s live = live

pub put_data_lem :
    (d : Option (List ℕ)) (out : Output)
    → IsLive out
    → put_data d out ≡ some (extend out (bytes_of d))
unfolding put_data append_data
put_data_lem none out live = ap some (sym (extend_nil out))
put_data_lem (some []) out live = ap some (sym (extend_nil out))
put_data_lem (some (c ∷ d)) null live = refl
put_data_lem (some (c ∷ d)) (bytes out) live = refl
put_data_lem (some (c ∷ d)) dangling live = absurd live
