-- ===== src/Webpage/Template.antt =====
-- Templates as a structure of their own: texts with variables and marks of parts between them, the
-- text that is written for each, and the blocks that stand for it. Apart from the code of
-- lua-webpage.c but for its two tests for the start of a mark.
use quick.Prelude.{
  ℕ, ◌≤◌, ◌<◌, ◌≡◌, ◌≢◌, false, Option, some, List, [], ◌∷◌, ◌++◌, length, codes, All,
}
use quick.Webpage.Blocks.{
  Address, Kind, var, begin_block, end_block, Content, blank, html_content, var_content,
}
use quick.Webpage.Names.{Table}
use quick.Webpage.Parse.{at_var, at_comment, ends_word}
use quick.Webpage.Chain.{Cells}

-- BeginBlock and EndBlock.
pub data Mark : Type 0 where
  opening closing : Mark

pub data Template : Type 0 where
  text : List ℕ → Template
  with_var : List ℕ → List ℕ → Template → Template
  with_mark : List ℕ → Mark → List ℕ → Template → Template

-- The text in front of the first variable or mark, and all from there on.
abbrev pub lead : Template → List ℕ
lead (text s) = s
lead (with_var s n t) = s
lead (with_mark s m n t) = s

abbrev pub mark_word : Mark → List ℕ
mark_word opening = codes "#BeginBlock"
mark_word closing = codes "#EndBlock"

abbrev pub rest_of : Template → List ℕ
rest_of (text s) = []
rest_of (with_var s n t) = codes "##" ++ (n ++ (codes "##" ++ (lead t ++ rest_of t)))
rest_of (with_mark s m n t) =
    codes "<!-- " ++ (mark_word m ++ (codes " " ++ (n ++ (codes " -->" ++ (lead t ++ rest_of t)))))

abbrev pub source : Template → List ℕ
source t = lead t ++ rest_of t

-- No variable and no comment starts in a text, read with what follows it.
abbrev pub Plain : List ℕ → List ℕ → Type 0
Plain [] next = Unit
Plain (c ∷ u) next =
    (at_var (c ∷ (u ++ next)) ≡ false) × (at_comment (c ∷ (u ++ next)) ≡ false) × Plain u next

-- A template behind a variable is empty or starts with text.
abbrev pub Follows : Template → Type 0
Follows (text s) = Unit
Follows (with_var s n t) = 0 < length s
Follows (with_mark s m n t) = 0 < length s

abbrev pub VarName : List ℕ → Type 0
VarName n = All (λ c. (c ≢ 0) × (c ≢ b'#')) n × (length n ≤ 100)

abbrev pub BlockName : List ℕ → Type 0
BlockName n = All (λ c. (c ≢ 0) × (ends_word c ≡ false)) n × (0 < length n) × (length n ≤ 100)

abbrev pub WellFormed : Template → Type 0
WellFormed (text s) = Plain s []
WellFormed (with_var s n t) =
    Plain s (rest_of (with_var s n t)) × VarName n × Follows t × WellFormed t
WellFormed (with_mark s m n t) = Plain s (rest_of (with_mark s m n t)) × BlockName n × WellFormed t

abbrev pub mark_kind : Mark → Kind
mark_kind opening = begin_block
mark_kind closing = end_block

abbrev pub marked : Mark → List ℕ → Content
marked m n = record blank { kind = mark_kind m; name = some n }

abbrev pub last_content : List ℕ → Content
last_content [] = blank
last_content (c ∷ s) = html_content (c ∷ s)

abbrev pub contents_of : Template → List Content
contents_of (text s) = last_content s ∷ []
contents_of (with_var s n t) = html_content s ∷ var_content n ∷ contents_of t
contents_of (with_mark s m n t) = html_content s ∷ marked m n ∷ contents_of t

-- The entries of a table for the blocks of one kind.
abbrev pub entry_of : Kind → Kind → Option (List ℕ) → Address → Table
entry_of var var (some n) p = record { name = n; block_at = p } ∷ []
entry_of begin_block begin_block (some n) p = record { name = n; block_at = p } ∷ []
entry_of _ _ _ p = []

abbrev pub entries : Kind → Cells → Table
entries k [] = []
entries k ((p, c) ∷ xs) = entry_of k c.kind c.name p ++ entries k xs
