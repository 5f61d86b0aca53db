-- ===== src/Webpage/Parse.antt =====
-- `parse` of lua-webpage.c. A pointer into the text is the rest of the text from it, so `pos` and
-- `offset` are two such rests; behind the end stands the NUL, and reading further is a fault.
use quick.Webpage.Sorter.{Sorter, qsort}
use quick.Prelude.{
  ℕ, zero, suc, ◌+◌, ◌-◌, Bool, true, false, ◌&&◌, ◌||◌, Option, none, some, List, [], ◌∷◌, ◌++◌,
  ◌==◌, if◌then◌else◌, length, take, drop, codes, c_string, isspace, ◌>>=◌,
}
use quick.Webpage.Blocks.{
  Address, Kind, html, var, begin_block, end_block, Content, block, blank, html_content,
  var_content, write, Memory, set_suiv, set_content,
}
use quick.Webpage.Names.{Table, same_name}

-- TNOM
abbrev pub tnom : ℕ
tnom = 100

-- `pst` is the block under construction, the last of the list.
pub record Parser : Type 0 where
  pub mem : Memory
  pub pst : Address
  pub offset : List ℕ
  pub pos : List ℕ
  pub vartable : Table
  pub blocktable : Table

-- `pst->suiv` becomes a new block of zeros, `pst` gets its content, and the new block is `pst`.
unfoldable pub emit : Content → Parser → Option Parser
emit c p = do
  b ← p.mem.heap p.pst
  some (record p {
    mem = record {
      heap =
          write (write p.mem.heap p.mem.fresh (some (block (some p.pst) none blank))) p.pst
            (some (record b { suiv = some p.mem.fresh; content = c }));
      fresh = suc p.mem.fresh;
    };
    pst = p.mem.fresh;
  })

-- The text from `offset` up to `pos`.
abbrev pub between : List ℕ → List ℕ → List ℕ
between offset pos = take (length offset - length pos) offset

-- The two tests at `pos`.
unfoldable pub at_var : List ℕ → Bool
at_var [] = false
at_var (a ∷ []) = false
at_var (a ∷ b ∷ r) = a == b'#' && b == b'#'

unfoldable pub at_comment : List ℕ → Bool
at_comment (a ∷ b ∷ c ∷ d ∷ r) = (a == b'<' && b == b'!') && (c == b'-' && d == b'-')
at_comment _ = false

-- The name of a variable, up to a NUL or `#`, with `TNOM - namelen` rounds left.
unfoldable pub read_name : ℕ → List ℕ → List ℕ
read_name zero text = []
read_name (suc n) [] = []
read_name (suc n) (c ∷ text) = if c == 0 || c == b'#' then [] else c ∷ read_name n text

-- A word of a comment and what follows. The NUL at the end is taken for a letter, so the next
-- byte that is read lies outside.
abbrev pub ends_word : ℕ → Bool
ends_word c = (c == b'-' || c == b'>') || isspace c

unfoldable pub read_word : ℕ → List ℕ → Option (List ℕ × List ℕ)
read_word zero text = some ([], text)
read_word (suc n) [] = none
read_word (suc n) (c ∷ text) = elim (ends_word c) [
  | true ↦ some ([], c ∷ text)
  | false ↦ elim (read_word n text) [ none ↦ none | some r ↦ some (c ∷ r.0, r.1) ]
]

unfoldable pub skip_space : List ℕ → List ℕ
skip_space [] = []
skip_space (c ∷ text) = if isspace c then skip_space text else c ∷ text

-- `while (!(m_buf.pch[pos] == '>' || m_buf.pch[pos] == '#')) pos++;`
unfoldable pub to_close : List ℕ → Option (List ℕ)
to_close [] = none
to_close (c ∷ text) = if c == b'>' || c == b'#' then some (c ∷ text) else to_close text

-- From `##` on: the text before it, the variable, and the cursor one byte behind the two bytes
-- after the name.
abbrev pub note_var : List ℕ → List ℕ → Parser → Parser → Parser
note_var name rest p q = record q {
  vartable = p.vartable ++ (record { name = name; block_at = p.pst } ∷ []);
  offset = rest;
  pos = drop 1 rest;
}

unfoldable pub parse_var : Parser → Option Parser
parse_var p = do
  q ← emit (html_content (between p.offset p.pos)) p
  let name = read_name tnom (drop 2 p.pos)
  r ← emit (var_content name) q
  some (note_var name (drop (length name + 2) (drop 2 p.pos)) q r)

-- What a comment is: a mark of a block, or text.
unfoldable pub comment_kind : List ℕ → Option Kind
comment_kind token =
    if same_name (c_string token) (codes "#BeginBlock")
    then some begin_block
    else if same_name (c_string token) (codes "#EndBlock")
    then some end_block
    else none

abbrev pub mark_content : Kind → List ℕ → Content
mark_content kind name = record blank { kind = kind; name = some (c_string name) }

-- BeginBlock alone goes into the table.
abbrev pub note_block : Kind → List ℕ → Address → Table → Table
note_block begin_block name pst table =
    table ++ (record { name = c_string name; block_at = pst } ∷ [])
note_block html name pst table = table
note_block var name pst table = table
note_block end_block name pst table = table

-- `rest` starts at the `>` or `#` that ends the comment, `start` at its `<`.
unfoldable pub emit_comment : Option Kind → List ℕ → List ℕ → List ℕ → Parser → Option Parser
emit_comment none name start rest p =
    emit (html_content (take (length start - length rest + 1) start)) p
emit_comment (some kind) name start rest p = do
  q ← emit (mark_content kind name) p
  some (record q { blocktable = note_block kind name p.pst p.blocktable })

unfoldable pub parse_comment : Parser → Option Parser
parse_comment p = do
  q ← emit (html_content (between p.offset p.pos)) p
  (token, after_token) ← read_word tnom (skip_space (drop 4 p.pos))
  (name, after_name) ← read_word tnom (skip_space after_token)
  rest ← to_close after_name
  r ← emit_comment (comment_kind token) name p.pos rest q
  some (record r { offset = drop 1 rest; pos = drop 1 rest })

-- One round of the loop.
unfoldable pub parse_step : Parser → Option Parser
parse_step p =
    if at_var p.pos
    then parse_var p
    else if at_comment p.pos
    then parse_comment p
    else some (record p { pos = drop 1 p.pos })

module _ ⦃sorter : Sorter⦄ where
  -- The end: what is left is text, and the tables are sorted.
  unfoldable pub finish : Parser → Option Parser
  finish p = elim (p.offset) [
    | [] ↦ some (record p { vartable = qsort p.vartable; blocktable = qsort p.blocktable })
    | c ∷ rest ↦ do
      h ← set_suiv p.pst none p.mem.heap
      h' ← set_content p.pst (html_content (c ∷ rest)) h
      some (record p {
        mem = record { heap = h'; fresh = p.mem.fresh };
        vartable = qsort p.vartable;
        blocktable = qsort p.blocktable;
      })
  ]

-- `fault` is a read outside the text, `stuck` a loop without fuel.
pub data Parsed : Type 0 where
  stuck fault : Parsed
  parsed : Parser → Parsed

abbrev pub to_parsed : Option Parser → Parsed
to_parsed none = fault
to_parsed (some p) = parsed p

module _ ⦃sorter : Sorter⦄ where
  unfoldable pub parse_from : ℕ → Parser → Parsed
  parse_from zero p = stuck
  parse_from (suc fuel) p = elim (p.pos) [
    | [] ↦ to_parsed (finish p)
    | c ∷ rest ↦ elim (parse_step p) [ none ↦ fault | some q ↦ parse_from fuel q ]
  ]

-- The head block, then the loop.
abbrev pub start : List ℕ → Memory → Parser
start text m = record {
  mem = record { heap = write m.heap m.fresh (some (block none none blank)); fresh = suc m.fresh };
  pst = m.fresh;
  offset = text;
  pos = text;
  vartable = [];
  blocktable = [];
}

module _ ⦃sorter : Sorter⦄ where
  unfoldable pub parse : List ℕ → Memory → Parsed
  parse text m = parse_from (suc (length text)) (start text m)
