-- ===== src/Webpage/Pieces.antt =====
-- One piece of a template under `parse` of lua-webpage.c: text, a variable, a mark of a part.
use quick.Webpage.Sorter.{Sorter}
use quick.Prelude.{
  ℕ, zero, suc, ◌+◌, ◌<◌, ◌≡◌, ap, ◌∙◌, none, some, List, [], ◌∷◌, ◌++◌, length, drop, codes, arith,
  append-nil, c_string,
}
use quick.Webpage.Blocks.{Address, Content, html_content, var_content, Heap, Memory}
use quick.Webpage.Names.{Table}
use quick.Webpage.Parse.{
  Parser, Parsed, parsed, parse_step, parse_var, parse_comment, finish, parse_from, start,
  emit_comment, read_name, read_word, skip_space,
}
use quick.Webpage.Chain.{last, numbered}
use quick.Webpage.Template.{
  Mark, opening, closing, Plain, VarName, BlockName, mark_word, mark_kind, marked,
}
use quick.Webpage.Lexing.{
  between_lem, drop_front, read_name_lem, read_token, read_block_name, comment_kind_lem,
  to_close_lem, block_name_whole,
}
use quick.Webpage.Build.{Open, grown, emit_lem, emit-Open}

abbrev pub at : Memory → Address → List ℕ → List ℕ → Table → Table → Parser
at m pst offset pos vars blocks = record {
  mem = m;
  pst = pst;
  offset = offset;
  pos = pos;
  vartable = vars;
  blocktable = blocks;
}

module _ ⦃sorter : Sorter⦄ where
  -- With a round for each byte that is left and one more, the loop ends with `r`.
  abbrev pub Runs : Parser → Parsed → Type 0
  Runs p r = (fuel : ℕ) → length p.pos < fuel → parse_from fuel p ≡ r

  pub Runs-step :
      (m : Memory) (pst : Address) (offset : List ℕ) (c : ℕ) (rest : List ℕ) (vars blocks : Table)
      (q : Parser) (r : Parsed)
      → parse_step (at m pst offset (c ∷ rest) vars blocks) ≡ some q
      → length q.pos < suc (length rest)
      → Runs q r
      → Runs (at m pst offset (c ∷ rest) vars blocks) r
  unfolding parse_from
  Runs-step m pst offset c rest vars blocks q r e less runs zero lt = absurd (omega arith)
  Runs-step m pst offset c rest vars blocks q r e less runs (suc fuel) lt =
      rw (e, parse_from) (runs fuel (omega arith))

  pub Runs-end :
      (m : Memory) (pst : Address) (offset : List ℕ) (vars blocks : Table) (q : Parser)
      → finish (at m pst offset [] vars blocks) ≡ some q
      → Runs (at m pst offset [] vars blocks) (parsed q)
  unfolding parse_from
  Runs-end m pst offset vars blocks q e zero lt = absurd (omega arith)
  Runs-end m pst offset vars blocks q e (suc fuel) lt = rw e

  -- Text in which no mark starts is passed over.
  pub Runs-Plain :
      (u next : List ℕ) (m : Memory) (pst : Address) (offset : List ℕ) (vars blocks : Table)
      (r : Parsed)
      → Plain u next
      → Runs (at m pst offset next vars blocks) r
      → Runs (at m pst offset (u ++ next) vars blocks) r
  unfolding parse_step
  Runs-Plain [] next m pst offset vars blocks r plain runs = runs
  Runs-Plain (c ∷ u) next m pst offset vars blocks r plain runs =
      Runs-step m pst offset c (u ++ next) vars blocks (at m pst offset (u ++ next) vars blocks) r
        (rw (plain.0, plain.1)) (omega arith)
        (Runs-Plain u next m pst offset vars blocks r plain.2 runs)

-- The two emits for a variable and for a mark, behind text `s`.
module _ (h0 : Heap) (base : Address) (cs : List Content) (m : Memory) (pst : Address)
    (v : Open h0 base cs m pst) (s : List ℕ) where
  pub m1 : Memory
  m1 = grown m pst (last (numbered base cs) none) (html_content s)

  pub v1 : Open h0 base (cs ++ (html_content s ∷ [])) m1 m.fresh
  unfolding m1
  v1 = emit-Open h0 base cs m pst v (html_content s)

  pub m2 : Content → Memory
  m2 c = grown m1 m.fresh (last (numbered base (cs ++ (html_content s ∷ []))) none) c

  pub v2 : (c : Content) → Open h0 base ((cs ++ (html_content s ∷ [])) ++ (c ∷ [])) (m2 c) m1.fresh
  unfolding m2
  v2 c = emit-Open h0 base (cs ++ (html_content s ∷ [])) m1 m.fresh v1 c

  pub parse_var_lem :
      (n r next : List ℕ) (vars blocks : Table)
      → next ≡ codes "##" ++ (n ++ (codes "##" ++ r))
      → VarName n
      → parse_var (at m pst (s ++ next) next vars blocks)
        ≡ some (
            at
              (m2 (var_content n))
              m1.fresh
              r
              (drop 1 r)
              (vars ++ (record { name = n; block_at = m.fresh } ∷ []))
              blocks)
  unfolding parse_var m1 m2
  parse_var_lem n r next vars blocks e ok =
      let read : read_name 100 (drop 2 next) ≡ n =
        ap (λ t. read_name 100 (drop 2 t)) e ∙ read_name_lem 100 n (codes "#" ++ r) ok.0 ok.1 in
      let behind : drop (length n + 2) (drop 2 next) ≡ r =
        ap (λ t. drop (length n + 2) (drop 2 t)) e ∙ drop_front n b'#' b'#' r in
      rw (
        between_lem s next,
        emit_lem h0 base cs m pst v (html_content s) (s ++ next) next vars blocks,
        read,
        emit_lem h0 base (cs ++ (html_content s ∷ [])) m1 m.fresh v1 (var_content n) (s ++ next)
            next vars blocks,
        behind,
      )

  -- The entry of a part, which only its BeginBlock makes.
  abbrev pub begun : Mark → List ℕ → Table
  begun opening n = record { name = n; block_at = m.fresh } ∷ []
  begun closing n = []

  emit_mark :
      (k : Mark) (n start rest offset pos : List ℕ) (vars blocks : Table)
      → emit_comment (some (mark_kind k)) n start rest (at m1 m.fresh offset pos vars blocks)
        ≡ some (
            at
              (m2 (marked k (c_string n)))
              m1.fresh
              offset
              pos
              vars
              (blocks ++ begun k (c_string n)))
  unfolding emit_comment m1 m2
  emit_mark opening n start rest offset pos vars blocks = rw (
      emit_lem h0 base (cs ++ (html_content s ∷ [])) m1 m.fresh v1 (marked opening (c_string n))
        offset pos vars blocks)
  emit_mark closing n start rest offset pos vars blocks = rw (
    emit_lem h0 base (cs ++ (html_content s ∷ [])) m1 m.fresh v1 (marked closing (c_string n))
        offset pos vars blocks,
    append-nil blocks,
  )

  pub parse_comment_lem :
      (k : Mark) (n r next : List ℕ) (vars blocks : Table)
      → next ≡ codes "<!-- " ++ (mark_word k ++ (codes " " ++ (n ++ (codes " -->" ++ r))))
      → BlockName n
      → parse_comment (at m pst (s ++ next) next vars blocks)
        ≡ some (at (m2 (marked k n)) m1.fresh r r vars (blocks ++ begun k n))
  unfolding parse_comment m1
  parse_comment_lem k n r next vars blocks e ok =
      let token : read_word 100 (skip_space (drop 4 next))
          ≡ some (mark_word k, codes " " ++ (n ++ (codes " -->" ++ r))) =
        ap (λ t. read_word 100 (skip_space (drop 4 t))) e
        ∙ read_token k (n ++ (codes " -->" ++ r)) in
      let whole = block_name_whole n ok.0 in
      let done : emit_comment (some (mark_kind k)) n next (b'>' ∷ r)
            (at m1 m.fresh (s ++ next) next vars blocks)
          ≡ some (at (m2 (marked k n)) m1.fresh (s ++ next) next vars (blocks ++ begun k n)) =
        emit_mark k n next (b'>' ∷ r) (s ++ next) next vars blocks
        ∙ ap (λ w. some (at (m2 (marked k w)) m1.fresh (s ++ next) next vars (blocks ++ begun k w)))
            whole in
      rw
        (
          between_lem s next,
          emit_lem h0 base cs m pst v (html_content s) (s ++ next) next vars blocks,
          token,
          read_block_name n r ok.0 ok.1 ok.2,
          to_close_lem r,
          comment_kind_lem k,
        )
        (rw done)
