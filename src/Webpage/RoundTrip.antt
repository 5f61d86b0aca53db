-- ===== src/Webpage/RoundTrip.antt =====
-- `parse` of lua-webpage.c on the texts of well-formed templates.
use quick.Webpage.Sorter.{Sorter, qsort}
use quick.Prelude.{
  length-drop, ℕ, suc, ◌+◌, ◌<◌, ◌≡◌, refl, sym, subst, ap, ◌∙◌, none, some, List, [], ◌∷◌, ◌++◌,
  length, drop, codes, arith, length-append, append_assoc, append-nil,
}
use quick.Webpage.Blocks.{
  Address, var, begin_block, Content, block, blank, html_content, var_content, Heap, Memory,
}
use quick.Webpage.Names.{Table}
use quick.Webpage.Parse.{Parser, Parsed, parsed, parse_step, parse, at_var, at_comment}
use quick.Webpage.Chain.{Chain, numbered, write_self, write_other}
use quick.Webpage.Template.{
  Template, text, with_var, with_mark, Mark, opening, closing, lead, rest_of, source, Plain,
  Follows, VarName, BlockName, WellFormed, mark_word, mark_kind, marked, contents_of, last_content,
  entries, entry_of,
}
use quick.Webpage.Build.{Open, finish_lem}
use quick.Webpage.Entries.{entries_last, entries_piece, mark_entry}
use quick.Webpage.Pieces.{
  at, Runs, Runs-step, Runs-end, Runs-Plain, m1, m2, v2, begun, parse_var_lem, parse_comment_lem,
}

module _ ⦃sorter : Sorter⦄ where
  -- What `parse` leaves of the contents `ds`, above the memory `h0`.
  pub record ReadBack (h0 : Heap) (base : Address) (ds : List Content) (q : Parser) : Type 0 where
    pub chain : Chain q.mem.heap none (numbered base ds) none
    pub variables : q.vartable ≡ qsort (entries var (numbered base ds))
    pub parts : q.blocktable ≡ qsort (entries begin_block (numbered base ds))
    pub next_fresh : q.mem.fresh ≡ base + length ds
    pub below : (a : Address) → a < base → q.mem.heap a ≡ h0 a

  -- Behind a variable the cursor stands one byte on.
  cut_text :
      (t : Template)
      → Follows t
      → WellFormed t
      → (u : List ℕ) × (drop 1 (source t) ≡ u ++ rest_of t) × Plain u (rest_of t)
  cut_text (text []) f w = ([], refl, tt)
  cut_text (text (c ∷ u)) f w = (u, refl, w.2)
  cut_text (with_var [] n t) f w = absurd (omega arith)
  cut_text (with_var (c ∷ u) n t) f w = (u, refl, w.0.2)
  cut_text (with_mark [] m n t) f w = absurd (omega arith)
  cut_text (with_mark (c ∷ u) m n t) f w = (u, refl, w.0.2)

  Plain-lead : (t : Template) → WellFormed t → Plain (lead t) (rest_of t)
  Plain-lead (text s) w = w
  Plain-lead (with_var s n t) w = w.0
  Plain-lead (with_mark s m n t) w = w.0

  module _ (h0 : Heap) (base : Address) where
    finish-ReadBack :
        (s : List ℕ) (cs : List Content) (m : Memory) (pst : Address) (vars blocks : Table)
        → Open h0 base cs m pst
        → vars ≡ entries var (numbered base cs)
        → blocks ≡ entries begin_block (numbered base cs)
        → (q : Parser) × Runs (at m pst (s ++ []) [] vars blocks) (parsed q)
          × ReadBack h0 base (cs ++ (last_content s ∷ [])) q
    finish-ReadBack s cs m pst vars blocks v ev eb =
        let (q, e, evars, eblocks, fresh, chain, below) =
          finish_lem h0 base cs m pst v (s ++ []) [] vars blocks in
        let same : last_content (s ++ []) ≡ last_content s = ap last_content (append-nil s) in
        (
          q,
          Runs-end m pst (s ++ []) vars blocks q e,
          record {
            chain =
                subst (λ c. Chain q.mem.heap none (numbered base (cs ++ (c ∷ []))) none) same chain;
            variables = evars ∙ ap qsort (ev ∙ sym (entries_last var base cs s));
            parts = eblocks ∙ ap qsort (eb ∙ sym (entries_last begin_block base cs s));
            next_fresh =
                omega (arith, fresh, v.next_fresh, v.place, length-append cs (last_content s ∷ []));
            below = below;
          },
        )

    -- With the contents of a piece in front, the blocks of the rest are the blocks of the whole.
    regroup :
        (cs : List Content) (a b : Content) (ds : List Content) (q : Parser)
        → ReadBack h0 base (((cs ++ (a ∷ [])) ++ (b ∷ [])) ++ ds) q
        → ReadBack h0 base (cs ++ (a ∷ b ∷ ds)) q
    regroup cs a b ds q =
        subst (λ es. ReadBack h0 base es q)
          (append_assoc (cs ++ (a ∷ [])) (b ∷ []) ds ∙ append_assoc cs (a ∷ []) (b ∷ ds))

    step_var :
        (s n : List ℕ) (t : Template) (cs : List Content) (m : Memory) (pst : Address)
        (vars blocks : Table) (v : Open h0 base cs m pst)
        → VarName n
        → (u : List ℕ) → drop 1 (source t) ≡ u ++ rest_of t
        → (r : Parsed)
        → Runs
            (at
              (m2 h0 base cs m pst v s (var_content n))
              (m1 h0 base cs m pst v s).fresh
              (source t)
              (u ++ rest_of t)
              (vars ++ (record { name = n; block_at = m.fresh } ∷ []))
              blocks)
            r
        → Runs (at m pst (s ++ rest_of (with_var s n t)) (rest_of (with_var s n t)) vars blocks) r
    unfolding parse_step at_var
    step_var s n t cs m pst vars blocks v ok u cut r runs =
        Runs-step m pst (s ++ rest_of (with_var s n t)) b'#'
          (codes "#" ++ (n ++ (codes "##" ++ source t))) vars blocks
          (at (m2 h0 base cs m pst v s (var_content n)) (m1 h0 base cs m pst v s).fresh (source t)
            (drop 1 (source t)) (vars ++ (record { name = n; block_at = m.fresh } ∷ [])) blocks)
          r
          (parse_var_lem h0 base cs m pst v s n (source t) (rest_of (with_var s n t)) vars blocks
            refl ok)
          (omega (arith, length-drop 1 (source t), length-append n (codes "##" ++ source t)))
          (subst
            (λ p.
              Runs
                (at (m2 h0 base cs m pst v s (var_content n)) (m1 h0 base cs m pst v s).fresh
                  (source t) p (vars ++ (record { name = n; block_at = m.fresh } ∷ [])) blocks)
                r)
            (sym cut) runs)

    step_mark :
        (s : List ℕ) (k : Mark) (n : List ℕ) (t : Template) (cs : List Content) (m : Memory)
        (pst : Address) (vars blocks : Table) (v : Open h0 base cs m pst)
        → BlockName n
        → (r : Parsed)
        → Runs
            (at
              (m2 h0 base cs m pst v s (marked k n))
              (m1 h0 base cs m pst v s).fresh
              (source t)
              (source t)
              vars
              (blocks ++ begun h0 base cs m pst v s k n))
            r
        → Runs
            (at m pst (s ++ rest_of (with_mark s k n t)) (rest_of (with_mark s k n t)) vars blocks)
            r
    unfolding parse_step at_var at_comment
    step_mark s k n t cs m pst vars blocks v ok r runs =
        Runs-step m pst (s ++ rest_of (with_mark s k n t)) b'<'
          (codes "!-- " ++ (mark_word k ++ (codes " " ++ (n ++ (codes " -->" ++ source t))))) vars
          blocks
          (at (m2 h0 base cs m pst v s (marked k n)) (m1 h0 base cs m pst v s).fresh (source t)
            (source t) vars (blocks ++ begun h0 base cs m pst v s k n))
          r
          (parse_comment_lem h0 base cs m pst v s k n (source t) (rest_of (with_mark s k n t)) vars
            blocks refl ok)
          (omega (
            arith,
            length-append (mark_word k) (codes " " ++ (n ++ (codes " -->" ++ source t))),
            length-append n (codes " -->" ++ source t),
          ))
          runs

    begun_entry :
        (cs : List Content) (m : Memory) (pst : Address) (v : Open h0 base cs m pst) (s : List ℕ)
        (k : Mark) (n : List ℕ)
        → begun h0 base cs m pst v s k n ≡ entry_of begin_block (mark_kind k) (some n) m.fresh
    begun_entry cs m pst v s opening n = refl
    begun_entry cs m pst v s closing n = refl

    read_back :
        (t : Template) (u : List ℕ) (cs : List Content) (m : Memory) (pst : Address)
        (vars blocks : Table)
        → WellFormed t
        → Plain u (rest_of t)
        → Open h0 base cs m pst
        → vars ≡ entries var (numbered base cs)
        → blocks ≡ entries begin_block (numbered base cs)
        → (q : Parser) × Runs (at m pst (source t) (u ++ rest_of t) vars blocks) (parsed q)
          × ReadBack h0 base (cs ++ contents_of t) q
    read_back (text s) u cs m pst vars blocks w plain v ev eb =
        let (q, runs, back) = finish-ReadBack s cs m pst vars blocks v ev eb in
        (q, Runs-Plain u [] m pst (s ++ []) vars blocks (parsed q) plain runs, back)
    read_back (with_var s n t) u cs m pst vars blocks w plain v ev eb =
        let (u', cut, plain') = cut_text t w.2 w.3 in
        let c = var_content n in
        let place : m.fresh ≡ suc (base + length cs) = omega (arith, v.next_fresh, v.place) in
        let vars' = vars ++ (record { name = n; block_at = m.fresh } ∷ []) in
        let (q, runs, back) =
          read_back t u' ((cs ++ (html_content s ∷ [])) ++ (c ∷ [])) (m2 h0 base cs m pst v s c)
            (m1 h0 base cs m pst v s).fresh vars' blocks w.3 plain' (v2 h0 base cs m pst v s c)
            (ap (λ x. x ++ entry_of var var (some n) m.fresh) ev
              ∙ sym (entries_piece var base cs s c m.fresh place))
            (eb
              ∙ sym (append-nil (entries begin_block (numbered base cs)))
              ∙ sym (entries_piece begin_block base cs s c m.fresh place)) in
        (
          q,
          Runs-Plain u (rest_of (with_var s n t)) m pst (s ++ rest_of (with_var s n t)) vars blocks
              (parsed q) plain (step_var s n t cs m pst vars blocks v w.1 u' cut (parsed q) runs),
          regroup cs (html_content s) c (contents_of t) q back,
        )
    read_back (with_mark s k n t) u cs m pst vars blocks w plain v ev eb =
        let c = marked k n in
        let place : m.fresh ≡ suc (base + length cs) = omega (arith, v.next_fresh, v.place) in
        let (q, runs, back) =
          read_back t (lead t) ((cs ++ (html_content s ∷ [])) ++ (c ∷ []))
            (m2 h0 base cs m pst v s c) (m1 h0 base cs m pst v s).fresh vars
            (blocks ++ begun h0 base cs m pst v s k n) w.2 (Plain-lead t w.2)
            (v2 h0 base cs m pst v s c)
            (ev
              ∙ sym (append-nil (entries var (numbered base cs)))
              ∙ ap (λ x. entries var (numbered base cs) ++ x) (sym (mark_entry k n m.fresh))
              ∙ sym (entries_piece var base cs s c m.fresh place))
            (ap (λ x. x ++ begun h0 base cs m pst v s k n) eb
              ∙ ap (λ x. entries begin_block (numbered base cs) ++ x) (begun_entry cs m pst v s k n)
              ∙ sym (entries_piece begin_block base cs s c m.fresh place)) in
        (
          q,
          Runs-Plain u (rest_of (with_mark s k n t)) m pst (s ++ rest_of (with_mark s k n t)) vars
              blocks (parsed q) plain
              (step_mark s k n t cs m pst vars blocks v w.1 (parsed q) runs),
          regroup cs (html_content s) c (contents_of t) q back,
        )

  -- The text of a well-formed template is parsed without a fault, within a round for each byte and
  -- one more. The blocks are the pieces in order, linked in both directions, at the addresses from
  -- the first free one on; the tables hold the variables and the parts, sorted by name; the memory
  -- below is as it was.
  pub parse-source :
      (t : Template) (m : Memory)
      → WellFormed t
      → (q : Parser) × (parse (source t) m ≡ parsed q) × ReadBack m.heap m.fresh (contents_of t) q
  unfolding parse
  parse-source t m w =
      let (q, runs, back) =
        read_back m.heap m.fresh t (lead t) [] _ m.fresh [] [] w (Plain-lead t w)
          (record {
            chain = tt;
            here = write_self m.heap m.fresh (some (block none none blank));
            place = omega arith;
            next_fresh = refl;
            below = λ a lt. write_other m.heap m.fresh _ a (omega arith);
          })
          refl refl in
      (q, runs (suc (length (source t))) (omega arith), back)
