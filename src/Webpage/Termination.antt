-- ===== src/Webpage/Termination.antt =====
-- The loop of `parse` in lua-webpage.c, on well-formed texts and others.
use quick.Webpage.Sorter.{Sorter}
use quick.Prelude.{
  ℕ, zero, suc, ◌+◌, ◌≤◌, ◌<◌, ◌≡◌, ◌≢◌, refl, Bool, true, false, Option, none, some, List, [], ◌∷◌,
  length, ap, length-drop, Bool-cases, inl, inr, drop, arith, ◌>>=◌,
}
use quick.Webpage.Blocks.{Address, Memory, html_content, var_content}
use quick.Webpage.Names.{Table}
use quick.Webpage.Parse.{
  ends_word, Parser, start, emit, between, at_var, at_comment, read_name, tnom, read_word,
  skip_space, to_close, parse_var, parse_comment, comment_kind, emit_comment, parse_step, finish,
  stuck, fault, to_parsed, parse_from, parse,
}

skip_space_le : (s : List ℕ) → length (skip_space s) ≤ length s
unfolding skip_space
skip_space_le [] = omega arith
skip_space_le (c ∷ s) = grind (arith, skip_space_le s)

-- What is ahead of a word.
abbrev ahead : Option (List ℕ × List ℕ) → ℕ
ahead none = 0
ahead (some r) = length r.1

ahead-read_word : (n : ℕ) (s : List ℕ) → ahead (read_word n s) ≤ length s
unfolding read_word
ahead-read_word zero s = omega arith
ahead-read_word (suc n) [] = omega arith
ahead-read_word (suc n) (c ∷ s) = either (ends_word c) (read_word n s) (ahead-read_word n s)
  where
    either :
        (b : Bool) (o : Option (List ℕ × List ℕ))
        → ahead o ≤ length s
        → ahead (elim b [
          | true ↦ some ([], c ∷ s)
          | false ↦ elim o [ none ↦ none | some r ↦ some (c ∷ r.0, r.1) ]
        ])
          ≤ suc (length s)
    either true o le = omega arith
    either false none le = omega arith
    either false (some r) le = omega arith

read_word_le :
    (n : ℕ) (s word rest : List ℕ) → read_word n s ≡ some (word, rest) → length rest ≤ length s
read_word_le n s word rest e = omega (arith, ahead-read_word n s, ap ahead e)

to_close_le : (s rest : List ℕ) → to_close s ≡ some rest → length rest ≤ length s
unfolding to_close
to_close_le [] rest e = cc
to_close_le (c ∷ s) rest e = grind (arith, to_close_le s rest)

-- If a round succeeds, less than `n` bytes are ahead.
abbrev Shrinks : ℕ → Option Parser → Type 0
Shrinks n none = Unit
Shrinks n (some q) = length q.pos < n

bind-Shrinks :
    {A : Type 0} (n : ℕ) (o : Option A) (k : A → Option Parser)
    → ((x : A) → o ≡ some x → Shrinks n (k x))
    → Shrinks n (o >>= k)
bind-Shrinks n none k f = tt
bind-Shrinks n (some x) k f = f x refl

parse_var-Shrinks : (p : Parser) → 0 < length p.pos → Shrinks (length p.pos) (parse_var p)
unfolding parse_var
parse_var-Shrinks p lt =
    bind-Shrinks (length p.pos) (emit (html_content (between p.offset p.pos)) p) _ λ q e.
      let name = read_name tnom (drop 2 p.pos) in
      bind-Shrinks (length p.pos) (emit (var_content name) q) _ λ r e'. omega (
        arith,
        length-drop 1 (drop (length name + 2) (drop 2 p.pos)),
        length-drop (length name + 2) (drop 2 p.pos),
        length-drop 2 p.pos,
      )

parse_comment-Shrinks : (p : Parser) → 0 < length p.pos → Shrinks (length p.pos) (parse_comment p)
unfolding parse_comment
parse_comment-Shrinks p lt =
    bind-Shrinks (length p.pos) (emit (html_content (between p.offset p.pos)) p) _ λ q e.
      bind-Shrinks (length p.pos) (read_word tnom (skip_space (drop 4 p.pos))) _ λ (token, s1) e1.
        bind-Shrinks (length p.pos) (read_word tnom (skip_space s1)) _ λ (name, s2) e2.
          bind-Shrinks (length p.pos) (to_close s2) _ λ rest e3.
            bind-Shrinks (length p.pos) (emit_comment (comment_kind token) name p.pos rest q) _
              λ r e4. omega (
                arith,
                length-drop 1 rest,
                to_close_le s2 rest e3,
                read_word_le tnom (skip_space s1) name s2 e2,
                skip_space_le s1,
                read_word_le tnom (skip_space (drop 4 p.pos)) token s1 e1,
                skip_space_le (drop 4 p.pos),
                length-drop 4 p.pos,
              )

-- A round makes the text ahead shorter.
parse_step-Shrinks : (p : Parser) → 0 < length p.pos → Shrinks (length p.pos) (parse_step p)
unfolding parse_step
parse_step-Shrinks p lt = elim (Bool-cases (at_var p.pos)) [
  | inl e ↦ rw e (parse_var-Shrinks p lt)
  | inr e ↦ elim (Bool-cases (at_comment p.pos)) [
    | inl e' ↦ rw (e, e') (parse_comment-Shrinks p lt)
    | inr e' ↦ rw (e, e') (omega (arith, length-drop 1 p.pos))
  ]
]

to_parsed-Ends : (o : Option Parser) → to_parsed o ≢ stuck
to_parsed-Ends none e = cc
to_parsed-Ends (some q) e = cc

module _ ⦃sorter : Sorter⦄ where
  after_step :
      (fuel n : ℕ) (o : Option Parser)
      → n ≤ fuel
      → Shrinks n o
      → ((q : Parser) → length q.pos < fuel → parse_from fuel q ≢ stuck)
      → elim o [ none ↦ fault | some q ↦ parse_from fuel q ] ≢ stuck
  after_step fuel n none le less rec = λ e. cc
  after_step fuel n (some q) le less rec = rec q (omega arith)

  round_ends :
      (fuel : ℕ) (m : Memory) (pst : Address) (offset pos : List ℕ) (vars blocks : Table)
      → length pos < suc fuel
      → ((q : Parser) → length q.pos < fuel → parse_from fuel q ≢ stuck)
      → parse_from (suc fuel) (record {
        mem = m;
        pst = pst;
        offset = offset;
        pos = pos;
        vartable = vars;
        blocktable = blocks;
      })
        ≢ stuck
  unfolding parse_from
  round_ends fuel m pst offset [] vars blocks lt rec = to_parsed-Ends (finish _)
  round_ends fuel m pst offset (c ∷ s) vars blocks lt rec =
      after_step fuel (suc (length s)) (parse_step _) (omega arith)
        (parse_step-Shrinks
          (record {
            mem = m;
            pst = pst;
            offset = offset;
            pos = c ∷ s;
            vartable = vars;
            blocktable = blocks;
          })
          (omega arith))
        rec

  parse_from_ends : (fuel : ℕ) (p : Parser) → length p.pos < fuel → parse_from fuel p ≢ stuck
  parse_from_ends zero p lt = λ e. omega arith
  parse_from_ends (suc fuel) p lt =
      round_ends fuel p.mem p.pst p.offset p.pos p.vartable p.blocktable lt (parse_from_ends fuel)

  -- `parse` never runs out of rounds: on every text it ends, with blocks or with a read outside the
  -- text.
  pub parse-Ends : (text : List ℕ) (m : Memory) → parse text m ≢ stuck
  unfolding parse
  parse-Ends text m = parse_from_ends (suc (length text)) (start text m) (omega arith)
