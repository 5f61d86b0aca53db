-- ===== src/Crab/Longest.antt =====
-- The inner loop of `dict_filter` in lua-crab.c: the words at a place.
use quick.Prelude.{
  ℕ, zero, suc, ◌+◌, ◌≤◌, ◌<◌, ◌≡◌, refl, sym, subst, ◌∙◌, ◌⊎◌, inl, inr, Bool, true, false, Option,
  none, some, List, [], ◌∷◌, ◌==◌, if◌then◌else◌, length, take, arith, Bool-cases, Option-cases,
}
use quick.Crab.{TableNode, terminator, match_from}

module _ {ℓ} {T : Type ℓ} (table_get : T → ℕ → Option (TableNode T)) where
  -- A word leads along the tables to a node that ends words.
  unfoldable pub is_word : T → List ℕ → Bool
  is_word table [] = false
  is_word table (rune ∷ []) = elim (table_get table rune) [
    | none ↦ false
    | some node ↦ node.flag == terminator
  ]
  is_word table (rune ∷ x ∷ runes) = elim (table_get table rune) [
    | none ↦ false
    | some node ↦ elim (node.value) [ none ↦ false | some next ↦ is_word next (x ∷ runes) ]
  ]

  is_word-none :
      (table : T) (rune : ℕ) (w : List ℕ)
      → table_get table rune ≡ none
      → is_word table (rune ∷ w) ≡ false
  unfolding is_word
  is_word-none table rune [] e = rw (e, is_word)
  is_word-none table rune (x ∷ w) e = rw (e, is_word)

  is_word_leaf :
      (table : T) (rune x : ℕ) (w : List ℕ) (node : TableNode T)
      → table_get table rune ≡ some node
      → node.value ≡ none
      → is_word table (rune ∷ x ∷ w) ≡ false
  unfolding is_word
  is_word_leaf table rune x w node e v = rw (e, v, is_word)

  is_word_next :
      (table next : T) (rune x : ℕ) (w : List ℕ) (node : TableNode T)
      → table_get table rune ≡ some node
      → node.value ≡ some next
      → is_word table (rune ∷ x ∷ w) ≡ is_word next (x ∷ w)
  unfolding is_word
  is_word_next table next rune x w node e v = rw (e, v, is_word)

  is_word_one :
      (table : T) (rune : ℕ) (node : TableNode T)
      → table_get table rune ≡ some node
      → is_word table (rune ∷ []) ≡ (node.flag == terminator)
  unfolding is_word
  is_word_one table rune node e = rw (e, is_word)

  abbrev pub NoLonger : T → List ℕ → ℕ → Type 0
  NoLonger table runes m = (k : ℕ) → m < k → k ≤ length runes → is_word table (take k runes) ≡ false

  -- `step'` is what the loop makes of `step` at the runes, `n` places behind its start.
  abbrev pub Longest : T → List ℕ → ℕ → ℕ → ℕ → Type 0
  Longest table runes n step step' =
      (m : ℕ) × NoLonger table runes m
      × (((m ≡ 0) × (step' ≡ step))
          ⊎ ((0 < m)
              × (step' ≡ n + m)
              × (m ≤ length runes)
              × (is_word table (take m runes) ≡ true)))

  word_tail :
      (table next : T) (rune : ℕ) (node : TableNode T) (runes : List ℕ) (k : ℕ)
      → table_get table rune ≡ some node
      → node.value ≡ some next
      → 0 < k
      → k ≤ length runes
      → is_word table (take (suc k) (rune ∷ runes)) ≡ is_word next (take k runes)
  word_tail table next rune node runes zero e v pos le = absurd (omega arith)
  word_tail table next rune node [] (suc k) e v pos le = absurd (omega arith)
  word_tail table next rune node (x ∷ runes) (suc k) e v pos le =
      is_word_next table next rune x (take k runes) node e v

  word_leaf :
      (table : T) (rune : ℕ) (node : TableNode T) (runes : List ℕ) (k : ℕ)
      → table_get table rune ≡ some node
      → node.value ≡ none
      → 0 < k
      → k ≤ length runes
      → is_word table (take (suc k) (rune ∷ runes)) ≡ false
  word_leaf table rune node runes zero e v pos le = absurd (omega arith)
  word_leaf table rune node [] (suc k) e v pos le = absurd (omega arith)
  word_leaf table rune node (x ∷ runes) (suc k) e v pos le =
      is_word_leaf table rune x (take k runes) node e v

  no_word :
      (table : T) (rune : ℕ) (runes : List ℕ)
      → table_get table rune ≡ none
      → NoLonger table (rune ∷ runes) 0
  no_word table rune runes e zero lt le = absurd (omega arith)
  no_word table rune runes e (suc k) lt le = is_word-none table rune (take k runes) e

  -- What holds of the rests holds of the whole, from length 2 on.
  longer :
      (table : T) (rune : ℕ) (runes : List ℕ) (m : ℕ)
      → ((k : ℕ) → m < k → k ≤ length runes → is_word table (take (suc k) (rune ∷ runes)) ≡ false)
      → NoLonger table (rune ∷ runes) (suc m)
  longer table rune runes m rest zero lt le = absurd (omega arith)
  longer table rune runes m rest (suc k) lt le = rest k (omega arith) (omega arith)

  one_or_longer :
      (table : T) (rune : ℕ) (runes : List ℕ) (node : TableNode T)
      → table_get table rune ≡ some node
      → (node.flag == terminator) ≡ false
      → NoLonger table (rune ∷ runes) 1
      → NoLonger table (rune ∷ runes) 0
  one_or_longer table rune runes node e f rest zero lt le = absurd (omega arith)
  one_or_longer table rune runes node e f rest (suc zero) lt le = is_word_one table rune node e ∙ f
  one_or_longer table rune runes node e f rest (suc (suc k)) lt le =
      rest (suc (suc k)) (omega arith) le

  -- The end of the loop at this rune.
  close_word :
      (table : T) (rune : ℕ) (runes : List ℕ) (node : TableNode T) (n step : ℕ)
      → table_get table rune ≡ some node
      → NoLonger table (rune ∷ runes) 1
      → Longest table (rune ∷ runes) n step (if node.flag == terminator then n + 1 else step)
  close_word table rune runes node n step e rest = elim (Bool-cases (node.flag == terminator)) [
    | inl f ↦ (1, rest, inr (omega arith, rw f, omega arith, is_word_one table rune node e ∙ f))
    | inr f ↦ (0, one_or_longer table rune runes node e f rest, inl (refl, rw f))
  ]

  pub match_from-Longest :
      (table : T) (runes : List ℕ) (n step : ℕ)
      → Longest table runes n step (match_from table_get table runes n step)
  unfolding match_from
  match_from-Longest table [] n step = (0, (λ k h le. absurd (omega arith)), inl (refl, refl))
  match_from-Longest table (rune ∷ runes) n step = elim (Option-cases (table_get table rune)) [
    | inl e ↦ (0, no_word table rune runes e, inl (refl, rw (e, match_from)))
    | inr (node, e) ↦ elim (Option-cases (node.value)) [
      | inl v ↦
          rw (e, v, match_from)
            (close_word table rune runes node n step e
              (longer table rune runes 0 (λ k h le. word_leaf table rune node runes k e v h le)))
      | inr (next, v) ↦
          rw (e, v, match_from)
            (extend table next rune runes node n step _ e v (
              match_from-Longest next runes (n + 1)
                (if node.flag == terminator then n + 1 else step)))
    ]
  ]
    where
      extend :
          (table next : T) (rune : ℕ) (runes : List ℕ) (node : TableNode T) (n step step' : ℕ)
          → table_get table rune ≡ some node
          → node.value ≡ some next
          → Longest next runes (n + 1) (if node.flag == terminator then n + 1 else step) step'
          → Longest table (rune ∷ runes) n step step'
      extend table next rune runes node n step step' e v (m, rest, found) = elim found [
        | inl (none_there, same) ↦
            subst (λ s. Longest table (rune ∷ runes) n step s) (sym same)
              (close_word table rune runes node n step e (
                longer table rune runes 0 (λ k h le.
                  word_tail table next rune node runes k e v h le ∙ rest k (omega arith) le)))
        | inr (pos, same, le, word) ↦ (
          suc m,
          longer table rune runes m (λ k h le'.
              word_tail table next rune node runes k e v (omega arith) le' ∙ rest k h le'),
          inr (
            omega arith,
            omega arith,
            omega arith,
            word_tail table next rune node runes m e v pos le ∙ word,
          ),
        )
      ]
