-- ===== src/Crab.antt =====
-- The word filter of lualib-src/lua-crab.c, over a dictionary of 3rd/crab: `table_get` is that
-- library's, so tables are abstract and the function is a parameter. The text is the list of its
-- runes, already cut to 32 bits.
pub mod Longest
pub mod Censor
mod Tests
use quick.Prelude.{
  ℕ, zero, suc, ◌+◌, Bool, true, false, Option, none, some, List, [], ◌∷◌, ◌++◌, ltb, ◌==◌,
  if◌then◌else◌, length, drop, replicate,
}

-- `flag` and `value` of a `TableNode`.
pub record TableNode {ℓ} (T : Type ℓ) : Type ℓ where
  pub flag : ℕ
  pub value : Option T

-- `'o'` and `'*'`
abbrev pub terminator : ℕ
terminator = b'o'

abbrev pub star : ℕ
star = b'*'

module _ {ℓ} {T : Type ℓ} (table_get : T → ℕ → Option (TableNode T)) where
  -- The inner loop at `j`, where `n` is `j - i`: the new `step`.
  unfoldable pub match_from : T → List ℕ → ℕ → ℕ → ℕ
  match_from table [] n step = step
  match_from table (rune ∷ runes) n step = elim (table_get table rune) [
    | none ↦ step
    | some node ↦ elim (node.value) [
      | none ↦ if node.flag == terminator then n + 1 else step
      | some next ↦ match_from next runes (n + 1) (if node.flag == terminator then n + 1 else step)
    ]
  ]

  -- The outer loop: the runes that it leaves, and the flag. One round of fuel per rune.
  unfoldable pub filter_from : ℕ → T → List ℕ → List ℕ × Bool
  filter_from fuel dict [] = ([], false)
  filter_from zero dict (rune ∷ runes) = (rune ∷ runes, false)
  filter_from (suc fuel) dict (rune ∷ runes) =
      let step = match_from dict (rune ∷ runes) 0 0 in
      let hit = filter_from fuel dict (drop step (rune ∷ runes)) in
      let miss = filter_from fuel dict runes in
      if ltb 0 step then (replicate step star ++ hit.0, true) else (rune ∷ miss.0, miss.1)

  -- `none` is the error without a dictionary.
  unfoldable pub dict_filter : Option T → List ℕ → Option (List ℕ × Bool)
  dict_filter none runes = none
  dict_filter (some dict) runes = some (filter_from (length runes) dict runes)
