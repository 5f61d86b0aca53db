-- ===== src/Crab/Censor.antt =====
-- What `dict_filter` of lua-crab.c makes of a text, as a relation, and its loops.
use quick.Prelude.{
  ℕ, zero, suc, ◌≤◌, ◌<◌, ◌≡◌, refl, sym, subst, ap, ◌∙◌, inl, inr, Bool, true, false, Option, some,
  List, [], ◌∷◌, ◌++◌, length, take, drop, replicate, arith, lt→ltb, length-append, length-drop,
  length-replicate,
}
use quick.Crab.{TableNode, star, match_from, filter_from, dict_filter}
use quick.Crab.Longest.{is_word, NoLonger, match_from-Longest}

module _ {ℓ} {T : Type ℓ} (table_get : T → ℕ → Option (TableNode T)) where
  -- From left to right: a rune at which no word begins stays, and the longest word that begins at
  -- a rune becomes stars. The Boolean says whether there was a word.
  pub data Censored (dict : T) : List ℕ → List ℕ → Bool → Type 0 where
    ended : Censored dict [] [] false
    kept :
        {rune : ℕ} {runes out : List ℕ} {flag : Bool}
        → NoLonger table_get dict (rune ∷ runes) 0
        → Censored dict runes out flag
        → Censored dict (rune ∷ runes) (rune ∷ out) flag
    hit :
        {runes out : List ℕ} {flag : Bool} (m : ℕ)
        → 0 < m
        → m ≤ length runes
        → is_word table_get dict (take m runes) ≡ true
        → NoLonger table_get dict runes m
        → Censored dict (drop m runes) out flag
        → Censored dict runes (replicate m star ++ out) true

  filter_from-Censored :
      (fuel : ℕ) (dict : T) (runes : List ℕ)
      → length runes ≤ fuel
      → Censored dict runes
          (filter_from table_get fuel dict runes).0
          (filter_from table_get fuel dict runes).1
  unfolding filter_from
  filter_from-Censored zero dict [] h = ended
  filter_from-Censored (suc fuel) dict [] h = ended
  filter_from-Censored zero dict (rune ∷ runes) h = absurd (omega arith)
  filter_from-Censored (suc fuel) dict (rune ∷ runes) h =
      let (m, rest, found) = match_from-Longest table_get dict (rune ∷ runes) 0 0 in
      elim found [
        | inl (none_there, same) ↦
            rw (same, filter_from)
              (kept (subst (NoLonger table_get dict (rune ∷ runes)) none_there rest)
                (filter_from-Censored fuel dict runes (omega arith)))
        | inr (pos, same, le, word) ↦
            let step : match_from table_get dict (rune ∷ runes) 0 0 ≡ m = omega (arith, same) in
            rw (step, lt→ltb 0 m pos, filter_from)
              (hit m pos le word rest (
                filter_from-Censored fuel dict (drop m (rune ∷ runes))
                  (omega (arith, length-drop m (rune ∷ runes)))))
      ]

  -- With a dictionary the filter always ends, within one round of fuel per rune: from left to
  -- right the longest word at each place becomes stars, other runes stay, and the flag says
  -- whether a word was found.
  pub dict_filter-Censored :
      (dict : T) (runes : List ℕ)
      → (out : List ℕ) × (flag : Bool) × (dict_filter table_get (some dict) runes
          ≡ some (out, flag))
        × Censored dict runes out flag
  unfolding dict_filter
  dict_filter-Censored dict runes =
      (_, _, refl, filter_from-Censored (length runes) dict runes (omega arith))

  Censored-length :
      {dict : T} {runes out : List ℕ} {flag : Bool}
      → Censored dict runes out flag
      → length out ≡ length runes
  Censored-length ended = refl
  Censored-length (kept none_there rest) = ap suc (Censored-length rest)
  Censored-length (hit {runes} {out} m pos le word no_longer rest) = omega (
    arith,
    length-append (replicate m star) out,
    length-replicate m star,
    Censored-length rest,
    length-drop m runes,
  )

  -- The filter keeps the number of runes.
  pub length-dict_filter :
      (dict : T) (runes : List ℕ) {out : List ℕ} {flag : Bool}
      → dict_filter table_get (some dict) runes ≡ some (out, flag)
      → length out ≡ length runes
  length-dict_filter dict runes {out} {flag} e =
      let (out', flag', e', c) = dict_filter-Censored dict runes in
      let same : out' ≡ out = cc in ap length (sym same) ∙ Censored-length c
