-- ===== src/Crab/Tests.antt =====
-- Runs of the word filter, with the words "ab" and "abc" in three tables.
use quick.Prelude.{
  ℕ, ◌≡◌, refl, Bool, true, Option, none, some, List, ◌==◌, ◌&&◌, if◌then◌else◌, length, codes,
}
use quick.Crab.{TableNode, match_from, filter_from, dict_filter, terminator}
use quick.Crab.Censor.{Censored, dict_filter-Censored, length-dict_filter}

abbrev node : ℕ → Option ℕ → Option (TableNode ℕ)
node flag value = some (record { flag = flag; value = value })

abbrev words : ℕ → ℕ → Option (TableNode ℕ)
words table rune =
    if table == 0 && rune == b'a'
    then node b'n' (some 1)
    else if table == 1 && rune == b'b'
    then node terminator (some 2)
    else if table == 2 && rune == b'c'
    then node terminator none
    else none

filtered : dict_filter words (some 0) (codes "xabcabax") ≡ some (codes "x*****ax", true)
unfolding dict_filter filter_from match_from
filtered = refl

dict_filter-Censored_example :
    (out : List ℕ) × (flag : Bool) × (dict_filter words (some 0) (codes "xabcabax")
      ≡ some (out, flag))
    × Censored words 0 (codes "xabcabax") out flag
dict_filter-Censored_example = dict_filter-Censored words 0 (codes "xabcabax")

length-dict_filter_example : length (codes "x*****ax") ≡ length (codes "xabcabax")
length-dict_filter_example = length-dict_filter words 0 (codes "xabcabax") filtered
