-- ===== src/Prelude/Bytes.antt =====
-- Bytes and texts: the code points of an ASCII literal, predicates on lists, exhaustive checks
-- over a small range.
use Prim.Native.Nat.{ℕ, zero, suc, ◌<◌}
use Prim.Native.Char.{code}
use Prim.Native.String.{String}
use mathlib.Core.Path.{◌≡◌}
use mathlib.Core.Bool.{Bool, true, ◌&&◌, ◌||◌}
use mathlib.Core.List.{List, [], ◌∷◌}
use native.Mathlib.Omega.{arith}
use quick.Prelude.Tests.{leb, ◌==◌, if◌then◌else◌}

abbrev pub codes : String → List ℕ
codes String.[] = []
codes (String.◌∷◌ c s) = code c ∷ codes s

abbrev pub All {ℓ κ} : {A : Type ℓ} → (A → Type κ) → List A → Type κ
All P [] = Unit
All P (x ∷ xs) = P x × All P xs

-- Every element fits an `unsigned char`.
abbrev pub AreBytes : List ℕ → Type 0
AreBytes = All (λ x. x < 256)

-- Whether a test holds of every number below a limit.
unfoldable pub all_below : (limit : ℕ) → (test : ℕ → Bool) → Bool
all_below zero test = true
all_below (suc last) test = all_below last test && test last

pub all_below_sound :
    (y limit : ℕ) (test : ℕ → Bool) → y < limit → all_below limit test ≡ true → test y ≡ true
unfolding all_below
all_below_sound y zero test lt whole = absurd (omega arith)
all_below_sound y (suc last) test lt whole = ground (arith, all_below_sound y last test)

-- The bytes up to the first NUL: what C takes for the string.
unfoldable pub c_string : List ℕ → List ℕ
c_string [] = []
c_string (c ∷ s) = if c == 0 then [] else c ∷ c_string s

-- The C locale's `isspace`: tab to carriage return, and the blank.
unfoldable pub isspace : ℕ → Bool
isspace ch = (leb 9 ch && leb ch 13) || ch == 32
