-- ===== src/Base64/Spec.antt =====
-- Base64 by numbers, independent of the loops of lua-base64.c: three bytes are one number of 24
-- bits, and its four digits in base 64 are the symbols.
use quick.Prelude.{ℕ, ◌+◌, ◌*◌, ◌/◌, ◌%◌, List, [], ◌∷◌}
use quick.Base64.{symbol, b64equ}

abbrev pub group : ℕ → ℕ → ℕ → ℕ
group a b c = a * 65536 + b * 256 + c

abbrev pub digit3 : ℕ → ℕ
digit3 n = symbol (n / 262144)

abbrev pub digit2 : ℕ → ℕ
digit2 n = symbol (n / 4096 % 64)

abbrev pub digit1 : ℕ → ℕ
digit1 n = symbol (n / 64 % 64)

abbrev pub digit0 : ℕ → ℕ
digit0 n = symbol (n % 64)

-- The text of a byte string, padded to whole groups of four.
unfoldable pub encode_text : List ℕ → List ℕ
encode_text [] = []
encode_text (a ∷ []) = digit3 (group a 0 0) ∷ digit2 (group a 0 0) ∷ b64equ ∷ b64equ ∷ []
encode_text (a ∷ b ∷ []) =
    digit3 (group a b 0) ∷ digit2 (group a b 0) ∷ digit1 (group a b 0) ∷ b64equ ∷ []
encode_text (a ∷ b ∷ c ∷ src) =
    digit3 (group a b c)
    ∷ digit2 (group a b c)
    ∷ digit1 (group a b c)
    ∷ digit0 (group a b c)
    ∷ encode_text src
