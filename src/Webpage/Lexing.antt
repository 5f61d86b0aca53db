-- ===== src/Webpage/Lexing.antt =====
-- How `parse` of lua-webpage.c reads the pieces of a template.
use quick.Prelude.{
  ℕ, zero, suc, ◌+◌, ◌-◌, ◌≤◌, ◌<◌, ◌≡◌, ◌≢◌, refl, ap, ◌∙◌, true, false, some, List, [], ◌∷◌, ◌++◌,
  length, take, drop, codes, All, arith, c_string, isspace, length-append,
}
use quick.Webpage.Names.{strcmp}
use quick.Webpage.Parse.{
  read_name, read_word, skip_space, to_close, ends_word, comment_kind, between, at_comment, at_var,
}
use quick.Webpage.Template.{Mark, opening, closing, mark_word, mark_kind}

take_front : (s next : List ℕ) → take (length (s ++ next) - length next) (s ++ next) ≡ s
take_front s next = ap (λ n. take n (s ++ next)) (omega (arith, length-append s next)) ∙ exact s
  where
    exact : (s : List ℕ) → take (length s) (s ++ next) ≡ s
    exact [] = refl
    exact (c ∷ s) = ap (λ t. c ∷ t) (exact s)

pub between_lem : (s next : List ℕ) → between (s ++ next) next ≡ s
between_lem s next = take_front s next

pub drop_front : (n : List ℕ) (a b : ℕ) (r : List ℕ) → drop (length n + 2) (n ++ (a ∷ b ∷ r)) ≡ r
drop_front [] a b r = refl
drop_front (c ∷ n) a b r =
    let one_more : suc (length n) + 2 ≡ suc (length n + 2) = omega arith in
    ap (λ k. drop k (c ∷ (n ++ (a ∷ b ∷ r)))) one_more ∙ drop_front n a b r

pub read_name_lem :
    (k : ℕ) (n : List ℕ) (r : List ℕ)
    → All (λ c. (c ≢ 0) × (c ≢ b'#')) n
    → length n ≤ k
    → read_name k (n ++ (b'#' ∷ r)) ≡ n
unfolding read_name
read_name_lem zero [] r ok le = refl
read_name_lem (suc k) [] r ok le = refl
read_name_lem zero (c ∷ n) r ok le = absurd (omega arith)
read_name_lem (suc k) (c ∷ n) r ok le = ground (arith, read_name_lem k n r ok.1 (omega arith))

pub read_word_lem :
    (k : ℕ) (w : List ℕ) (c : ℕ) (r : List ℕ)
    → All (λ x. ends_word x ≡ false) w
    → length w ≤ k
    → ends_word c ≡ true
    → read_word k (w ++ (c ∷ r)) ≡ some (w, c ∷ r)
unfolding read_word
read_word_lem zero [] c r ok le e = refl
read_word_lem (suc k) [] c r ok le e = rw (e, read_word)
read_word_lem zero (x ∷ w) c r ok le e = absurd (omega arith)
read_word_lem (suc k) (x ∷ w) c r ok le e =
    rw (ok.0, read_word_lem k w c r ok.1 (omega arith) e, read_word)

c_string_whole : (n : List ℕ) → All (λ c. c ≢ 0) n → c_string n ≡ n
unfolding c_string
c_string_whole [] ok = refl
c_string_whole (c ∷ n) ok = ground (arith, c_string_whole n ok.1)

All-0 : (n : List ℕ) → All (λ c. (c ≢ 0) × (ends_word c ≡ false)) n → All (λ c. c ≢ 0) n
All-0 [] ok = tt
All-0 (c ∷ n) ok = (ok.0.0, All-0 n ok.1)

All-1 :
    (n : List ℕ) → All (λ c. (c ≢ 0) × (ends_word c ≡ false)) n → All (λ c. ends_word c ≡ false) n
All-1 [] ok = tt
All-1 (c ∷ n) ok = (ok.0.1, All-1 n ok.1)

pub block_name_whole : (n : List ℕ) → All (λ c. (c ≢ 0) × (ends_word c ≡ false)) n → c_string n ≡ n
block_name_whole n ok = c_string_whole n (All-0 n ok)

skip_space_stop : (c : ℕ) (r : List ℕ) → ends_word c ≡ false → skip_space (c ∷ r) ≡ c ∷ r
unfolding skip_space isspace
skip_space_stop c r e = ground arith

-- The token of a mark, and its name.
pub read_token :
    (m : Mark) (r : List ℕ)
    → read_word 100 (skip_space (codes " " ++ (mark_word m ++ (codes " " ++ r))))
      ≡ some (mark_word m, codes " " ++ r)
unfolding read_word skip_space isspace
read_token opening r = refl
read_token closing r = refl

pub comment_kind_lem : (m : Mark) → comment_kind (mark_word m) ≡ some (mark_kind m)
unfolding comment_kind strcmp c_string
comment_kind_lem opening = refl
comment_kind_lem closing = refl

pub read_block_name :
    (n r : List ℕ)
    → All (λ c. (c ≢ 0) × (ends_word c ≡ false)) n
    → 0 < length n
    → length n ≤ 100
    → read_word 100 (skip_space (codes " " ++ (n ++ (codes " -->" ++ r))))
      ≡ some (n, codes " -->" ++ r)
unfolding skip_space isspace
read_block_name [] r ok pos le = absurd (omega arith)
read_block_name (c ∷ n) r ok pos le =
    ap (read_word 100) (skip_space_stop c (n ++ (codes " -->" ++ r)) ok.0.1)
    ∙ read_word_lem 100 (c ∷ n) b' ' (codes "-->" ++ r) (All-1 (c ∷ n) ok) le refl

pub to_close_lem : (r : List ℕ) → to_close (codes " -->" ++ r) ≡ some (b'>' ∷ r)
unfolding to_close
to_close_lem r = refl

pub at_comment_mark : (r : List ℕ) → at_comment (codes "<!-- " ++ r) ≡ true
unfolding at_comment
at_comment_mark r = refl

pub at_var_mark : (r : List ℕ) → at_var (codes "<!-- " ++ r) ≡ false
unfolding at_var
at_var_mark r = refl
