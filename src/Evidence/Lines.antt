-- ===== src/Evidence/Lines.antt =====
-- `BufRead::read_until(b'\n')` over a whole file, and the removal of a line's end.
use benchplane.Base.{
  ℕ, ◌≡◌, ◌≢◌, refl, ap, ◌∙◌, Option, none, some, List, [], ◌∷◌, ◌++◌, map, concat, All, ◌==◌,
  if◌then◌else◌, arith,
}
use mathlib.Core.Option
use mathlib.Core.List.{append_assoc}

-- a byte in front of the first line
abbrev onto_first : ℕ → List (List ℕ) → List (List ℕ)
onto_first b [] = (b ∷ []) ∷ []
onto_first b (line ∷ rest) = (b ∷ line) ∷ rest

-- the lines of a file, each with its newline; the last may lack it
unfoldable pub lines : List ℕ → List (List ℕ)
lines [] = []
lines (b ∷ bytes) = let rest = lines bytes in if b == 10 then (b ∷ []) ∷ rest else onto_first b rest

-- `if line.last() == Some(&b) { line.pop(); }`: `none` where the last byte is another or missing
unfoldable pub strip_last : ℕ → List ℕ → Option (List ℕ)
strip_last b [] = none
strip_last b (x ∷ []) = if x == b then some [] else none
strip_last b (x ∷ y ∷ rest) = Option.map (λ l. x ∷ l) (strip_last b (y ∷ rest))

unfoldable pub without_return : List ℕ → List ℕ
unfolding strip_last
without_return line = elim (strip_last 13 line) [ none ↦ line | some l ↦ l ]

-- a line that holds no byte 10 or 13
abbrev pub IsPlain : List ℕ → Type 0
IsPlain = All (λ b. (b ≢ 10) × (b ≢ 13))

strip_last-append : (b : ℕ) (l : List ℕ) → strip_last b (l ++ b ∷ []) ≡ some l
unfolding strip_last
strip_last-append b [] = ground arith
strip_last-append b (x ∷ []) = ground (arith, strip_last-append b [])
strip_last-append b (x ∷ y ∷ rest) = rw (strip_last-append b (y ∷ rest))

pub strip_newline : (l : List ℕ) → strip_last 10 (l ++ 10 ∷ []) ≡ some l
strip_newline l = strip_last-append 10 l

strip_return_plain : (l : List ℕ) → IsPlain l → strip_last 13 l ≡ none
unfolding strip_last
strip_return_plain [] h = refl
strip_return_plain (x ∷ []) h = ground arith
strip_return_plain (x ∷ y ∷ rest) h = rw (strip_return_plain (y ∷ rest) h.1)

pub without_return_plain : (l : List ℕ) → IsPlain l → without_return l ≡ l
unfolding without_return
without_return_plain l h = rw (strip_return_plain l h, without_return) refl

lines-cons : (l rest : List ℕ) → IsPlain l → lines (l ++ 10 ∷ rest) ≡ (l ++ 10 ∷ []) ∷ lines rest
unfolding lines
lines-cons [] rest h = refl
lines-cons (b ∷ l) rest h = ground (arith, lines-cons l rest h.1)

-- The file that holds each text with a newline has just these lines.
pub lines-concat :
    (texts : List (List ℕ))
    → All IsPlain texts
    → lines (concat (map (λ t. t ++ 10 ∷ []) texts)) ≡ map (λ t. t ++ 10 ∷ []) texts
lines-concat [] h = unfold lines in refl
lines-concat (t ∷ texts) h =
    let rest = concat (map (λ t. t ++ 10 ∷ []) texts) in
    ap lines (append_assoc t (10 ∷ []) rest)
    ∙ lines-cons t rest h.0
    ∙ ap (λ l. (t ++ 10 ∷ []) ∷ l) (lines-concat texts h.1)
