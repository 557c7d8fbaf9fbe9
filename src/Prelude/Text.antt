-- ===== src/Prelude/Text.antt =====
-- Texts as lists of code points. Lower case is that of ASCII letters; others are left as they are.
use Prim.Native.Nat.{ℕ, zero, suc, ◌+◌, ◌/◌, ◌%◌}
use Prim.Native.Char.{Char, code}
use Prim.Native.String.{String, ◌++◌}
use mathlib.Core.Bool.{Bool, true, false, ◌&&◌, ◌||◌}
use mathlib.Core.List.{List, [], ◌∷◌, map}
use era_ai.Prelude.Tests.{leb, ltb, ◌==◌, if◌then◌else◌}
use era_ai.Prelude.Lists.{length}

abbrev pub codes : String → List ℕ
codes String.[] = []
codes (String.◌∷◌ first rest) = code first ∷ codes rest

-- `len(s)`
abbrev pub text_length : String → ℕ
text_length s = length (codes s)

unfoldable pub lower_code : ℕ → ℕ
lower_code c = if leb b'A' c && leb c b'Z' then c + 32 else c

-- `s.lower()`
unfoldable pub lower : String → List ℕ
unfolding lower_code
lower s = map lower_code (codes s)

unfoldable pub is_prefix : List ℕ → List ℕ → Bool
is_prefix [] ys = true
is_prefix (x ∷ xs) [] = false
is_prefix (x ∷ xs) (y ∷ ys) = (x == y) && is_prefix xs ys

-- `needle in s`
unfoldable pub contains : List ℕ → List ℕ → Bool
unfolding is_prefix
contains needle [] = is_prefix needle []
contains needle (y ∷ ys) = is_prefix needle (y ∷ ys) || contains needle ys

-- `[A-Za-z0-9]`
abbrev pub is_letter_or_digit : ℕ → Bool
is_letter_or_digit c =
    (leb b'A' c && leb c b'Z') || (leb b'a' c && leb c b'z') || (leb b'0' c && leb c b'9')

-- `[A-Za-z0-9_]`
abbrev pub is_word : ℕ → Bool
is_word c = is_letter_or_digit c || (c == b'_')

-- `[A-Za-z0-9_\-]{0,n}$`: `$` also matches before a newline that ends the text.
abbrev pub word_tail : ℕ → List ℕ → Bool
word_tail n [] = true
word_tail zero (c ∷ []) = c == 10
word_tail zero (c ∷ d ∷ cs) = false
word_tail (suc n) (c ∷ []) = is_word c || (c == b'-') || (c == 10)
word_tail (suc n) (c ∷ d ∷ cs) = (is_word c || (c == b'-')) && word_tail n (d ∷ cs)

digit : ℕ → String
digit d =
    if d == 0
    then "0"
    else if d == 1
    then "1"
    else if d == 2
    then "2"
    else if d == 3
    then "3"
    else if d == 4
    then "4"
    else if d == 5
    then "5"
    else if d == 6
    then "6"
    else if d == 7
    then "7"
    else if d == 8
    then "8"
    else "9"

-- The fuel `n + 1` outlasts the digits of `n`.
decimal_from : ℕ → ℕ → String → String
unfolding digit
decimal_from zero n rest = rest
decimal_from (suc fuel) n rest =
    let more = decimal_from fuel (n / 10) (digit (n % 10) ++ rest) in
    if ltb n 10 then digit n ++ rest else more

-- `str(n)`
unfoldable pub decimal : ℕ → String
unfolding decimal_from
decimal n = decimal_from (n + 1) n ""

-- What `str.strip` drops
abbrev is_space : ℕ → Bool
is_space c =
    (leb 9 c && leb c 13)
    || (leb 28 c && leb c 32)
    || (c == 133)
    || (c == 160)
    || (c == 5760)
    || (leb 8192 c && leb c 8202)
    || (c == 8232)
    || (c == 8233)
    || (c == 8239)
    || (c == 8287)
    || (c == 12288)

strip_left : String → String
strip_left String.[] = ""
strip_left (String.◌∷◌ c s) =
    let rest = strip_left s in if is_space (code c) then rest else String.◌∷◌ c s

abbrev cons_unless_blank : Char → String → String
cons_unless_blank c String.[] = if is_space (code c) then "" else String.◌∷◌ c String.[]
cons_unless_blank c (String.◌∷◌ d s) = String.◌∷◌ c (String.◌∷◌ d s)

strip_right : String → String
strip_right String.[] = ""
strip_right (String.◌∷◌ c s) = cons_unless_blank c (strip_right s)

-- `s.strip()`
unfoldable pub strip : String → String
unfolding strip_left strip_right
strip s = strip_left (strip_right s)
