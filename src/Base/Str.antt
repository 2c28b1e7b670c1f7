-- ===== src/Base/Str.antt =====
-- What the program uses of Python's `str`, over code points.
use Prim.Native.Char.{Char, code}
use Prim.Native.String.{String, ◌++◌}
use Prim.Native.Nat.{ℕ, zero, suc, ◌/◌, ◌%◌}
use mathlib.Core.Path.{◌≡◌, refl}
use mathlib.Core.Bool.{Bool, false, not, ◌&&◌, ◌||◌}
use mathlib.Core.Option.{Option, none, some}
use mathlib.Core.Option
use mathlib.Core.List
use mathlib.Core.List.{List, [], ◌∷◌}
use text.Mathlib.Text.{◌==◌}
use ai_agent_hub_project_ome.Base.Tests.{ltb, leb, if◌then◌else◌}

abbrev between : ℕ → ℕ → ℕ → Bool
between lo hi n = leb lo n && leb n hi

abbrev pub is_code : ℕ → Char → Bool
is_code n c = between n n (code c)

-- The code points that `str.strip()` and `str.split()` take for white space.
unfoldable pub is_space : Char → Bool
is_space c =
    let n = code c in
    between 9 13 n
    || between 28 32 n
    || between 133 133 n
    || between 160 160 n
    || between 5760 5760 n
    || between 8192 8202 n
    || between 8232 8233 n
    || between 8239 8239 n
    || between 8287 8287 n
    || between 12288 12288 n

unfoldable pub lstrip : String → String
unfolding is_space
lstrip String.[] = ""
lstrip (String.◌∷◌ c s) = if is_space c then lstrip s else String.◌∷◌ c s

unfoldable pub rstrip : String → String
unfolding is_space
rstrip String.[] = ""
rstrip (String.◌∷◌ c s) =
    let rest = rstrip s in if is_space c && rest == "" then "" else String.◌∷◌ c rest

unfoldable pub strip : String → String
unfolding lstrip rstrip
strip s = rstrip (lstrip s)

-- `not s.strip()`
unfoldable pub is_blank : String → Bool
unfolding strip
is_blank s = strip s == ""

digit : ℕ → String
digit zero = "0"
digit (suc zero) = "1"
digit (suc (suc zero)) = "2"
digit (suc (suc (suc zero))) = "3"
digit (suc (suc (suc (suc zero)))) = "4"
digit (suc (suc (suc (suc (suc zero))))) = "5"
digit (suc (suc (suc (suc (suc (suc zero)))))) = "6"
digit (suc (suc (suc (suc (suc (suc (suc zero))))))) = "7"
digit (suc (suc (suc (suc (suc (suc (suc (suc zero)))))))) = "8"
digit (suc (suc (suc (suc (suc (suc (suc (suc (suc _))))))))) = "9"

-- A number below the fuel has fewer digits than the fuel.
decimal : ℕ → ℕ → String → String
decimal zero n out = out
decimal (suc fuel) n out =
    let out' = digit (n % 10) ++ out in
    let rest = decimal fuel (n / 10) out' in if ltb n 10 then out' else rest

-- `str(n)` of a number that is not negative
unfoldable pub str_ℕ : ℕ → String
unfolding decimal digit
str_ℕ n = decimal (suc n) n ""

-- two digits, for `{:.2f}` of hundredths
unfoldable pub two_digits : ℕ → String
unfolding digit
two_digits n = digit (n / 10 % 10) ++ digit (n % 10)

abbrev pub str_take : ℕ → String → String
str_take zero s = ""
str_take (suc n) String.[] = ""
str_take (suc n) (String.◌∷◌ c s) = String.◌∷◌ c (str_take n s)

abbrev pub str_drop : ℕ → String → String
str_drop zero s = s
str_drop (suc n) String.[] = ""
str_drop (suc n) (String.◌∷◌ c s) = str_drop n s

-- `s.find(c)` and `s.rfind(c)` for a single character; `none` is -1
unfoldable pub find_code : ℕ → String → Option ℕ
find_code n String.[] = none
find_code n (String.◌∷◌ c s) = if is_code n c then some 0 else Option.map suc (find_code n s)

unfoldable pub rfind_code : ℕ → String → Option ℕ
rfind_code n String.[] = none
rfind_code n (String.◌∷◌ c s) = elim (rfind_code n s) [
  | some i ↦ some (suc i)
  | none ↦ if is_code n c then some 0 else none
]

abbrev pub has_code : ℕ → String → Bool
has_code n String.[] = false
has_code n (String.◌∷◌ c s) = is_code n c || has_code n s

-- `s.replace(c, t)` for a single character
unfoldable pub replace_code : ℕ → String → String → String
replace_code n t String.[] = ""
replace_code n t (String.◌∷◌ c s) =
    let rest = replace_code n t s in if is_code n c then t ++ rest else String.◌∷◌ c rest

escape_code : Bool → Char → String
escape_code double c =
    if is_code b'\\' c
    then "\\\\"
    else if is_code b'\'' c && not double
    then "\\'"
    else if is_code 10 c
    then "\\n"
    else if is_code 13 c
    then "\\r"
    else if is_code 9 c
    then "\\t"
    else String.◌∷◌ c ""

escape_all : Bool → String → String
escape_all double String.[] = ""
escape_all double (String.◌∷◌ c s) = escape_code double c ++ escape_all double s

-- `repr(s)` of a text whose characters are printable but for tabs and line ends. Double quotes
-- are used if the text has a single quote and no double quote.
unfoldable pub repr : String → String
unfolding escape_all escape_code
repr s =
    let double = has_code b'\'' s && not (has_code b'"' s) in
    let quote : String = if double then "\"" else "'" in quote ++ escape_all double s ++ quote

-- `sep.join(parts)`
abbrev pub join : String → List String → String
join sep [] = ""
join sep (s ∷ []) = s
join sep (s ∷ t ∷ rest) = s ++ sep ++ join sep (t ∷ rest)

-- `str` of a list of texts
unfoldable pub repr_list : List String → String
unfolding repr
repr_list parts = "[" ++ join ", " (List.map repr parts) ++ "]"

-- `str.splitlines()`: the characters that end a line; "\r\n" ends one line.
is_line_end : Char → Bool
is_line_end c =
    let n = code c in between 10 13 n || between 28 30 n || between 133 133 n || between 8232 8233 n

-- `after_cr` tells that the character before was "\r" and has closed a line already.
lines_from : String → Bool → String → List String
lines_from cur after_cr String.[] = if cur == "" then [] else cur ∷ []
lines_from cur after_cr (String.◌∷◌ c s) =
    let skip = lines_from cur false s in
    let close = cur ∷ lines_from "" (is_code 13 c) s in
    let more = lines_from (cur ++ String.◌∷◌ c "") false s in
    if is_code 10 c && after_cr then skip else if is_line_end c then close else more

unfoldable pub splitlines : String → List String
unfolding lines_from is_line_end
splitlines s = lines_from "" false s

tests : Unit {0}
unfolding strip str_ℕ repr splitlines is_blank find_code rfind_code
tests = tt

strip_both : strip " \t a b\n" ≡ "a b"
unfolding tests
strip_both = refl

str_ℕ-16000 : str_ℕ 16000 ≡ "16000"
unfolding tests
str_ℕ-16000 = refl

repr_quote : repr "it's" ≡ "\"it's\""
unfolding tests
repr_quote = refl

splitlines_mixed : splitlines "a\r\nb\n\nc\n" ≡ "a" ∷ "b" ∷ "" ∷ "c" ∷ []
unfolding tests
splitlines_mixed = refl

rfind_code_last : rfind_code b'}' "{a}b}c" ≡ some 4
unfolding tests
rfind_code_last = refl
