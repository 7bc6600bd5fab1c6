-- ===== src/Prelude/Text.antt =====
-- What the program uses of Go's `strings` and `fmt`, over native texts.
use Prim.Native.Nat.{ℕ, zero, suc, ◌+◌, ◌-◌, ◌*◌, ◌/◌, ◌%◌}
use Prim.Native.Char.{Char, code}
use Prim.Native.String.{String}
use Prim.Native.String
use mathlib.Core.Path.{◌≡◌, refl}
use mathlib.Core.Bool.{Bool, true, false, ◌&&◌}
use mathlib.Core.Option.{Option, none, some}
use mathlib.Core.List.{List, [], ◌∷◌}
use text.Mathlib.Text.{find?}
use etc.Prelude.Tests.{ltb, leb, ◌==◌, if◌then◌else◌}
use etc.Prelude.Int.{ℤ, pos, negsuc, sub_ℕ}

-- The concatenation of texts.
infixr 65 ◌+++◌
abbrev pub ◌+++◌ : String → String → String
◌+++◌ = String.◌++◌

-- len(s) == 0
abbrev pub is_empty : String → Bool
is_empty String.[] = true
is_empty (String.◌∷◌ c s) = false

-- strings.Contains(s, t)
abbrev pub contains : String → String → Bool
contains s t = elim (find? s t) [ none ↦ false | some i ↦ true ]

abbrev digit : ℕ → String
digit zero = "0"
digit (suc zero) = "1"
digit (suc (suc zero)) = "2"
digit (suc (suc (suc zero))) = "3"
digit (suc (suc (suc (suc zero)))) = "4"
digit (suc (suc (suc (suc (suc zero))))) = "5"
digit (suc (suc (suc (suc (suc (suc zero)))))) = "6"
digit (suc (suc (suc (suc (suc (suc (suc zero))))))) = "7"
digit (suc (suc (suc (suc (suc (suc (suc (suc zero)))))))) = "8"
digit _ = "9"

-- The decimal digits of a number, on fuel; a 64-bit number has at most 20.
decimal : ℕ → ℕ → String
decimal zero n = ""
decimal (suc f) n =
    let more = decimal f (n / 10) +++ digit (n % 10) in if ltb n 10 then digit n else more

-- fmt's %d of an int.
unfoldable pub print_int : ℤ → String
unfolding decimal
print_int (pos n) = decimal 20 n
print_int (negsuc n) = "-" +++ decimal 20 (suc n)

print_int_test : print_int (pos 1205) ≡ "1205"
unfolding print_int
print_int_test = refl

contains_test : contains "the object has been modified; retry" "has been" ≡ true
contains_test = refl

-- strings.Replace(s, c, "/", -1) for a text c of one character, given by its code.
unfoldable pub replace_char : ℕ → String → String
replace_char k String.[] = ""
replace_char k (String.◌∷◌ c s) =
    let rest = replace_char k s in if code c == k then String.◌∷◌ "/" rest else String.◌∷◌ c rest

-- strings.Replace(s, "].", "/", -1)
unfoldable pub replace_close_dot : String → String
replace_close_dot String.[] = ""
replace_close_dot (String.◌∷◌ c String.[]) = String.◌∷◌ c ""
replace_close_dot (String.◌∷◌ c (String.◌∷◌ d s)) =
    let replaced = String.◌∷◌ "/" (replace_close_dot s) in
    let kept = String.◌∷◌ c (replace_close_dot (String.◌∷◌ d s)) in
    if code c == b']' && code d == b'.' then replaced else kept

-- s[0] == c, for a text that may be empty.
abbrev pub begins_with : ℕ → String → Bool
begins_with k String.[] = false
begins_with k (String.◌∷◌ c s) = code c == k

-- The digits of a number, from the number read so far.
parse_digits : ℕ → String → Option ℕ
parse_digits acc String.[] = some acc
parse_digits acc (String.◌∷◌ c s) =
    let rest = parse_digits (acc * 10 + (code c - 48)) s in
    if leb 48 (code c) && leb (code c) 57 then rest else none

parse_magnitude : String → Option ℕ
unfolding parse_digits
parse_magnitude s = if is_empty s then none else parse_digits 0 s

-- strconv.ParseInt(s, 10, 32); `none` is its error.
unfoldable pub parse_int32 : String → Option ℤ
unfolding parse_magnitude
parse_int32 String.[] = none
parse_int32 (String.◌∷◌ c s) =
    let negative : Option ℤ = elim (parse_magnitude s) [
      | none ↦ none
      | some n ↦ if leb n 2147483648 then some (sub_ℕ 0 n) else none
    ] in
    let within : Option ℕ → Option ℤ =
      λ m. elim m [ none ↦ none | some n ↦ if ltb n 2147483648 then some (pos n) else none ] in
    if code c == b'-'
    then negative
    else if code c == b'+'
    then within (parse_magnitude s)
    else within (parse_magnitude (String.◌∷◌ c s))

parse_int32_test : parse_int32 "-20" ≡ some (negsuc 19)
unfolding parse_int32
parse_int32_test = refl

parse_int32_bad : parse_int32 "20%" ≡ none
unfolding parse_int32
parse_int32_bad = refl

prepend : Char → List String → List String
prepend c [] = String.◌∷◌ c "" ∷ []
prepend c (s ∷ ss) = String.◌∷◌ c s ∷ ss

-- strings.Split(s, c) for a separator of one character, given by its code.
unfoldable pub split : ℕ → String → List String
unfolding prepend
split k String.[] = "" ∷ []
split k (String.◌∷◌ c s) = let rest = split k s in if code c == k then "" ∷ rest else prepend c rest
