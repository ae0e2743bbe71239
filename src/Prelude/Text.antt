-- ===== src/Prelude/Text.antt =====
-- Text as Go builds it: concatenation, decimal numbers, %q quoting, and the order on strings.
use Prim.Native.Nat.{ℕ, zero, suc, ◌/◌, ◌%◌, Ordering}
use Prim.Native.Char.{Char, code}
use Prim.Native.String.{String, compare, ◌++◌ as str_append}
use mathlib.Core.Bool.{Bool, true, false}
use mathlib.Core.List.{[], ◌∷◌}
use rsync_gateway.Prelude.Tests.{ltb, nat_eq, if◌then◌else◌, get_or}
use rsync_gateway.Prelude.Lists.{get_elem?}

infixr 66 ◌^^◌
abbrev pub ◌^^◌ : String → String → String
s ^^ t = str_append s t

-- a < b on strings: Go compares bytes, which on UTF-8 is the order of the code points.
abbrev pub str_lt : String → String → Bool
str_lt s t = elim (compare s t) [ Ordering.lt ↦ true | _ ↦ false ]

hex_digit : ℕ → String
hex_digit d =
    get_or
      (get_elem?
        ("0" ∷ "1" ∷ "2" ∷ "3" ∷ "4" ∷ "5" ∷ "6" ∷ "7" ∷ "8" ∷ "9" ∷ "a" ∷ "b" ∷ "c" ∷ "d" ∷ "e"
          ∷ "f" ∷ [])
        d)
      ""

-- %d of a natural number: one more round than the number has digits is enough, and so is n + 1.
digits_from : ℕ → ℕ → String → String
unfolding hex_digit
digits_from zero n acc = acc
digits_from (suc f) n acc =
    let rest = digits_from f (n / 10) (hex_digit (n % 10) ^^ acc) in
    if ltb n 10 then hex_digit n ^^ acc else rest

unfoldable pub decimal : ℕ → String
unfolding digits_from
decimal n = digits_from (suc n) n ""

-- %q: Go's escapes of one ASCII character; a character above ASCII is taken as printable.
quote_char : Char → String
unfolding hex_digit
quote_char c =
    let n = code c in
    if nat_eq n 34
    then "\\\""
    else if nat_eq n 92
    then "\\\\"
    else if nat_eq n 7
    then "\\a"
    else if nat_eq n 8
    then "\\b"
    else if nat_eq n 12
    then "\\f"
    else if nat_eq n 10
    then "\\n"
    else if nat_eq n 13
    then "\\r"
    else if nat_eq n 9
    then "\\t"
    else if nat_eq n 11
    then "\\v"
    else if ltb n 32
    then "\\x" ^^ hex_digit (n / 16) ^^ hex_digit (n % 16)
    else if nat_eq n 127
    then "\\x7f"
    else String.◌∷◌ c ""

quote_rest : String → String
unfolding quote_char
quote_rest String.[] = "\""
quote_rest (String.◌∷◌ c s) = quote_char c ^^ quote_rest s

unfoldable pub quote : String → String
unfolding quote_rest
quote s = "\"" ^^ quote_rest s
