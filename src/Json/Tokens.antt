-- ===== src/Json/Tokens.antt =====
-- sdk/ts/src/json.ts: the scanner on a sequence of JSON tokens.
use skyext.Json.{
  Text, quote_unit, backslash, minus, point, sentinel, is_digit, copy_string, span_digits,
  digits_from, max_safe,
}
use skyext.Prelude.{
  ℕ, ◌≡◌, refl, Bool, true, false, not, ◌&&◌, ◌||◌, Option, none, some, List, [], ◌∷◌, ◌++◌,
  if◌then◌else◌, ◌==◌, ltb, All, arith,
}

-- A fraction's digits; an exponent with its letter (`E` for true), its sign (`+` for true) and digits.
pub data Fraction : Type 0 where
  no_fraction : Fraction
  fraction : Text → Fraction

pub data Exponent : Type 0 where
  no_exponent : Exponent
  exponent : Bool → Option Bool → ℕ → Text → Exponent

-- A string with its characters as they are written, a number with a minus or none, its first digit
-- and the others, or any other code unit.
pub data Token : Type 0 where
  literal : Text → Token
  numeral : Bool → ℕ → Text → Fraction → Exponent → Token
  other : ℕ → Token

abbrev pub print_minus : Bool → Text
print_minus true = minus ∷ []
print_minus false = []

abbrev pub print_fraction : Fraction → Text
print_fraction no_fraction = []
print_fraction (fraction ds) = point ∷ ds

abbrev pub print_exponent : Exponent → Text
print_exponent no_exponent = []
print_exponent (exponent upper none d ds) = (if upper then 69 else 101) ∷ d ∷ ds
print_exponent (exponent upper (some plus) d ds) =
    (if upper then 69 else 101) ∷ (if plus then 43 else minus) ∷ d ∷ ds

-- A token before a text.
abbrev pub print_onto : Token → Text → Text
print_onto (literal body) rest = quote_unit ∷ body ++ quote_unit ∷ rest
print_onto (numeral neg d ds f e) rest =
    print_minus neg ++ (d ∷ ds ++ (print_fraction f ++ (print_exponent e ++ rest)))
print_onto (other c) rest = c ∷ rest

unfoldable pub print : List Token → Text
print [] = []
print (t ∷ ts) = print_onto t (print ts)

abbrev pub IsDigit : ℕ → Type 0
IsDigit c = is_digit c ≡ true

-- Every quote in the text is escaped, and no backslash is its last.
unfoldable pub Escaped : Bool → Text → Type 0
Escaped escaped [] = escaped ≡ false
Escaped escaped (c ∷ cs) =
    ((not escaped && c == quote_unit) ≡ false) × Escaped (not escaped && c == backslash) cs

abbrev pub ValidFraction : Fraction → Type 0
ValidFraction no_fraction = Unit {0}
ValidFraction (fraction ds) = All IsDigit ds

abbrev pub ValidExponent : Exponent → Type 0
ValidExponent no_exponent = Unit {0}
ValidExponent (exponent upper sign d ds) = IsDigit d × All IsDigit ds

-- The text does not go on a number.
abbrev pub Stops : Text → Type 0
Stops [] = Unit {0}
Stops (c ∷ cs) = (is_digit c ≡ false) × ((c == point) ≡ false) × ((c == 101 || c == 69) ≡ false)

-- The token is one, before the text.
abbrev pub Valid : Token → Text → Type 0
Valid (literal body) rest = Escaped false body
Valid (numeral neg d ds f e) rest =
    IsDigit d × All IsDigit ds × ValidFraction f × ValidExponent e × Stops rest
Valid (other c) rest = ((c == quote_unit) ≡ false) × ((c == minus || is_digit c) ≡ false)

unfoldable pub WellFormed : List Token → Type 0
WellFormed [] = Unit {0}
WellFormed (t ∷ ts) = Valid t (print ts) × WellFormed ts

-- The specification: an integer beyond 2^53 - 1 is put between sentinels, all else stays.
abbrev pub rewrite_numeral : Bool → Text → Fraction → Exponent → Text
rewrite_numeral neg ds no_fraction no_exponent =
    if ltb max_safe (digits_from 0 ds)
    then quote_unit ∷ sentinel ∷ (print_minus neg ++ ds) ++ sentinel ∷ quote_unit ∷ []
    else print_minus neg ++ ds
rewrite_numeral neg ds f e = (print_minus neg ++ ds) ++ (print_fraction f ++ print_exponent e)

abbrev pub rewrite_token : Token → Text
rewrite_token (literal body) = quote_unit ∷ body ++ quote_unit ∷ []
rewrite_token (numeral neg d ds f e) = rewrite_numeral neg (d ∷ ds) f e
rewrite_token (other c) = c ∷ []

unfoldable pub rewritten : List Token → Text
rewritten [] = []
rewritten (t ∷ ts) = rewrite_token t ++ rewritten ts

pub copy_string-Escaped :
    (escaped : Bool) (body rest : Text)
    → Escaped escaped body
    → copy_string escaped (body ++ quote_unit ∷ rest) ≡ (body ++ quote_unit ∷ [], rest)
unfolding copy_string Escaped
copy_string-Escaped escaped [] rest h = rw h
copy_string-Escaped escaped (c ∷ cs) rest h =
    rw (h.0, copy_string-Escaped (not escaped && c == backslash) cs rest h.1)

-- No digit stands first.
abbrev pub DigitFree : Text → Type 0
DigitFree [] = Unit {0}
DigitFree (c ∷ cs) = is_digit c ≡ false

pub span_digits-DigitFree :
    (ds rest : Text) → All IsDigit ds → DigitFree rest → span_digits (ds ++ rest) ≡ (ds, rest)
unfolding span_digits
span_digits-DigitFree [] [] h stop = refl
span_digits-DigitFree [] (c ∷ cs) h stop = rw stop
span_digits-DigitFree (d ∷ ds) rest h stop = rw (h.0, span_digits-DigitFree ds rest h.1 stop)

pub Stops-DigitFree : (rest : Text) → Stops rest → DigitFree rest
Stops-DigitFree [] h = tt
Stops-DigitFree (c ∷ cs) h = h.0

-- A digit is no sign.
pub digit_lem :
    (d : ℕ)
    → IsDigit d
    → ((d == minus) ≡ false) × ((d == 43 || d == minus) ≡ false) × ((d == quote_unit) ≡ false)
digit_lem d h = (ground arith, ground arith, ground arith)
