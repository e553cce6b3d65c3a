-- ===== src/Json.antt =====
-- sdk/ts/src/json.ts: JSON with integers of any size. A text is the list of its UTF-16 code units; the
-- loops over an index are functions of the rest of the text. `JSON.parse` is a parameter.
pub mod Tokens
pub mod Scanner
pub mod LargeIntegers
pub mod Documents
use skyext.Prelude.{
  ℕ, zero, suc, ◌+◌, ◌-◌, ◌*◌, Bool, true, false, not, ◌&&◌, ◌||◌, Option, none, some, List, [],
  ◌∷◌, ◌++◌, if◌then◌else◌, ◌==◌, leb, length,
}
use skyext.Value.{
  ℤ, pos, negsuc, Value, bigint, text, arr, obj, Items, no_items, item, Fields, no_fields, entry,
}

abbrev pub Text : Type 0
Text = List ℕ

-- The code units of `"`, `\`, `-`, `.` and of the sentinel, U+E000.
abbrev pub quote_unit : ℕ
quote_unit = 34

abbrev pub backslash : ℕ
backslash = 92

abbrev pub minus : ℕ
minus = 45

abbrev pub point : ℕ
point = 46

abbrev pub sentinel : ℕ
sentinel = 57344

abbrev pub is_digit : ℕ → Bool
is_digit c = leb 48 c && leb c 57

-- The rest of a string literal after its opening quote, and what follows it; `escaped` after a
-- backslash.
unfoldable pub copy_string : Bool → Text → Text × Text
copy_string escaped [] = ([], [])
copy_string escaped (c ∷ cs) =
    let rest = copy_string (not escaped && c == backslash) cs in
    if not escaped && c == quote_unit then (c ∷ [], cs) else (c ∷ rest.0, rest.1)

-- `while (i < n && isDigit(text[i])) i++`
unfoldable pub span_digits : Text → Text × Text
span_digits [] = ([], [])
span_digits (c ∷ cs) =
    let rest = span_digits cs in if is_digit c then (c ∷ rest.0, rest.1) else ([], c ∷ cs)

unfoldable pub scan_minus : Text → Text × Text
scan_minus [] = ([], [])
scan_minus (c ∷ cs) = if c == minus then (c ∷ [], cs) else ([], c ∷ cs)

unfoldable pub scan_fraction : Text → Text × Text
unfolding span_digits
scan_fraction [] = ([], [])
scan_fraction (c ∷ cs) =
    if c == point then (c ∷ (span_digits cs).0, (span_digits cs).1) else ([], c ∷ cs)

-- The sign of an exponent, and then its digits.
unfoldable pub scan_signed : Text → Text × Text
unfolding span_digits
scan_signed [] = ([], [])
scan_signed (c ∷ cs) =
    if c == 43 || c == minus
    then (c ∷ (span_digits cs).0, (span_digits cs).1)
    else span_digits (c ∷ cs)

unfoldable pub scan_exponent : Text → Text × Text
unfolding scan_signed
scan_exponent [] = ([], [])
scan_exponent (c ∷ cs) =
    if c == 101 || c == 69 then (c ∷ (scan_signed cs).0, (scan_signed cs).1) else ([], c ∷ cs)

unfoldable pub digits_from : ℕ → Text → ℕ
digits_from n [] = n
digits_from n (c ∷ cs) = digits_from (n * 10 + (c - 48)) cs

abbrev pub max_safe : ℕ
max_safe = 9007199254740991

-- `Number.isSafeInteger(Number(token))` of an optional minus and digits: `Number` rounds to a nearest
-- double, and never past a bound that is a double. A minus alone is NaN.
unfoldable pub is_safe_digits : Text → Bool
unfolding digits_from
is_safe_digits [] = false
is_safe_digits (c ∷ cs) = leb (digits_from 0 (c ∷ cs)) max_safe

unfoldable pub is_safe : Text → Bool
unfolding is_safe_digits scan_minus
is_safe token = is_safe_digits (scan_minus token).1

abbrev pub is_empty : Text → Bool
is_empty [] = true
is_empty (c ∷ cs) = false

-- What is put out for a token, from its integer part, fraction and exponent.
unfoldable pub put_number : Text → Text → Text → Text
unfolding is_safe
put_number int fraction exponent =
    if is_empty fraction && (is_empty exponent && not (is_safe int))
    then quote_unit ∷ sentinel ∷ int ++ sentinel ∷ quote_unit ∷ []
    else int ++ (fraction ++ exponent)

-- A number token and what follows it: the output, and the rest of the text.
unfoldable pub number_token : Text → Text × Text
unfolding put_number scan_minus span_digits scan_fraction scan_exponent
number_token t =
    let (sign, t1) = scan_minus t in
    let (digits, t2) = span_digits t1 in
    let (fraction, t3) = scan_fraction t2 in
    let (exponent, t4) = scan_exponent t3 in (put_number (sign ++ digits) fraction exponent, t4)

-- A round of the outer loop.
unfoldable pub next_piece : ℕ → Text → Text × Text
unfolding copy_string number_token
next_piece c cs =
    if c == quote_unit
    then (c ∷ (copy_string false cs).0, (copy_string false cs).1)
    else if c == minus || is_digit c
    then number_token (c ∷ cs)
    else (c ∷ [], cs)

-- The outer loop, with fuel: a round takes a code unit at least.
unfoldable pub quote_from : ℕ → Text → Text
unfolding next_piece
quote_from zero t = []
quote_from (suc f) [] = []
quote_from (suc f) (c ∷ cs) = let piece = next_piece c cs in piece.0 ++ quote_from f piece.1

unfoldable pub quote_unsafe_integers : Text → Text
unfolding quote_from
quote_unsafe_integers t = quote_from (length t) t

-- `SENTINEL_RE.exec`: an optional minus and digits between sentinels.
abbrev pub between : Text → Text → Text → Option Text
between sign (d ∷ ds) (c ∷ []) = if c == sentinel then some (sign ++ (d ∷ ds)) else none
between sign digits rest = none

unfoldable pub sentinel_match : Text → Option Text
unfolding scan_minus span_digits
sentinel_match [] = none
sentinel_match (c ∷ cs) =
    let (sign, t) = scan_minus cs in
    let (digits, rest) = span_digits t in if c == sentinel then between sign digits rest else none

abbrev pub signed : Text → ℕ → ℤ
signed [] n = pos n
signed (c ∷ cs) zero = pos 0
signed (c ∷ cs) (suc n) = negsuc n

-- `BigInt` of an optional minus and digits.
unfoldable pub big_int : Text → ℤ
unfolding scan_minus digits_from
big_int token = signed (scan_minus token).0 (digits_from 0 (scan_minus token).1)

-- The reviver at a string.
abbrev pub revive_text : Text → Option Text → Value
revive_text s none = text s
revive_text s (some token) = bigint (big_int token)

-- The reviver at every value in a result of `JSON.parse`.
unfoldable mutual
  unfolding sentinel_match big_int

  pub revive : Value → Value
  revive (text s) = revive_text s (sentinel_match s)
  revive (arr xs) = arr (revive_items xs)
  revive (obj fs) = obj (revive_fields fs)
  revive v = v

  pub revive_items : Items → Items
  revive_items no_items = no_items
  revive_items (item x xs) = item (revive x) (revive_items xs)

  pub revive_fields : Fields → Fields
  revive_fields no_fields = no_fields
  revive_fields (entry k v fs) = entry k (revive v) (revive_fields fs)

abbrev pub revived : Option Value → Option Value
revived none = none
revived (some v) = some (revive v)

-- `none` is the exception of `JSON.parse`.
unfoldable pub parse_json : (Text → Option Value) → Text → Option Value
parse_json json_parse t = revived (json_parse (quote_unsafe_integers t))
