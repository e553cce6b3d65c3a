-- ===== src/Json/LargeIntegers.antt =====
-- sdk/ts/src/json.ts: integers of any size.
use skyext.Json.Scanner.{scan_minus-print, quote_unsafe_integers-print}
use skyext.Json.Tokens.{
  Token, numeral, no_fraction, no_exponent, print, print_minus, rewrite_numeral, IsDigit,
  WellFormed, rewritten, span_digits-DigitFree,
}
use skyext.Json.{
  Text, quote_unit, backslash, sentinel, span_digits, scan_minus, digits_from, max_safe,
  quote_unsafe_integers, between, sentinel_match, signed, big_int, revive, revived, parse_json,
}
use skyext.Prelude.{
  ℕ, zero, suc, ◌≤◌, ◌<◌, ◌≡◌, ◌≢◌, refl, sym, ap, ◌∙◌, Bool, true, false, Option, some, List, [],
  ◌∷◌, ◌++◌, if◌then◌else◌, ltb, All, arith, append_assoc, append-nil, Bool-cases, inl, inr,
}
use skyext.Value.{ℤ, pos, negsuc, Value, bigint, number, text}

-- The integer that a minus or none and digits denote.
abbrev pub integer_of : Bool → ℕ → ℤ
integer_of false n = pos n
integer_of true zero = pos 0
integer_of true (suc n) = negsuc n

signed-integer_of : (neg : Bool) (n : ℕ) → signed (print_minus neg) n ≡ integer_of neg n
signed-integer_of false n = refl
signed-integer_of true zero = refl
signed-integer_of true (suc n) = refl

-- A character that a JSON string holds as it is.
abbrev pub IsVerbatim : ℕ → Type 0
IsVerbatim c = (31 < c) × (c ≢ quote_unit) × (c ≢ backslash)

-- `JSON.parse`, as documented, on a string without escapes and on an integer that a double holds.
pub record Documented (json_parse : Text → Option Value) : Type 0 where
  pub on_string :
      (s : Text) → All IsVerbatim s → json_parse (quote_unit ∷ s ++ quote_unit ∷ []) ≡ some (text s)
  pub on_integer :
      (neg : Bool) (d : ℕ) (ds : Text)
      → 48 < d
      → IsDigit d
      → All IsDigit ds
      → digits_from 0 (d ∷ ds) ≤ max_safe
      → json_parse (print_minus neg ++ (d ∷ ds))
        ≡ some (number (integer_of neg (digits_from 0 (d ∷ ds))))

sentinel_match-parts :
    (cs sign t digits rest : Text)
    → scan_minus cs ≡ (sign, t)
    → span_digits t ≡ (digits, rest)
    → sentinel_match (sentinel ∷ cs) ≡ between sign digits rest
unfolding sentinel_match
sentinel_match-parts cs sign t digits rest e1 e2 = rw (e1, e2)

sentinel_match-token :
    (neg : Bool) (d : ℕ) (ds : Text)
    → IsDigit d
    → All IsDigit ds
    → sentinel_match (sentinel ∷ (print_minus neg ++ (d ∷ ds)) ++ sentinel ∷ [])
      ≡ some (print_minus neg ++ (d ∷ ds))
sentinel_match-token neg d ds h hs =
    ap (λ cs. sentinel_match (sentinel ∷ cs))
      (append_assoc (print_minus neg) (d ∷ ds) (sentinel ∷ []))
    ∙ sentinel_match-parts _ (print_minus neg) _ (d ∷ ds) (sentinel ∷ [])
        (scan_minus-print neg d (ds ++ sentinel ∷ []) h)
        (span_digits-DigitFree (d ∷ ds) (sentinel ∷ []) (h, hs) refl)

pub big_int-integer_of :
    (neg : Bool) (d : ℕ) (ds : Text)
    → IsDigit d
    → big_int (print_minus neg ++ (d ∷ ds)) ≡ integer_of neg (digits_from 0 (d ∷ ds))
unfolding big_int
big_int-integer_of neg d ds h =
    rw (scan_minus-print neg d ds h) (signed-integer_of neg (digits_from 0 (d ∷ ds)))

pub revive-token :
    (neg : Bool) (d : ℕ) (ds : Text)
    → IsDigit d
    → All IsDigit ds
    → revive (text (sentinel ∷ (print_minus neg ++ (d ∷ ds)) ++ sentinel ∷ []))
      ≡ bigint (integer_of neg (digits_from 0 (d ∷ ds)))
unfolding revive
revive-token neg d ds h hs = rw (sentinel_match-token neg d ds h hs, big_int-integer_of neg d ds h)

digit-IsVerbatim : (d : ℕ) → IsDigit d → IsVerbatim d
digit-IsVerbatim d h = (ground arith, λ e. ground arith, λ e. ground arith)

marked-IsVerbatim : (ds : Text) → All IsDigit ds → All IsVerbatim (ds ++ sentinel ∷ [])
marked-IsVerbatim [] h = ((omega arith, λ e. omega arith, λ e. omega arith), tt)
marked-IsVerbatim (d ∷ ds) h = (digit-IsVerbatim d h.0, marked-IsVerbatim ds h.1)

token-IsVerbatim :
    (neg : Bool) (ds : Text)
    → All IsDigit ds
    → All IsVerbatim (sentinel ∷ (print_minus neg ++ ds) ++ sentinel ∷ [])
token-IsVerbatim true ds h = (
  (omega arith, λ e. omega arith, λ e. omega arith),
  ((omega arith, λ e. omega arith, λ e. omega arith), marked-IsVerbatim ds h),
)
token-IsVerbatim false ds h =
    ((omega arith, λ e. omega arith, λ e. omega arith), marked-IsVerbatim ds h)

-- The text of one integer.
quote_unsafe_integers-integer :
    (neg : Bool) (d : ℕ) (ds : Text)
    → IsDigit d
    → All IsDigit ds
    → quote_unsafe_integers (print_minus neg ++ (d ∷ ds))
      ≡ rewrite_numeral neg (d ∷ ds) no_fraction no_exponent
unfolding print WellFormed rewritten
quote_unsafe_integers-integer neg d ds h hs =
    let ts : List Token = numeral neg d ds no_fraction no_exponent ∷ [] in
    let w : WellFormed ts = ((h, hs, tt, tt, tt), tt) in
    ap (λ t. quote_unsafe_integers (print_minus neg ++ t)) (sym (append-nil (d ∷ ds)))
    ∙ (quote_unsafe_integers-print ts w
        ∙ append-nil (rewrite_numeral neg (d ∷ ds) no_fraction no_exponent))

parse_json-revive :
    (json_parse : Text → Option Value) (t out : Text) (v : Value)
    → quote_unsafe_integers t ≡ out
    → json_parse out ≡ some v
    → parse_json json_parse t ≡ some (revive v)
unfolding parse_json
parse_json-revive json_parse t out v e1 e2 = ap (λ u. revived (json_parse u)) e1 ∙ ap revived e2

-- An integer of any size that does not start with 0, with a minus or none, comes out exactly: as a
-- number if a double holds it, that is up to 2^53 - 1, and as a bigint beyond, for every `JSON.parse`
-- that does what is documented.
pub parse_json-integer_of :
    (json_parse : Text → Option Value)
    → Documented json_parse
    → (neg : Bool) (d : ℕ) (ds : Text) → 48 < d
    → IsDigit d
    → All IsDigit ds
    → let n = digits_from 0 (d ∷ ds) in
      parse_json json_parse (print_minus neg ++ (d ∷ ds))
      ≡ some (if ltb max_safe n then bigint (integer_of neg n) else number (integer_of neg n))
unfolding revive
parse_json-integer_of json_parse doc neg d ds nonzero h hs =
    let n = digits_from 0 (d ∷ ds) in
    let tok = print_minus neg ++ (d ∷ ds) in
    let quoted = quote_unsafe_integers-integer neg d ds h hs in
    elim (Bool-cases (ltb max_safe n)) [
      | inl beyond ↦
          let marked = sentinel ∷ tok ++ sentinel ∷ [] in
          let out : rewrite_numeral neg (d ∷ ds) no_fraction no_exponent
              ≡ quote_unit ∷ marked ++ quote_unit ∷ [] =
            rw (beyond, append_assoc (sentinel ∷ tok) (sentinel ∷ []) (quote_unit ∷ [])) in
          rw beyond (
            parse_json-revive json_parse tok _ (text marked) (quoted ∙ out)
              (doc.on_string marked (token-IsVerbatim neg (d ∷ ds) (h, hs)))
            ∙ ap some (revive-token neg d ds h hs))
      | inr within ↦
          let out : rewrite_numeral neg (d ∷ ds) no_fraction no_exponent ≡ tok = rw within in
          rw within (
            parse_json-revive json_parse tok tok (number (integer_of neg n)) (quoted ∙ out)
              (doc.on_integer neg d ds nonzero h hs (ground arith)))
    ]
