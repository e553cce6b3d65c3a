-- ===== src/Json/Scanner.antt =====
-- sdk/ts/src/json.ts: the scanner on the text of tokens.
use skyext.Json.Tokens.{
  Fraction, no_fraction, fraction, Exponent, no_exponent, exponent, Token, literal, numeral, other,
  print_minus, print_fraction, print_exponent, print_onto, print, IsDigit, Escaped, ValidFraction,
  ValidExponent, Stops, Valid, WellFormed, rewrite_numeral, rewrite_token, rewritten,
  copy_string-Escaped, DigitFree, span_digits-DigitFree, Stops-DigitFree, digit_lem,
}
use skyext.Json.{
  Text, quote_unit, minus, is_digit, span_digits, scan_minus, scan_fraction, scan_signed,
  scan_exponent, digits_from, max_safe, is_safe, put_number, number_token, next_piece, quote_from,
  quote_unsafe_integers, is_safe_digits,
}
use skyext.Prelude.{
  ℕ, zero, suc, ◌≤◌, ◌≡◌, refl, ap, ◌∙◌, Bool, true, false, not, ◌||◌, none, some, List, [], ◌∷◌,
  ◌++◌, if◌then◌else◌, ◌==◌, ltb, length, length-append, All, arith, append-nil,
}

-- After digits no more digits, and no point.
exponent-DigitFree :
    (e : Exponent) (rest : Text) → Stops rest → DigitFree (print_exponent e ++ rest)
exponent-DigitFree no_exponent rest stop = Stops-DigitFree rest stop
exponent-DigitFree (exponent true none d ds) rest stop = refl
exponent-DigitFree (exponent true (some plus) d ds) rest stop = refl
exponent-DigitFree (exponent false none d ds) rest stop = refl
exponent-DigitFree (exponent false (some plus) d ds) rest stop = refl

fraction-DigitFree :
    (f : Fraction) (e : Exponent) (rest : Text)
    → Stops rest
    → DigitFree (print_fraction f ++ (print_exponent e ++ rest))
fraction-DigitFree no_fraction e rest stop = exponent-DigitFree e rest stop
fraction-DigitFree (fraction ds) e rest stop = refl

scan_fraction-none :
    (e : Exponent) (rest : Text)
    → Stops rest
    → scan_fraction (print_exponent e ++ rest) ≡ ([], print_exponent e ++ rest)
unfolding scan_fraction
scan_fraction-none no_exponent [] stop = refl
scan_fraction-none no_exponent (c ∷ cs) stop = rw stop.1
scan_fraction-none (exponent true none d ds) rest stop = refl
scan_fraction-none (exponent true (some plus) d ds) rest stop = refl
scan_fraction-none (exponent false none d ds) rest stop = refl
scan_fraction-none (exponent false (some plus) d ds) rest stop = refl

scan_fraction-print :
    (f : Fraction) (e : Exponent) (rest : Text)
    → ValidFraction f
    → Stops rest
    → scan_fraction (print_fraction f ++ (print_exponent e ++ rest))
      ≡ (print_fraction f, print_exponent e ++ rest)
unfolding scan_fraction
scan_fraction-print no_fraction e rest h stop = scan_fraction-none e rest stop
scan_fraction-print (fraction ds) e rest h stop =
    rw (span_digits-DigitFree ds (print_exponent e ++ rest) h (exponent-DigitFree e rest stop))

scan_signed-none :
    (d : ℕ) (ds rest : Text)
    → IsDigit d
    → All IsDigit ds
    → Stops rest
    → scan_signed (d ∷ ds ++ rest) ≡ (d ∷ ds, rest)
unfolding scan_signed
scan_signed-none d ds rest h hs stop =
    rw ((digit_lem d h).1, span_digits-DigitFree (d ∷ ds) rest (h, hs) (Stops-DigitFree rest stop))

scan_signed-sign :
    (plus : Bool) (d : ℕ) (ds rest : Text)
    → IsDigit d
    → All IsDigit ds
    → Stops rest
    → scan_signed ((if plus then 43 else minus) ∷ d ∷ ds ++ rest)
      ≡ ((if plus then 43 else minus) ∷ d ∷ ds, rest)
unfolding scan_signed
scan_signed-sign true d ds rest h hs stop =
    rw (span_digits-DigitFree (d ∷ ds) rest (h, hs) (Stops-DigitFree rest stop))
scan_signed-sign false d ds rest h hs stop =
    rw (span_digits-DigitFree (d ∷ ds) rest (h, hs) (Stops-DigitFree rest stop))

scan_exponent-print :
    (e : Exponent) (rest : Text)
    → ValidExponent e
    → Stops rest
    → scan_exponent (print_exponent e ++ rest) ≡ (print_exponent e, rest)
unfolding scan_exponent
scan_exponent-print no_exponent [] h stop = refl
scan_exponent-print no_exponent (c ∷ cs) h stop = rw stop.2
scan_exponent-print (exponent true none d ds) rest h stop =
    rw (scan_signed-none d ds rest h.0 h.1 stop)
scan_exponent-print (exponent false none d ds) rest h stop =
    rw (scan_signed-none d ds rest h.0 h.1 stop)
scan_exponent-print (exponent true (some plus) d ds) rest h stop =
    rw (scan_signed-sign plus d ds rest h.0 h.1 stop)
scan_exponent-print (exponent false (some plus) d ds) rest h stop =
    rw (scan_signed-sign plus d ds rest h.0 h.1 stop)

pub scan_minus-print :
    (neg : Bool) (d : ℕ) (rest : Text)
    → IsDigit d
    → scan_minus (print_minus neg ++ (d ∷ rest)) ≡ (print_minus neg, d ∷ rest)
unfolding scan_minus
scan_minus-print true d rest h = refl
scan_minus-print false d rest h = rw (digit_lem d h).0

is_safe-numeral :
    (neg : Bool) (d : ℕ) (ds : Text)
    → IsDigit d
    → not (is_safe (print_minus neg ++ d ∷ ds)) ≡ ltb max_safe (digits_from 0 (d ∷ ds))
unfolding is_safe is_safe_digits
is_safe-numeral neg d ds h = rw (scan_minus-print neg d ds h) (ground arith)

put_number-numeral :
    (neg : Bool) (d : ℕ) (ds : Text) (f : Fraction) (e : Exponent)
    → IsDigit d
    → put_number (print_minus neg ++ d ∷ ds) (print_fraction f) (print_exponent e)
      ≡ rewrite_numeral neg (d ∷ ds) f e
unfolding put_number
put_number-numeral neg d ds no_fraction no_exponent h =
    rw (is_safe-numeral neg d ds h, append-nil (print_minus neg ++ d ∷ ds))
put_number-numeral neg d ds no_fraction (exponent upper none b bs) h = refl
put_number-numeral neg d ds no_fraction (exponent upper (some plus) b bs) h = refl
put_number-numeral neg d ds (fraction fs) e h = refl

-- A number token of its four parts.
number_token-parts :
    (t sign t1 digits t2 frac t3 expo t4 : Text)
    → scan_minus t ≡ (sign, t1)
    → span_digits t1 ≡ (digits, t2)
    → scan_fraction t2 ≡ (frac, t3)
    → scan_exponent t3 ≡ (expo, t4)
    → number_token t ≡ (put_number (sign ++ digits) frac expo, t4)
unfolding number_token
number_token-parts t sign t1 digits t2 frac t3 expo t4 e1 e2 e3 e4 = rw (e1, e2, e3, e4)

number_token-print :
    (neg : Bool) (d : ℕ) (ds : Text) (f : Fraction) (e : Exponent) (rest : Text)
    → Valid (numeral neg d ds f e) rest
    → number_token (print_onto (numeral neg d ds f e) rest)
      ≡ (rewrite_numeral neg (d ∷ ds) f e, rest)
number_token-print neg d ds f e rest (h, hs, hf, he, stop) =
    let t3 = print_exponent e ++ rest in
    let t2 = print_fraction f ++ t3 in
    number_token-parts (print_minus neg ++ (d ∷ ds ++ t2)) (print_minus neg) (d ∷ ds ++ t2) (d ∷ ds)
      t2 (print_fraction f) t3 (print_exponent e) rest (scan_minus-print neg d (ds ++ t2) h)
      (span_digits-DigitFree (d ∷ ds) t2 (h, hs) (fraction-DigitFree f e rest stop))
      (scan_fraction-print f e rest hf stop) (scan_exponent-print e rest he stop)
    ∙ ap (λ out. (out, rest)) (put_number-numeral neg d ds f e h)

-- A digit or a minus starts a number.
next_piece-number :
    (c : ℕ) (cs : Text)
    → (c == quote_unit) ≡ false
    → (c == minus || is_digit c) ≡ true
    → next_piece c cs ≡ number_token (c ∷ cs)
unfolding next_piece
next_piece-number c cs no_quote starts = rw (no_quote, starts)

quote_from-piece :
    (k c : ℕ) (cs out rest : Text)
    → next_piece c cs ≡ (out, rest)
    → quote_from (suc k) (c ∷ cs) ≡ out ++ quote_from k rest
unfolding quote_from
quote_from-piece k c cs out rest e = ap (λ piece. piece.0 ++ quote_from k piece.1) e

next_piece-digit : (d : ℕ) (cs : Text) → IsDigit d → next_piece d cs ≡ number_token (d ∷ cs)
next_piece-digit d cs h =
    let l = digit_lem d h in
    let starts : (d == minus || is_digit d) ≡ true = rw (l.0, h) in
    next_piece-number d cs l.2 starts

next_piece-literal :
    (body rest : Text)
    → Escaped false body
    → next_piece quote_unit (body ++ quote_unit ∷ rest)
      ≡ (quote_unit ∷ body ++ quote_unit ∷ [], rest)
unfolding next_piece
next_piece-literal body rest h = rw (copy_string-Escaped false body rest h)

next_piece-other : (c : ℕ) (rest : Text) → Valid (other c) rest → next_piece c rest ≡ (c ∷ [], rest)
unfolding next_piece
next_piece-other c rest h = rw (h.0, h.1)

-- One round of the loop takes one token.
quote_from-token :
    (k : ℕ) (t : Token) (rest : Text)
    → Valid t rest
    → quote_from (suc k) (print_onto t rest) ≡ rewrite_token t ++ quote_from k rest
quote_from-token k (literal body) rest h =
    quote_from-piece k quote_unit _ _ rest (next_piece-literal body rest h)
quote_from-token k (numeral true d ds f e) rest h =
    quote_from-piece k minus _ _ rest
      (next_piece-number minus _ refl refl ∙ number_token-print true d ds f e rest h)
quote_from-token k (numeral false d ds f e) rest h =
    quote_from-piece k d _ _ rest
      (next_piece-digit d _ h.0 ∙ number_token-print false d ds f e rest h)
quote_from-token k (other c) rest h = quote_from-piece k c rest _ rest (next_piece-other c rest h)

quote_from-rewritten :
    (k : ℕ) (ts : List Token)
    → length ts ≤ k
    → WellFormed ts
    → quote_from k (print ts) ≡ rewritten ts
unfolding quote_from print WellFormed rewritten
quote_from-rewritten zero [] h w = refl
quote_from-rewritten (suc k) [] h w = refl
quote_from-rewritten zero (t ∷ ts) h w = absurd (omega arith)
quote_from-rewritten (suc k) (t ∷ ts) h w =
    quote_from-token k t (print ts) w.0
    ∙ ap (◌++◌ (rewrite_token t)) (quote_from-rewritten k ts (omega arith) w.1)

print_onto-longer : (t : Token) (rest : Text) → suc (length rest) ≤ length (print_onto t rest)
print_onto-longer (literal body) rest = omega (arith, length-append body (quote_unit ∷ rest))
print_onto-longer (numeral true d ds f e) rest = omega (
  arith,
  length-append ds (print_fraction f ++ (print_exponent e ++ rest)),
  length-append (print_fraction f) (print_exponent e ++ rest),
  length-append (print_exponent e) rest,
)
print_onto-longer (numeral false d ds f e) rest = omega (
  arith,
  length-append ds (print_fraction f ++ (print_exponent e ++ rest)),
  length-append (print_fraction f) (print_exponent e ++ rest),
  length-append (print_exponent e) rest,
)
print_onto-longer (other c) rest = omega arith

length-print : (ts : List Token) → length ts ≤ length (print ts)
unfolding print
length-print [] = omega arith
length-print (t ∷ ts) = omega (arith, length-print ts, print_onto-longer t (print ts))

-- On the text of any well-formed tokens the scanner puts exactly the integers beyond 2^53 - 1 between
-- sentinels, with their minus; strings, whatever they hold, numbers with a fraction or an exponent and
-- all else stay as they are.
pub quote_unsafe_integers-print :
    (ts : List Token) → WellFormed ts → quote_unsafe_integers (print ts) ≡ rewritten ts
unfolding quote_unsafe_integers
quote_unsafe_integers-print ts w = quote_from-rewritten (length (print ts)) ts (length-print ts) w
