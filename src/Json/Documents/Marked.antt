-- ===== src/Json/Documents/Marked.antt =====
-- sdk/ts/src/json.ts: the text of a document after the scanner.
use skyext.Json.Documents.{
  Document, null_, bool, integer, string, array, object, Elements, no_elements, element, Members,
  no_members, member, tokens, element_tokens, member_tokens, marked_integer, is_beyond, marked,
  marked_elements, marked_members,
}
use skyext.Json.Tokens.{
  Token, literal, other, no_fraction, no_exponent, print, print_minus, rewrite_numeral, rewritten,
}
use skyext.Json.{Text, quote_unit}
use skyext.Prelude.{
  ℕ, ◌≡◌, refl, ap, ◌∙◌, Bool, true, false, List, [], ◌∷◌, ◌++◌, codes, append_assoc,
}

-- An integer as it is put out, before a text.
marked_integer-print :
    (b neg : Bool) (d : ℕ) (ds : Text) (ts us : List Token)
    → is_beyond d ds ≡ b
    → rewritten ts ≡ print us
    → rewrite_numeral neg (d ∷ ds) no_fraction no_exponent ++ rewritten ts
      ≡ print (tokens (marked_integer b neg d ds) us)
unfolding tokens print
marked_integer-print true neg d ds ts us e h =
    let tok = print_minus neg ++ (d ∷ ds) in rw (e, h) (simp append_assoc)
marked_integer-print false neg d ds ts us e h =
    rw (e, h) (append_assoc (print_minus neg) (d ∷ ds) (print us))

literal-print :
    (s : Text) (ts us : List Token)
    → rewritten ts ≡ print us
    → (quote_unit ∷ s ++ quote_unit ∷ []) ++ rewritten ts ≡ print (literal s ∷ us)
unfolding print
literal-print s ts us h =
    ap (λ t. (quote_unit ∷ s ++ quote_unit ∷ []) ++ t) h
    ∙ ap (◌∷◌ quote_unit) (append_assoc s (quote_unit ∷ []) (print us))

mutual
  unfolding tokens marked rewritten print

  pub tokens-marked :
      (d : Document) (ts us : List Token)
      → rewritten ts ≡ print us
      → rewritten (tokens d ts) ≡ print (tokens (marked d) us)
  tokens-marked null_ ts us h = rw h
  tokens-marked (bool true) ts us h = rw h
  tokens-marked (bool false) ts us h = rw h
  tokens-marked (integer neg d ds) ts us h =
      marked_integer-print (is_beyond d ds) neg d ds ts us refl h
  tokens-marked (string s) ts us h = literal-print s ts us h
  tokens-marked (array es) ts us h =
      ap (◌∷◌ 91) (elements-marked false es (other 93 ∷ ts) (other 93 ∷ us) (ap (◌∷◌ 93) h))
  tokens-marked (object ms) ts us h =
      ap (◌∷◌ 123) (members-marked false ms (other 125 ∷ ts) (other 125 ∷ us) (ap (◌∷◌ 125) h))

  elements-marked :
      (b : Bool) (es : Elements) (ts us : List Token)
      → rewritten ts ≡ print us
      → rewritten (element_tokens b es ts) ≡ print (element_tokens b (marked_elements es) us)
  elements-marked b no_elements ts us h = h
  elements-marked true (element d es) ts us h = ap (◌∷◌ 44) (
      tokens-marked d (element_tokens true es ts) (element_tokens true (marked_elements es) us)
        (elements-marked true es ts us h))
  elements-marked false (element d es) ts us h =
      tokens-marked d (element_tokens true es ts) (element_tokens true (marked_elements es) us)
        (elements-marked true es ts us h)

  members-marked :
      (b : Bool) (ms : Members) (ts us : List Token)
      → rewritten ts ≡ print us
      → rewritten (member_tokens b ms ts) ≡ print (member_tokens b (marked_members ms) us)
  members-marked b no_members ts us h = h
  members-marked true (member k d ms) ts us h = ap (◌∷◌ 44) (
      literal-print (codes k) (other 58 ∷ tokens d (member_tokens true ms ts))
        (other 58 ∷ tokens (marked d) (member_tokens true (marked_members ms) us))
        (ap (◌∷◌ 58) (
          tokens-marked d (member_tokens true ms ts) (member_tokens true (marked_members ms) us)
            (members-marked true ms ts us h))))
  members-marked false (member k d ms) ts us h =
      literal-print (codes k) (other 58 ∷ tokens d (member_tokens true ms ts))
        (other 58 ∷ tokens (marked d) (member_tokens true (marked_members ms) us))
        (ap (◌∷◌ 58) (
          tokens-marked d (member_tokens true ms ts) (member_tokens true (marked_members ms) us)
            (members-marked true ms ts us h)))
