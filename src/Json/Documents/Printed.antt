-- ===== src/Json/Documents/Printed.antt =====
-- sdk/ts/src/json.ts: the tokens of a document.
use skyext.Json.Documents.{
  Document, null_, bool, integer, string, array, object, Elements, no_elements, element, Members,
  no_members, member, comma, tokens, element_tokens, member_tokens, IsDocument, AreDocuments,
  AreMembers,
}
use skyext.Json.LargeIntegers.{IsVerbatim}
use skyext.Json.Tokens.{Token, other, print, Escaped, Stops, WellFormed}
use skyext.Json.{Text, quote_unit, backslash}
use skyext.Prelude.{◌≡◌, refl, Bool, true, false, List, [], ◌∷◌, codes, ◌==◌, All, arith}

IsVerbatim-Escaped : (s : Text) → All IsVerbatim s → Escaped false s
unfolding Escaped
IsVerbatim-Escaped [] h = refl
IsVerbatim-Escaped (c ∷ cs) h =
    let quote : (c == quote_unit) ≡ false = ground (arith, h.0) in
    let slash : (c == backslash) ≡ false = ground (arith, h.0) in
    rw (quote, slash) (refl, IsVerbatim-Escaped cs h.1)

-- Tokens that may follow a document.
abbrev pub Follow : List Token → Type 0
Follow ts = Stops (print ts) × WellFormed ts

comma-Follow : (ts : List Token) → Follow ts → (b : Bool) → WellFormed (comma b ts)
unfolding WellFormed
comma-Follow ts h true = ((refl, refl), h.1)
comma-Follow ts h false = h.1

mutual
  unfolding tokens IsDocument WellFormed print

  pub tokens-WellFormed :
      (d : Document) (ts : List Token) → IsDocument d → Follow ts → WellFormed (tokens d ts)
  tokens-WellFormed null_ ts h f =
      ((refl, refl), ((refl, refl), ((refl, refl), ((refl, refl), f.1))))
  tokens-WellFormed (bool true) ts h f =
      ((refl, refl), ((refl, refl), ((refl, refl), ((refl, refl), f.1))))
  tokens-WellFormed (bool false) ts h f =
      ((refl, refl), ((refl, refl), ((refl, refl), ((refl, refl), ((refl, refl), f.1)))))
  tokens-WellFormed (integer neg d ds) ts h f = ((h.0, h.1, tt, tt, f.0), f.1)
  tokens-WellFormed (string s) ts h f = (IsVerbatim-Escaped s h.0, f.1)
  tokens-WellFormed (array es) ts h f = (
    (refl, refl),
    elements-WellFormed false es (other 93 ∷ ts) h ((refl, refl, refl), ((refl, refl), f.1)),
  )
  tokens-WellFormed (object ms) ts h f = (
    (refl, refl),
    members-WellFormed false ms (other 125 ∷ ts) h ((refl, refl, refl), ((refl, refl), f.1)),
  )

  elements-WellFormed :
      (b : Bool) (es : Elements) (ts : List Token)
      → AreDocuments es
      → Follow ts
      → WellFormed (element_tokens b es ts)
  elements-WellFormed b no_elements ts h f = f.1
  elements-WellFormed true (element d es) ts h f = (
    (refl, refl),
    tokens-WellFormed d (element_tokens true es ts) h.0 (more_elements es ts h.1 f),
  )
  elements-WellFormed false (element d es) ts h f =
      tokens-WellFormed d (element_tokens true es ts) h.0 (more_elements es ts h.1 f)

  more_elements :
      (es : Elements) (ts : List Token)
      → AreDocuments es
      → Follow ts
      → Follow (element_tokens true es ts)
  more_elements no_elements ts h f = f
  more_elements (element d es) ts h f = (
    (refl, refl, refl),
    ((refl, refl), tokens-WellFormed d (element_tokens true es ts) h.0 (more_elements es ts h.1 f)),
  )

  members-WellFormed :
      (b : Bool) (ms : Members) (ts : List Token)
      → AreMembers ms
      → Follow ts
      → WellFormed (member_tokens b ms ts)
  members-WellFormed b no_members ts h f = f.1
  members-WellFormed true (member k d ms) ts h f = (
    (refl, refl),
    (
      IsVerbatim-Escaped (codes k) h.0,
      ((refl, refl), tokens-WellFormed d (member_tokens true ms ts) h.1 (more_members ms ts h.2 f)),
    ),
  )
  members-WellFormed false (member k d ms) ts h f = (
    IsVerbatim-Escaped (codes k) h.0,
    ((refl, refl), tokens-WellFormed d (member_tokens true ms ts) h.1 (more_members ms ts h.2 f)),
  )

  more_members :
      (ms : Members) (ts : List Token)
      → AreMembers ms
      → Follow ts
      → Follow (member_tokens true ms ts)
  more_members no_members ts h f = f
  more_members (member k d ms) ts h f = (
    (refl, refl, refl),
    (
      (refl, refl),
      (
        IsVerbatim-Escaped (codes k) h.0,
        (
          (refl, refl),
          tokens-WellFormed d (member_tokens true ms ts) h.1 (more_members ms ts h.2 f),
        ),
      ),
    ),
  )
