-- ===== src/Tests/Arrays.antt =====
-- sdk/ts/src/sproto/sproto.ts: arrays of integers over the wire.
use skyext.Prelude.{◌≡◌, refl, arith, Option, some, List, [], ◌∷◌}
use skyext.Sproto.Arrays.InPlace.{read}
use skyext.Sproto.Arrays.Values.{decode_array-targets, present, any_exceeds}
use skyext.Sproto.Arrays.{targets, encode_array, decode_array}
use skyext.Sproto.{num, big, Integer, encode_target}
use skyext.Value.{pos, negsuc}

-- -1, 2^40, 7 as bigint.
abbrev mixed_array : List (Option Integer)
mixed_array = some (num (negsuc 0)) ∷ some (num (pos 1099511627776)) ∷ some (big (pos 7)) ∷ []

mixed_bytes :
    (let w = encode_array 2 (targets mixed_array) (λ i. 0) in read 2 w.1 w.0)
    ≡ 25 ∷ 0 ∷ 0 ∷ 0 ∷ 8 ∷ 255 ∷ 255 ∷ 255 ∷ 255 ∷ 255 ∷ 255 ∷ 255 ∷ 255 ∷ 0 ∷ 0 ∷ 0 ∷ 0 ∷ 0 ∷ 1 ∷ 0
      ∷ 0 ∷ 7 ∷ 0 ∷ 0 ∷ 0 ∷ 0 ∷ 0 ∷ 0 ∷ 0 ∷ []
unfolding targets encode_array read encode_target
mixed_bytes = refl

-- The -1 comes back as a bigint, since 2^40 is among the elements.
decode_array-targets_example :
    (let w = encode_array 2 (targets mixed_array) (λ i. 0) in decode_array (read 2 w.1 w.0))
    ≡ some (big (negsuc 0) ∷ num (pos 1099511627776) ∷ num (pos 7) ∷ [])
unfolding present any_exceeds
decode_array-targets_example =
    decode_array-targets mixed_array 2 (λ i. 0) (omega arith) (omega arith)
