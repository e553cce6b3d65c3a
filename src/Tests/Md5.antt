-- ===== src/Tests/Md5.antt =====
-- sdk/ts/src/md5.ts: digests of RFC 1321.
use skyext.Md5.Rounds.{rows, rounds-rfc}
use skyext.Md5.{
  rounds, start_state, md5_hex, md5, padded_length, pad_to, blocks, mixed, word_index, word_at,
  digest, hex,
}
use skyext.Md5.Hexadecimal.{IsHex, md5_hex-IsHex}
use skyext.Md5.Padding.{padded_message, padded_length-padded_message}
use skyext.Prelude.{
  ◌+◌, suc, ◌%◌, ◌<◌, arith, length, All, ℕ, ◌≡◌, refl, some, List, [], ◌∷◌, codes,
}

-- floor(2^32 * |sin(i + 1)|)
abbrev sines : List ℕ
sines =
    3614090360 ∷ 3905402710 ∷ 606105819 ∷ 3250441966 ∷ 4118548399 ∷ 1200080426 ∷ 2821735955
    ∷ 4249261313 ∷ 1770035416 ∷ 2336552879 ∷ 4294925233 ∷ 2304563134 ∷ 1804603682 ∷ 4254626195
    ∷ 2792965006 ∷ 1236535329 ∷ 4129170786 ∷ 3225465664 ∷ 643717713 ∷ 3921069994 ∷ 3593408605
    ∷ 38016083 ∷ 3634488961 ∷ 3889429448 ∷ 568446438 ∷ 3275163606 ∷ 4107603335 ∷ 1163531501
    ∷ 2850285829 ∷ 4243563512 ∷ 1735328473 ∷ 2368359562 ∷ 4294588738 ∷ 2272392833 ∷ 1839030562
    ∷ 4259657740 ∷ 2763975236 ∷ 1272893353 ∷ 4139469664 ∷ 3200236656 ∷ 681279174 ∷ 3936430074
    ∷ 3572445317 ∷ 76029189 ∷ 3654602809 ∷ 3873151461 ∷ 530742520 ∷ 3299628645 ∷ 4096336452
    ∷ 1126891415 ∷ 2878612391 ∷ 4237533241 ∷ 1700485571 ∷ 2399980690 ∷ 4293915773 ∷ 2240044497
    ∷ 1873313359 ∷ 4264355552 ∷ 2734768916 ∷ 1309151649 ∷ 4149444226 ∷ 3174756917 ∷ 718787259
    ∷ 3951481745 ∷ []

md5_hex_empty : md5_hex sines [] ≡ some (codes "d41d8cd98f00b204e9800998ecf8427e")
unfolding md5_hex md5 padded_length pad_to blocks mixed word_index word_at digest hex
md5_hex_empty = refl

md5_hex_abc : md5_hex sines (codes "abc") ≡ some (codes "900150983cd24fb0d6963f7d28e17f72")
unfolding md5_hex md5 padded_length pad_to blocks mixed word_index word_at digest hex
md5_hex_abc = refl

padded_length-padded_message_example :
    (p : ℕ) × (z : ℕ) × (padded_length 3 ≡ some p)
    × (pad_to p (codes "abc") ≡ padded_message z (codes "abc"))
    × ((3 + suc z) % 64 ≡ 56)
    × (z < 64)
    × (p % 64 ≡ 0)
padded_length-padded_message_example = padded_length-padded_message (codes "abc") (omega arith)

md5_hex-IsHex_example :
    (t : List ℕ) × (md5_hex sines (codes "abc") ≡ some t) × (length t ≡ 32) × All IsHex t
md5_hex-IsHex_example = md5_hex-IsHex sines (codes "abc") (omega arith)

rounds-rfc_example :
    rounds sines 64 (codes "skyext") 0 0 start_state
    ≡ rows sines (codes "skyext") 0 16 0 start_state
rounds-rfc_example = rounds-rfc sines (codes "skyext") 0 start_state
