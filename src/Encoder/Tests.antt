-- ===== src/Encoder/Tests.antt =====
-- The examples of encoder.cpp, and the theorems at concrete values.
use studycpp.Prelude.{
  ℕ, suc, ◌^◌, ◌≤◌, ◌<◌, ◌≡◌, refl, ◌≢◌, none, some, List, [], ◌∷◌, ◌++◌, arith, drop, replicate,
}
use studycpp.Encoder.{encode_integer, decode_integer, byte_count}
use studycpp.Encoder.Words.{shift_int, to_uint}
use studycpp.Encoder.Bytes.{encoding, capacity}
use studycpp.Encoder.Encode.{encode_integer_lem}
use studycpp.Encoder.Decode.{decode_integer-encode_integer}
use studycpp.Encoder.Wide.{wide_undefined, wide_wrong}

abbrev blank : List ℕ
blank = replicate 10 0

encode_run :
    (encode_integer 128 (some blank) 10 ≡ (2, some (0x01 ∷ 0x80 ∷ replicate 8 0)))
    × (encode_integer 19730 (some blank) 10 ≡ (3, some (0x01 ∷ 0x1a ∷ 0x92 ∷ replicate 7 0)))
    × (encode_integer 16 (some blank) 10 ≡ (1, some (0x90 ∷ replicate 9 0)))
    × (encode_integer 128 (some blank) 1 ≡ (0, some blank))
unfolding encode_integer
encode_run = (refl, refl, refl, refl)

decode_run :
    (decode_integer 32 (some (0x01 ∷ 0x1a ∷ 0x92 ∷ [])) 3 ≡ some 19730)
    × (decode_integer 32 (some (0x01 ∷ 0x00 ∷ [])) 2 ≡ some 0)
    × (decode_integer 32 (some (0x81 ∷ 0x80 ∷ [])) 2 ≡ some 0)
unfolding decode_integer shift_int to_uint
decode_run = (refl, refl, refl)

encode_integer_lem_example :
    (n : ℕ) × (byte_count 128 ≡ suc n)
    × (128 < capacity (suc n))
    × ((m : ℕ) → 128 < capacity (suc m) → n ≤ m)
    × (encode_integer 128 none 10 ≡ (0, none))
    × (suc n ≤ 10
        → encode_integer 128 (some blank) 10 ≡ (suc n, some (encoding n 128 ++ drop (suc n) blank)))
    × (10 ≤ n → encode_integer 128 (some blank) 10 ≡ (0, some blank))
encode_integer_lem_example = encode_integer_lem 128 blank 10 (omega arith)

decode_integer-encode_integer_example :
    let (n, out) = encode_integer 19730 (some blank) 10 in decode_integer 32 out n ≡ some 19730
unfolding byte_count
decode_integer-encode_integer_example =
    decode_integer-encode_integer 32 19730 10 blank (omega arith) (omega arith) (omega arith)
      (omega arith) (omega arith)

wide_undefined_example :
    let (n, out) = encode_integer (2 ^ 40) (some blank) 10 in decode_integer 64 out n ≡ none
wide_undefined_example =
    wide_undefined (2 ^ 40) 10 blank (omega arith) (omega arith) (omega arith) (omega arith)

wide_wrong_example :
    let (n, out) = encode_integer (2 ^ 31) (some blank) 10 in
    decode_integer 64 out n ≢ some (2 ^ 31)
wide_wrong_example =
    wide_wrong (2 ^ 31) 10 blank (omega arith) (omega arith) (omega arith) (omega arith)
