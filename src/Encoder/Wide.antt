-- ===== src/Encoder/Wide.antt =====
-- `decodeInteger<uint64_t>`: the byte is shifted as an `int`, before it is widened.
use studycpp.Prelude.{
  ℕ, zero, suc, ◌+◌, ◌-◌, ◌*◌, ◌/◌, ◌%◌, ◌^◌, ◌≤◌, ◌<◌, bit_or, ◌≡◌, refl, sym, ap, subst, ◌∙◌, ◌≢◌,
  inl, inr, none, some, List, [], ◌∷◌, ◌++◌, arith, dec_lt, Option-cases, length, drop,
}
use studycpp.Prelude.Bits.{bit_or-add, bit_or-ge, two_pow_mono}
use studycpp.Encoder.{decode_loop, decode_integer, encode_integer, byte_count}
use studycpp.Encoder.Words.{shift_int, to_uint}
use studycpp.Encoder.Bytes.{capacity, digits, encoding}
use studycpp.Encoder.Count.{byte_count_lem}
use studycpp.Encoder.Encode.{encode_room}
use studycpp.Encoder.Decode.{decode_integer-loop, count-bound}

loop_undefined : (w n val : ℕ) (ys : List ℕ) → 32 ≤ 7 * n → decode_loop w (suc n) ys val ≡ none
unfolding decode_loop shift_int
loop_undefined w n val [] h = refl
loop_undefined w n val (b ∷ ys) h = ground arith

-- For a type of 64 bits and a buffer with room for ten bytes, every value from 2^35 on is encoded
-- into bytes that have no defined decoding.
pub wide_undefined :
    (v len : ℕ) (buf : List ℕ)
    → 2 ^ 35 ≤ v
    → v < 2 ^ 64
    → 10 ≤ len
    → len ≤ length buf
    → let (n, out) = encode_integer v (some buf) len in decode_integer 64 out n ≡ none
wide_undefined v len buf h b room fits =
    let (p, q, _) = byte_count_lem v in
    let n : ℕ = byte_count v - 1 in
    let e : byte_count v ≡ suc n = omega (arith, p) in
    let narrow : 7 * n < 64 = count-bound 64 n v (omega arith) b e in
    let many : 5 ≤ n = elim (dec_lt n 5) [
      | yes few ↦ absurd (
          omega (arith, two_pow_mono (7 * suc n) 35 (omega arith), subst (λ k. v < capacity k) e q))
      | no more ↦ omega arith
    ] in
    rw (encode_room v n len buf e (omega arith) fits) (
      decode_integer-loop 64 n v (drop (suc n) buf) (omega arith)
      ∙ loop_undefined 64 n 0 (encoding n v ++ drop (suc n) buf) (omega arith))

loop_grows : (w n val : ℕ) (ys : List ℕ) {r : ℕ} → decode_loop w n ys val ≡ some r → val ≤ r
unfolding decode_loop
loop_grows w zero val ys h = ground arith
loop_grows w (suc n) val [] h = cc
loop_grows w (suc n) val (b ∷ ys) h = elim (Option-cases (shift_int (b % 2 ^ 7) (7 * n))) [
  | inl e ↦ cc (rw (e, decode_loop) at h)
  | inr (x, e) ↦
      let more = loop_grows w n (bit_or val (to_uint w x)) ys (rw (e, decode_loop) at h) in
      omega (arith, more, bit_or-ge val val (to_uint w x) (omega arith))
]

shift_negative : (b : ℕ) → 8 ≤ b → b < 16 → shift_int (b % 2 ^ 7) (7 * 4) ≡ some (b * 2 ^ 28)
unfolding shift_int
shift_negative b h k = ap some (omega arith)

to_uint-negative :
    (b : ℕ) → 8 ≤ b → b < 16 → to_uint 64 (b * 2 ^ 28) ≡ b * 2 ^ 28 + (2 ^ 64 - 2 ^ 32)
unfolding to_uint
to_uint-negative b h k = ground arith

-- A first byte whose `int` is negative fills the upper half of the type with ones.
first_negative :
    (b : ℕ) (ys : List ℕ) (r : ℕ)
    → 8 ≤ b
    → b < 16
    → decode_loop 64 5 (b ∷ ys) 0 ≡ some r
    → 2 ^ 64 - 2 ^ 32 ≤ r
unfolding decode_loop
first_negative b ys r h k e =
    let x : ℕ = b * 2 ^ 28 + (2 ^ 64 - 2 ^ 32) in
    omega (
      arith,
      bit_or-add 64 0 x (omega arith),
      loop_grows 64 4 (bit_or 0 x) ys
          (rw (shift_negative b h k, decode_loop, to_uint-negative b h k) at e),
    )

first_byte :
    (v : ℕ) (rest : List ℕ) → v < 2 ^ 32 → (ys : List ℕ) × (encoding 4 v ++ rest ≡ v / 2 ^ 28 ∷ ys)
unfolding encoding digits
first_byte v rest h = (
  drop 1 (encoding 4 v ++ rest),
  ap (λ (b : ℕ). b ∷ drop 1 (encoding 4 v ++ rest)) {x = v / 128 / 128 / 128 / 128 % 128}
      {y = v / 2 ^ 28} (omega arith),
)

five_bytes : (v : ℕ) → 2 ^ 31 ≤ v → v < 2 ^ 32 → byte_count v ≡ 5
five_bytes v h b =
    let (p, q, r) = byte_count_lem v in
    elim (dec_lt (byte_count v) 5) [
      | yes few ↦ absurd (omega (arith, two_pow_mono (7 * byte_count v) 28 (omega arith)))
      | no more ↦ omega (arith, r 4 (omega arith))
    ]

-- For a type of 64 bits and a buffer with room for five bytes, no value from 2^31 to 2^32 - 1 is
-- given back by decoding what the encoder wrote.
pub wide_wrong :
    (v len : ℕ) (buf : List ℕ)
    → 2 ^ 31 ≤ v
    → v < 2 ^ 32
    → 5 ≤ len
    → len ≤ length buf
    → let (n, out) = encode_integer v (some buf) len in decode_integer 64 out n ≢ some v
wide_wrong v len buf h b room fits =
    let (ys, first) = first_byte v (drop 5 buf) b in
    rw (encode_room v 4 len buf (five_bytes v h b) room fits) (λ d. absurd (
      omega (
        arith,
        first_negative (v / 2 ^ 28) ys v (omega arith) (omega arith) (
            ap (λ xs. decode_loop 64 5 xs 0) (sym first)
            ∙ sym (decode_integer-loop 64 4 v (drop 5 buf) (omega arith))
            ∙ d),
      )))
