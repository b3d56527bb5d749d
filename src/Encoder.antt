-- ===== src/Encoder.antt =====
-- encoder.cpp: unsigned integers as bytes of seven bits, the last one with its top bit set.
pub mod Words
pub mod Bytes
pub mod Count
pub mod Encode
pub mod Decode
pub mod Wide
mod Tests
use studycpp.Prelude.{
  ℕ, zero, suc, ◌+◌, ◌-◌, ◌*◌, ◌/◌, ◌%◌, ◌^◌, ◌≤◌, ◌<◌, min, max, bit_and, bit_or, ◌≡◌, refl, sym,
  ap, ap₂, subst, ◌∙◌, ◌≢◌, ◌↔◌, ◌⊎◌, inl, inr, Bool, true, false, not, ◌&&◌, ◌||◌, Option, none,
  some, List, [], ◌∷◌, ◌++◌, map, append_assoc, append-nil, arith, dec_lt, ℕ_discrete, ltb, leb,
  ◌==◌, if◌then◌else◌, ltb→lt, lt→ltb, leb→le, ==_iff, Bool-cases, Option-cases, List-cases, length,
  get_elem?, set, length-append, length-set, get_elem?-set_self, get_elem?-set_ne, get_or, take,
  drop, replicate, take-append-drop, length-take, length-drop, length-replicate, length-map,
}
use studycpp.Encoder.Words.{shift_int, to_uint}

-- The first loop: `while (tmp) { ++encoded_bytes; tmp >>= 7; }`, on fuel.
unfoldable pub count_loop : ℕ → ℕ → ℕ → ℕ
count_loop zero tmp encoded_bytes = encoded_bytes
count_loop (suc fuel) tmp encoded_bytes =
    let more = count_loop fuel (tmp / 2 ^ 7) (encoded_bytes + 1) in
    if tmp == 0 then encoded_bytes else more

-- Each round makes `tmp` smaller, so the value is fuel enough.
unfoldable pub byte_count : ℕ → ℕ
unfolding count_loop
byte_count val = count_loop val (val / 2 ^ 7) 1

-- `while (pos >= 0) { buf[pos--] = val & mask; val >>= 7; }` for the `n` positions below `n`
unfoldable pub write_loop : ℕ → ℕ → List ℕ → List ℕ
write_loop zero val buf = buf
write_loop (suc pos) val buf = write_loop pos (val / 2 ^ 7) (set buf pos (val % 2 ^ 7))

abbrev pub stop_bit : ℕ
stop_bit = 0x80

-- The number of bytes, and the buffer after the call. `none` is a null pointer.
unfoldable pub encode_integer : ℕ → Option (List ℕ) → ℕ → ℕ × Option (List ℕ)
unfolding byte_count write_loop
encode_integer val none len = (0, none)
encode_integer val (some buf) len =
    let n = byte_count val in
    let out = write_loop n val buf in
    if ltb len n
    then (0, some buf)
    else (n, some (set out (n - 1) (bit_or (get_or out (n - 1) 0) stop_bit)))

-- `buf[i] & stop_bit`
unfoldable pub has_stop : ℕ → Bool
has_stop b = not (bit_and b stop_bit == 0)

-- Whether one of the first `n` bytes has the stop bit.
unfoldable pub any_stop : ℕ → List ℕ → Bool
any_stop zero buf = false
any_stop (suc n) [] = false
any_stop (suc n) (b ∷ buf) = has_stop b || any_stop n buf

-- The last loop, for the `n` bytes that are left: byte `i` is shifted by `7 * (len - i - 1)`, as an
-- `int`. `none` is a shift without a defined result.
unfoldable pub decode_loop : ℕ → ℕ → List ℕ → ℕ → Option ℕ
decode_loop w zero buf val = some val
decode_loop w (suc n) [] val = none
decode_loop w (suc n) (b ∷ buf) val = elim (shift_int (b % 2 ^ 7) (7 * n)) [
  | none ↦ none
  | some x ↦ decode_loop w n buf (bit_or val (to_uint w x))
]

-- `decodeInteger<UInt>` for an unsigned type of `w` bits.
unfoldable pub decode_integer : ℕ → Option (List ℕ) → ℕ → Option ℕ
unfolding has_stop any_stop decode_loop
decode_integer w none len = some 0
decode_integer w (some buf) len =
    if (len == 0) || ltb (w / 7 + 1) len
    then some 0
    else if any_stop (len - 1) buf
    then some 0
    else if not (has_stop (get_or buf (len - 1) 0))
    then some 0
    else decode_loop w len buf 0
