-- ===== src/Encoder/Decode.antt =====
-- What `decodeInteger` reads, and that it undoes `encodeInteger` for the types of up to 32 bits.
use native.Mathlib.Nat.{mod-eq_of_lt, mul-le-mul_right}
use studycpp.Prelude.Bits.{two_pow_mono}
use studycpp.Prelude.{
  ℕ, zero, suc, ◌+◌, ◌-◌, ◌*◌, ◌/◌, ◌%◌, ◌^◌, ◌≤◌, ◌<◌, ◌≡◌, refl, ap, ap₂, subst, ◌∙◌, true, false,
  not, ◌||◌, some, List, [], ◌∷◌, ◌++◌, append_assoc, arith, dec_lt, lt→ltb, length, get_or, drop,
}
use studycpp.Encoder.{has_stop, any_stop, decode_loop, decode_integer, encode_integer, byte_count}
use studycpp.Encoder.Words.{shift_int, to_uint}
use studycpp.Encoder.Bytes.{capacity, capacity-suc, digits, length-digits, encoding, bit_or-digit}
use studycpp.Encoder.Count.{byte_count_lem}
use studycpp.Encoder.Encode.{encode_room, all_below, all_below_at, get_or-append}

plain_table : all_below 128 (λ d. not (has_stop d)) ≡ true
unfolding all_below has_stop
plain_table = refl

marked_table : all_below 128 (λ d. has_stop (d + 128)) ≡ true
unfolding all_below has_stop
marked_table = refl

has_stop-plain : (d : ℕ) → d < 128 → has_stop d ≡ false
has_stop-plain d h = ground (arith, all_below_at 128 (λ d. not (has_stop d)) d plain_table h)

pub has_stop-marked : (d : ℕ) → d < 128 → has_stop (d + 128) ≡ true
has_stop-marked d h = all_below_at 128 (λ d. has_stop (d + 128)) d marked_table h

-- No digit has the stop bit.
any_stop-append : (m n v : ℕ) (ys : List ℕ) → any_stop (n + m) (digits n v ++ ys) ≡ any_stop m ys
unfolding any_stop digits
any_stop-append m zero v ys = ap (λ k. any_stop k ys) (omega arith)
any_stop-append m (suc n) v ys =
    ap (λ k. any_stop k (digits (suc n) v ++ ys)) (omega arith)
    ∙ ap (any_stop (n + suc m)) (append_assoc (digits n (v / 128)) ((v % 128) ∷ []) ys)
    ∙ any_stop-append (suc m) n (v / 128) ((v % 128) ∷ ys)
    ∙ ap (λ b. b || any_stop m ys) (has_stop-plain (v % 128) (omega arith))

-- An `int` that fits the type is its own value there.
to_uint-small : (w x : ℕ) → w ≤ 32 → x < 2 ^ w → to_uint w x ≡ x
unfolding to_uint
to_uint-small w x narrow h = elim (dec_lt w 32) [
  | yes less ↦
      let bound : 2 ^ w ≤ 2 ^ 31 = two_pow_mono w 31 (omega arith) in
      rw (lt→ltb x (2 ^ 31) (omega arith)) (mod-eq_of_lt h)
  | no more ↦
      let e : w ≡ 32 = omega arith in rw e (ground (arith, subst (λ (k : ℕ). x < 2 ^ k) e h))
]

module _ (w : ℕ) (narrow : w ≤ 32) where
  -- The bits of one byte in their place, if the place is within the type.
  place :
      (d n : ℕ)
      → d * capacity n < 2 ^ w
      → 7 * n < 32
      → (x : ℕ) × (shift_int d (7 * n) ≡ some x) × (to_uint w x ≡ d * capacity n)
  unfolding shift_int
  place d n h k =
      let bound : 2 ^ w ≤ 2 ^ 32 = two_pow_mono w 32 narrow in
      (
        d * capacity n,
        rw (lt→ltb (7 * n) 32 k) (ap some (mod-eq_of_lt (omega arith))),
        to_uint-small w (d * capacity n) narrow h,
      )

  decode_loop-suc :
      (n b a : ℕ) (ys : List ℕ)
      → (a * 128 + b % 128) * capacity n < 2 ^ w
      → 7 * n < 32
      → decode_loop w (suc n) (b ∷ ys) (a * capacity (suc n))
        ≡ decode_loop w n ys ((a * 128 + b % 128) * capacity n)
  unfolding decode_loop
  decode_loop-suc n b a ys h k =
      let (x, e, q) = place (b % 128) n (grind arith) k in
      rw (e, decode_loop)
        (ap (decode_loop w n ys) (rw q (bit_or-digit n a (b % 128) (omega arith))))

  up : (a n u : ℕ) → (a * capacity n + u / 128) * 128 + u % 128 % 128 ≡ a * capacity (suc n) + u
  up a n u = omega (arith, ap (λ (t : ℕ). a * t) (capacity-suc n))

  up_le :
      (a n u k : ℕ)
      → (a * capacity n + u / 128) * capacity (suc k) ≤ (a * capacity (suc n) + u) * capacity k
  up_le a n u k =
      let x : ℕ = a * capacity n + u / 128 in
      let e : x * capacity (suc k) ≡ x * 128 * capacity k =
        omega (arith, ap (λ (t : ℕ). x * t) (capacity-suc k)) in
      let le : x * 128 ≤ a * capacity (suc n) + u = omega (arith, up a n u) in
      rw e (mul-le-mul_right (capacity k) le)

  -- The loop over a run of digits adds them below what was read before.
  decode_loop-digits :
      (n k u a : ℕ) (ys : List ℕ)
      → u < capacity n
      → (a * capacity n + u) * capacity k < 2 ^ w
      → 7 * (n + k) < 39
      → decode_loop w (n + k) (digits n u ++ ys) (a * capacity (n + k))
        ≡ decode_loop w k ys ((a * capacity n + u) * capacity k)
  unfolding digits
  decode_loop-digits zero k u a ys h b s =
      ap (λ m. decode_loop w m ys (a * capacity m)) {x = 0 + k} {y = k} (omega arith)
      ∙ ap (decode_loop w k ys) (ap (λ (t : ℕ). t * capacity k) (omega arith))
  decode_loop-digits (suc n) k u a ys h b s =
      ap (λ m. decode_loop w m (digits (suc n) u ++ ys) (a * capacity m)) {x = suc n + k}
        {y = n + suc k} (omega arith)
      ∙ ap (λ xs. decode_loop w (n + suc k) xs (a * capacity (n + suc k)))
          (append_assoc (digits n (u / 128)) ((u % 128) ∷ []) ys)
      ∙ decode_loop-digits n (suc k) (u / 128) a ((u % 128) ∷ ys) (omega (arith, capacity-suc n))
          (omega (arith, up_le a n u k)) (omega arith)
      ∙ decode_loop-suc k (u % 128) (a * capacity n + u / 128) ys (rw (up a n u) b) (omega arith)
      ∙ ap (λ (t : ℕ). decode_loop w k ys (t * capacity k)) (up a n u)

  decode_loop-encoding :
      (n v : ℕ) (rest : List ℕ)
      → v < capacity (suc n)
      → v < 2 ^ w
      → 7 * n < 32
      → decode_loop w (suc n) (encoding n v ++ rest) 0 ≡ some v
  unfolding encoding decode_loop
  decode_loop-encoding n v rest h b s =
      ap (λ xs. decode_loop w (suc n) xs 0)
        (append_assoc (digits n (v / 128)) ((v % 128 + 128) ∷ []) rest)
      ∙ ap₂ (λ m (t : ℕ). decode_loop w m (digits n (v / 128) ++ ((v % 128 + 128) ∷ rest)) t)
          {x = suc n} {y = n + 1} {u = 0} {v = 0 * capacity (n + 1)} (omega arith) (omega arith)
      ∙ decode_loop-digits n 1 (v / 128) 0 ((v % 128 + 128) ∷ rest) (omega (arith, capacity-suc n))
          (omega arith) (omega arith)
      ∙ decode_loop-suc 0 (v % 128 + 128) (0 * capacity n + v / 128) rest (omega arith)
          (omega arith)
      ∙ ap some (omega arith)

any_stop-encoding : (n v : ℕ) (rest : List ℕ) → any_stop n (encoding n v ++ rest) ≡ false
unfolding encoding any_stop
any_stop-encoding n v rest =
    ap (any_stop n) (append_assoc (digits n (v / 128)) ((v % 128 + 128) ∷ []) rest)
    ∙ ap (λ m. any_stop m (digits n (v / 128) ++ ((v % 128 + 128) ∷ rest))) {x = n} {y = n + 0}
        (omega arith)
    ∙ any_stop-append 0 n (v / 128) ((v % 128 + 128) ∷ rest)
    ∙ no_stop ((v % 128 + 128) ∷ rest)
  where
    no_stop : (ys : List ℕ) → any_stop 0 ys ≡ false
    no_stop ys = refl

last-encoding : (n v : ℕ) (rest : List ℕ) → has_stop (get_or (encoding n v ++ rest) n 0) ≡ true
unfolding encoding
last-encoding n v rest =
    ap (λ xs. has_stop (get_or xs n 0))
      (append_assoc (digits n (v / 128)) ((v % 128 + 128) ∷ []) rest)
    ∙ ap has_stop
        (get_or-append (digits n (v / 128)) rest (v % 128 + 128) 0 n (length-digits n (v / 128)))
    ∙ has_stop-marked (v % 128) (omega arith)

-- What the tests of the decoder let through goes to its loop.
pub decode_integer-loop :
    (w n v : ℕ) (rest : List ℕ)
    → suc n ≤ w / 7 + 1
    → decode_integer w (some (encoding n v ++ rest)) (suc n)
      ≡ decode_loop w (suc n) (encoding n v ++ rest) 0
unfolding decode_integer
decode_integer-loop w n v rest h = ground (
  arith,
  any_stop-encoding n v rest,
  last-encoding n v rest,
  ap (λ m. any_stop m (encoding n v ++ rest)) {x = suc n - 1} {y = n} (omega arith),
  ap (λ m. get_or (encoding n v ++ rest) m 0) {x = suc n - 1} {y = n} (omega arith),
)

-- The groups before the last lie within the width of the type.
pub count-bound : (w n v : ℕ) → 1 ≤ w → v < 2 ^ w → byte_count v ≡ suc n → 7 * n < w
count-bound w zero v h b e = omega arith
count-bound w (suc n) v h b e = elim (dec_lt (7 * suc n) w) [
  | yes less ↦ less
  | no more ↦ absurd (
      omega (
        arith,
        two_pow_mono w (7 * suc n) (omega arith),
        (byte_count_lem v).2 n (omega (arith, two_pow_mono w (7 * suc n) (omega arith))),
      ))
]

-- For an unsigned type of 8 to 32 bits, decoding what the encoder wrote gives the value back, with
-- any buffer of at least the room that the value needs.
pub decode_integer-encode_integer :
    (w v len : ℕ) (buf : List ℕ)
    → 8 ≤ w
    → w ≤ 32
    → v < 2 ^ w
    → byte_count v ≤ len
    → len ≤ length buf
    → let (n, out) = encode_integer v (some buf) len in decode_integer w out n ≡ some v
decode_integer-encode_integer w v len buf low high b room fits =
    let (p, q, _) = byte_count_lem v in
    let n : ℕ = byte_count v - 1 in
    let e : byte_count v ≡ suc n = omega (arith, p) in
    let narrow : 7 * n < w = count-bound w n v (omega arith) b e in
    rw (encode_room v n len buf e (omega arith) fits) (
      decode_integer-loop w n v (drop (suc n) buf) (omega arith)
      ∙ decode_loop-encoding w high n v (drop (suc n) buf) (subst (λ k. v < capacity k) e q) b
          (omega arith))
