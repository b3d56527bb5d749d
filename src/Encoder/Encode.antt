-- ===== src/Encoder/Encode.antt =====
-- What `encodeInteger` writes.
use studycpp.Prelude.{
  ℕ, zero, suc, ◌+◌, ◌-◌, ◌/◌, ◌%◌, ◌≤◌, ◌<◌, bit_or, ◌≡◌, refl, sym, ap, subst, ◌∙◌, Bool, true,
  ◌&&◌, none, some, List, [], ◌∷◌, ◌++◌, append_assoc, arith, ◌==◌, ==_iff, length, set, length-set,
  get_or, drop,
}
use studycpp.Encoder.{write_loop, byte_count, encode_integer, stop_bit}
use studycpp.Encoder.Bytes.{capacity, digits, length-digits, encoding}
use studycpp.Encoder.Count.{byte_count_lem}

drop-set : (buf : List ℕ) (n x : ℕ) → n < length buf → drop n (set buf n x) ≡ x ∷ drop (suc n) buf
drop-set [] n x h = absurd (omega arith)
drop-set (b ∷ buf) zero x h = refl
drop-set (b ∷ buf) (suc n) x h = drop-set buf n x (omega arith)

write_loop_lem :
    (n v : ℕ) (buf : List ℕ) → n ≤ length buf → write_loop n v buf ≡ digits n v ++ drop n buf
unfolding write_loop digits
write_loop_lem zero v buf h = refl
write_loop_lem (suc n) v buf h =
    write_loop_lem n (v / 128) (set buf n (v % 128)) (omega (arith, length-set buf n (v % 128)))
    ∙ ap (λ xs. digits n (v / 128) ++ xs) (drop-set buf n (v % 128) h)
    ∙ sym (append_assoc (digits n (v / 128)) ((v % 128) ∷ []) (drop (suc n) buf))

-- The byte behind a prefix.
pub get_or-append : (xs ys : List ℕ) (x d n : ℕ) → length xs ≡ n → get_or (xs ++ (x ∷ ys)) n d ≡ x
get_or-append [] ys x d n h = rw (← h) refl
get_or-append (a ∷ xs) ys x d zero h = absurd (omega arith)
get_or-append (a ∷ xs) ys x d (suc n) h = get_or-append xs ys x d n (omega arith)

set-append :
    (xs ys : List ℕ) (x y n : ℕ) → length xs ≡ n → set (xs ++ (x ∷ ys)) n y ≡ xs ++ (y ∷ ys)
set-append [] ys x y n h = rw (← h) refl
set-append (a ∷ xs) ys x y zero h = absurd (omega arith)
set-append (a ∷ xs) ys x y (suc n) h = ap (λ zs. a ∷ zs) (set-append xs ys x y n (omega arith))

unfoldable pub all_below : ℕ → (ℕ → Bool) → Bool
all_below zero p = true
all_below (suc n) p = p n && all_below n p

pub all_below_at : (n : ℕ) (p : ℕ → Bool) (x : ℕ) → all_below n p ≡ true → x < n → p x ≡ true
unfolding all_below
all_below_at zero p x h lt = absurd (omega arith)
all_below_at (suc n) p x h lt = ground (arith, all_below_at n p x)

stop_table : all_below 128 (λ d. bit_or d stop_bit == d + 128) ≡ true
unfolding all_below
stop_table = refl

bit_or-stop : (d : ℕ) → d < 128 → bit_or d stop_bit ≡ d + 128
bit_or-stop d h =
    (==_iff _ _).0 (all_below_at 128 (λ d. bit_or d stop_bit == d + 128) d stop_table h)

-- The buffer after the loop and the write of the stop bit.
written :
    (n v : ℕ) (buf : List ℕ)
    → suc n ≤ length buf
    → let out = write_loop (suc n) v buf in
      set out n (bit_or (get_or out n 0) stop_bit) ≡ encoding n v ++ drop (suc n) buf
unfolding encoding digits
written n v buf h =
    let rest : List ℕ = drop (suc n) buf in
    let front : List ℕ = digits n (v / 128) in
    rw
      (
        write_loop_lem (suc n) v buf h,
        append_assoc front ((v % 128) ∷ []) rest,
        append_assoc front ((v % 128 + 128) ∷ []) rest,
        get_or-append front rest (v % 128) 0 n (length-digits n (v / 128)),
        bit_or-stop (v % 128) (omega arith),
      )
      (set-append front rest (v % 128) (v % 128 + 128) n (length-digits n (v / 128)))

pub encode_room :
    (v n len : ℕ) (buf : List ℕ)
    → byte_count v ≡ suc n
    → suc n ≤ len
    → len ≤ length buf
    → encode_integer v (some buf) len ≡ (suc n, some (encoding n v ++ drop (suc n) buf))
unfolding encode_integer
encode_room v n len buf e h k = rw e (ground (arith, written n v buf (omega arith)))

encode_null : (v len : ℕ) → encode_integer v none len ≡ (0, none)
unfolding encode_integer
encode_null v len = refl

encode_small :
    (v n len : ℕ) (buf : List ℕ)
    → byte_count v ≡ suc n
    → len ≤ n
    → encode_integer v (some buf) len ≡ (0, some buf)
unfolding encode_integer
encode_small v n len buf e h = rw e (ground arith)

-- The encoder gives the least number of seven-bit groups that hold the value, if the buffer has the
-- room; it writes the groups there, most significant first and the last one with the stop bit, and
-- leaves the rest of the buffer as it was. With a null pointer or too little room it returns 0 and
-- writes nothing.
pub encode_integer_lem :
    (v : ℕ) (buf : List ℕ) (len : ℕ)
    → len ≤ length buf
    → (n : ℕ) × (byte_count v ≡ suc n)
      × (v < capacity (suc n))
      × ((m : ℕ) → v < capacity (suc m) → n ≤ m)
      × (encode_integer v none len ≡ (0, none))
      × (suc n ≤ len
          → encode_integer v (some buf) len ≡ (suc n, some (encoding n v ++ drop (suc n) buf)))
      × (len ≤ n → encode_integer v (some buf) len ≡ (0, some buf))
encode_integer_lem v buf len h =
    let (p, q, r) = byte_count_lem v in
    let n : ℕ = byte_count v - 1 in
    let e : byte_count v ≡ suc n = omega (arith, p) in
    (
      n,
      e,
      subst (λ k. v < capacity k) e q,
      (λ m k. omega (arith, r m k)),
      encode_null v len,
      (λ k. encode_room v n len buf e k h),
      (λ k. encode_small v n len buf e k),
    )
