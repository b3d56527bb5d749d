-- ===== src/Encoder/Words.antt =====
-- `int` values of 32 bits, as bit patterns, and their conversion to an unsigned type.
use studycpp.Prelude.{ℕ, ◌+◌, ◌-◌, ◌*◌, ◌%◌, ◌^◌, Option, none, some, ltb, if◌then◌else◌}

-- `x << s` of two `int`s: the result is taken modulo 2^32 (C++20), and is undefined if the shift is
-- not smaller than the width.
unfoldable pub shift_int : ℕ → ℕ → Option ℕ
shift_int x s = if ltb s 32 then some ((x * 2 ^ s) % 2 ^ 32) else none

-- An `int` of this bit pattern as an unsigned value of `w ≤ 64` bits. A negative one is extended by
-- ones.
unfoldable pub to_uint : ℕ → ℕ → ℕ
to_uint w x = (if ltb x (2 ^ 31) then x else x + (2 ^ 64 - 2 ^ 32)) % 2 ^ w
