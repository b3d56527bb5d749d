-- ===== src/Encoder/Count.antt =====
-- The number of bytes is the least that holds the value.
use studycpp.Prelude.{ℕ, zero, suc, ◌+◌, ◌-◌, ◌/◌, ◌^◌, ◌≤◌, ◌<◌, ◌≡◌, subst, ◌≢◌, arith}
use studycpp.Encoder.{count_loop, byte_count}
use studycpp.Encoder.Bytes.{capacity, capacity-suc}

-- What the loop returns, begun with the value shifted by `n` digits.
record Least (tmp n r : ℕ) : Type 0 where
  more : n ≤ r
  fits : tmp < capacity (r - n)
  least : (m : ℕ) → tmp < capacity m → r ≤ n + m

capacity-eq : (t m n : ℕ) → m ≡ n → t < capacity m → t < capacity n
capacity-eq t m n e h = subst (λ k. t < capacity k) e h

fits-suc : (t k : ℕ) → t / 128 < capacity k → t < capacity (suc k)
fits-suc t k h = omega (arith, capacity-suc k)

fits-pred : (t k : ℕ) → t < capacity (suc k) → t / 128 < capacity k
fits-pred t k h = omega (arith, capacity-suc k)

least-suc :
    (t n r : ℕ)
    → t ≢ 0
    → ((m : ℕ) → t / 128 < capacity m → r ≤ n + 1 + m)
    → (m : ℕ) → t < capacity m
    → r ≤ n + m
least-suc t n r ne h zero k = absurd (ne (omega arith))
least-suc t n r ne h (suc m) k = omega (arith, h m (fits-pred t m k))

done : (n : ℕ) → Least 0 n n
done n = record {
  more = omega arith;
  fits = capacity-eq 0 0 (n - n) (omega arith) (omega arith);
  least = λ m k. omega arith;
}

count_loop-suc :
    (fuel t n : ℕ) → count_loop (suc fuel) (suc t) n ≡ count_loop fuel (suc t / 2 ^ 7) (n + 1)
unfolding count_loop
count_loop-suc fuel t n = ground arith

count_loop-Least : (fuel tmp n : ℕ) → tmp ≤ fuel → Least tmp n (count_loop fuel tmp n)
unfolding count_loop
count_loop-Least zero zero n h = done n
count_loop-Least zero (suc tmp) n h = absurd (omega arith)
count_loop-Least (suc fuel) zero n h = done n
count_loop-Least (suc fuel) (suc t) n h =
    let r : ℕ = count_loop fuel (suc t / 2 ^ 7) (n + 1) in
    let rec = count_loop-Least fuel (suc t / 2 ^ 7) (n + 1) (omega arith) in
    rw (count_loop-suc fuel t n) (record {
      more = omega (arith, rec.more);
      fits =
          capacity-eq (suc t) (suc (r - (n + 1))) (r - n) (omega (arith, rec.more))
            (fits-suc (suc t) (r - (n + 1)) rec.fits);
      least = least-suc (suc t) n r (omega arith) rec.least;
    })

-- A value fits the bytes counted for it, and fits no fewer.
pub byte_count_lem :
    (v : ℕ)
    → (1 ≤ byte_count v)
      × (v < capacity (byte_count v))
      × ((m : ℕ) → v < capacity (suc m) → byte_count v ≤ suc m)
unfolding byte_count
byte_count_lem v =
    let n : ℕ = count_loop v (v / 128) 1 in
    let l = count_loop-Least v (v / 128) 1 (omega arith) in
    (
      l.more,
      capacity-eq v (suc (n - 1)) n (omega (arith, l.more)) (fits-suc v (n - 1) l.fits),
      λ m h. omega (arith, l.least m (fits-pred v m h)),
    )
