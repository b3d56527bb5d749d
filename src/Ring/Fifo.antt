-- ===== src/Ring/Fifo.antt =====
-- `SPSC_FifoQ`: the ring of slots, and the positions of the producer and of the consumer, which are
-- `std::size_t` and wrap around. A slot without an object is `none`.
pub mod Positions
pub mod Push
pub mod Pop
pub mod Run
pub mod Destroy
use studycpp.Prelude.{
  ℕ, ◌+◌, ◌-◌, ◌%◌, ◌^◌, bit_and, Bool, true, false, Option, none, some, List, leb, ◌==◌,
  if◌then◌else◌, length, set, get_or, replicate,
}

abbrev pub word : ℕ
word = 2 ^ 64

pub record FifoQ (T : Type 0) : Type 0 where
  pub ring : List (Option T)
  pub producer_pos : ℕ
  pub consumer_pos : ℕ

-- `a - b` of two numbers of the type `std::size_t`
abbrev pub sub_word : ℕ → ℕ → ℕ
sub_word a b = (a + (word - b)) % word

-- the number of the slot; the code scales it by the size of an element
unfoldable pub index : ℕ → ℕ → ℕ
index capacity pos = bit_and pos (capacity - 1)

unfoldable pub is_full : ℕ → ℕ → ℕ → Bool
is_full capacity producer_pos consumer_pos = leb capacity (sub_word producer_pos consumer_pos)

unfoldable pub is_empty : ℕ → ℕ → Bool
is_empty producer_pos consumer_pos = producer_pos == consumer_pos

module _ {T : Type 0} where
  abbrev pub empty_fifo : ℕ → FifoQ T
  empty_fifo capacity = record {
    ring = replicate capacity none;
    producer_pos = 0;
    consumer_pos = 0;
  }

  -- `Push`, with the positions that the producer has read: the consumer may have moved on since.
  unfoldable pub push_seen : ℕ → FifoQ T → T → Bool × FifoQ T
  unfolding index is_full
  push_seen consumer_pos q x =
      let capacity = length q.ring in
      if is_full capacity q.producer_pos consumer_pos then (false, q) else (
        true,
        record q {
          ring = set q.ring (index capacity q.producer_pos) (some x);
          producer_pos = (q.producer_pos + 1) % word;
        },
      )

  unfoldable pub push : FifoQ T → T → Bool × FifoQ T
  unfolding push_seen
  push q x = push_seen q.consumer_pos q x

  -- `Pop`: the element and the queue without it, `none` if the queue is empty. The inner option is
  -- the object in the slot, and the slot is without one afterwards.
  unfoldable pub pop_seen : ℕ → FifoQ T → Option (Option T × FifoQ T)
  unfolding index is_empty
  pop_seen producer_pos q =
      let i = index (length q.ring) q.consumer_pos in
      if is_empty producer_pos q.consumer_pos
      then none
      else some (
        get_or q.ring i none,
        record q { ring = set q.ring i none; consumer_pos = (q.consumer_pos + 1) % word },
      )

  unfoldable pub pop : FifoQ T → Option (Option T × FifoQ T)
  unfolding pop_seen
  pop q = pop_seen q.producer_pos q
