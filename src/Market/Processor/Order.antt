-- ===== src/Market/Processor/Order.antt =====
-- What a processor counts of the sequence numbers that it gets.
use studycpp.Prelude.{
  ℕ, ◌+◌, ◌%◌, ◌<◌, ◌≡◌, refl, sym, subst, ◌≢◌, ◌↔◌, inl, inr, Bool, true, false, Option, none,
  some, List, [], ◌∷◌, arith, ltb, leb, ◌==◌, ==_iff, Bool-cases, length, length-append,
}
use studycpp.Std.Key.{list_eq}
use studycpp.Std.OrderedSet.{All}
use studycpp.Market.Metrics.{
  TimeWindow, MetricsCollector, new_window, needs_window, trim, get_current_window, update_back,
  in_window, record_sequence_gap, record_out_of_order_message,
}
use studycpp.Market.Metrics.Windows.{All-get_current_window, All-update_back}
use studycpp.Market.Processor.{word, check_sequence}

-- no gap and no message out of order was counted
abbrev pub IsQuiet : TimeWindow → Type 0
IsQuiet w = (w.sequence_gaps ≡ 0) × (w.out_of_order_messages ≡ 0)

-- whether a number is the one after the last of its symbol
abbrev pub follows : Option ℕ → ℕ → Bool
follows none n = true
follows (some last) n = n == last + 1

-- The number after it is none that wraps around.
abbrev pub Fits : Option ℕ → Type 0
Fits none = Unit
Fits (some last) = last + 1 < word

in_window-IsQuiet :
    (now : ℕ) (f : TimeWindow → TimeWindow) (m : MetricsCollector)
    → ((w : TimeWindow) → IsQuiet w → IsQuiet (f w))
    → All IsQuiet m.time_windows
    → All IsQuiet (in_window now f m).time_windows
in_window-IsQuiet now f m k h =
    All-update_back IsQuiet f _ k (All-get_current_window IsQuiet now m.time_windows (refl, refl) h)

update_back-loud :
    (f : TimeWindow → TimeWindow) (ws : List TimeWindow)
    → ((w : TimeWindow) → ¬ IsQuiet (f w))
    → 0 < length ws
    → ¬ All IsQuiet (update_back f ws)
unfolding update_back
update_back-loud f [] k h q = omega (arith, h)
update_back-loud f (w ∷ []) k h q = k w q.0
update_back-loud f (w ∷ v ∷ ws) k h q = update_back-loud f (v ∷ ws) k (omega arith) q.1

get_current_window-some : (now : ℕ) (ws : List TimeWindow) → 0 < length (get_current_window now ws)
unfolding get_current_window needs_window
get_current_window-some now [] = ground (arith, length-append (trim []) (new_window now ∷ []))
get_current_window-some now (w ∷ ws) =
    ground (arith, length-append (trim (w ∷ ws)) (new_window now ∷ []))

in_window-loud :
    (now : ℕ) (f : TimeWindow → TimeWindow) (m : MetricsCollector)
    → ((w : TimeWindow) → ¬ IsQuiet (f w))
    → ¬ All IsQuiet (in_window now f m).time_windows
in_window-loud now f m k = update_back-loud f _ k (get_current_window-some now m.time_windows)

check_sequence-none : (now n : ℕ) (m : MetricsCollector) → check_sequence now none n m ≡ m
unfolding check_sequence
check_sequence-none now n m = refl

check_sequence-next :
    (now last : ℕ) (m : MetricsCollector)
    → last + 1 < word
    → check_sequence now (some last) (last + 1) m ≡ m
unfolding check_sequence
check_sequence-next now last m h = ground arith

check_sequence-loud :
    (now last n : ℕ) (m : MetricsCollector)
    → last + 1 < word
    → n ≢ last + 1
    → ¬ All IsQuiet (check_sequence now (some last) n m).time_windows
unfolding check_sequence record_out_of_order_message record_sequence_gap
check_sequence-loud now last n m h ne = elim (Bool-cases (leb n last)) [
  | inl e ↦ rw e (
      in_window-loud now (λ w. record w { out_of_order_messages = w.out_of_order_messages + 1 }) m
        (λ w q. omega (arith, q.1)))
  | inr e ↦ elim (Bool-cases (ltb ((last + 1) % word) n)) [
    | inl f ↦
        rw (e, f)
          (in_window-loud now (λ w. record w { sequence_gaps = w.sequence_gaps + 1 }) m
            (λ w q. omega (arith, q.0)))
    | inr f ↦ absurd (ground (arith, e, f, h, ne))
  ]
]

checked-IsQuiet :
    (now : ℕ) (last : Option ℕ) (n : ℕ) (m : MetricsCollector)
    → Fits last
    → All IsQuiet m.time_windows
    → follows last n ≡ true
    → All IsQuiet (check_sequence now last n m).time_windows
checked-IsQuiet now none n m i h e = rw (check_sequence-none now n m) h
checked-IsQuiet now (some last) n m i h e =
    let f = (==_iff n (last + 1)).0 e in
    subst (λ k. All IsQuiet (check_sequence now (some last) k m).time_windows) (sym f)
      (subst (λ c. All IsQuiet c.time_windows) (sym (check_sequence-next now last m i)) h)

ne_of_false : (n last : ℕ) → (n == last + 1) ≡ false → n ≢ last + 1
ne_of_false n last e f = ground arith

checked-loud :
    (now : ℕ) (last : Option ℕ) (n : ℕ) (m : MetricsCollector)
    → Fits last
    → follows last n ≡ false
    → ¬ All IsQuiet (check_sequence now last n m).time_windows
checked-loud now none n m i e = cc e
checked-loud now (some last) n m i e =
    check_sequence-loud now last n m i (λ f. ne_of_false n last e f)

-- Whatever the collector, if no window of it counts a gap or a message out of order, and the last
-- number of a symbol, if there is one, is not the greatest value of 64 bits: after the check of a
-- number its windows still count none exactly if it is the first number of the symbol or the one
-- after the last.
pub check_sequence-flags :
    (now : ℕ) (last : Option ℕ) (n : ℕ) (m : MetricsCollector)
    → Fits last
    → All IsQuiet m.time_windows
    → All IsQuiet (check_sequence now last n m).time_windows ↔ (follows last n ≡ true)
check_sequence-flags now last n m fits q = (
  λ quiet. elim (Bool-cases (follows last n)) [
    | inl g ↦ g
    | inr g ↦ absurd (checked-loud now last n m fits g quiet)
  ],
  λ g. checked-IsQuiet now last n m fits q g,
)
