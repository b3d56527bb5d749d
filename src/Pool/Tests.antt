-- ===== src/Pool/Tests.antt =====
-- Pools of one and of two workers.
use studycpp.Prelude.{ℕ, ◌≡◌, refl, Bool, some, List, [], ◌∷◌, arith, ◌==◌, get_elem?, replicate}
use studycpp.Std.OrderedSet.{All}
use studycpp.Pool.{
  asleep, any_asleep, wake, new_pool, test, advance_from, advance, enqueue, notify_one, set_stop,
  notify_all, Event, advances, enqueues, notifies_one, sets_stop, notifies_all, step, run,
}
use studycpp.Pool.Workers.{count}
use studycpp.Pool.Sound.{IsSound, run-IsSound, run-all_executed}
use studycpp.Pool.Wakeup.{IsRegular, run-lost_wakeup}

abbrev nine_is : ℕ → Bool
nine_is n = n == 9

-- The worker executes two tasks and comes to its end.
abbrev two_tasks : List (Event ℕ)
two_tasks =
    enqueues 7
    ∷ notifies_one 0
    ∷ enqueues 9
    ∷ notifies_one 0
    ∷ sets_stop
    ∷ notifies_all
    ∷ replicate 8 (advances 0)

run-IsSound_example : IsSound (run two_tasks (new_pool 2))
run-IsSound_example = run-IsSound 2 two_tasks

run-all_executed_example : count nine_is (7 ∷ 9 ∷ []) ≡ count nine_is (7 ∷ 9 ∷ [])
unfolding run step advance advance_from test enqueue notify_one any_asleep wake set_stop notify_all
run-all_executed_example = run-all_executed 1 two_tasks nine_is (omega arith) (refl, tt)

run-lost_wakeup_example :
    (first : List (Event ℕ)) × (All IsRegular first
      × ((es : List (Event ℕ))
          → All IsRegular es
          → get_elem? (run es (run first (new_pool 2))).workers 0 ≡ some asleep))
run-lost_wakeup_example = run-lost_wakeup 1
