-- ===== src/Pool/Wakeup.antt =====
-- The destructor sets `stop_` without the mutex, so its notification can come between a worker's test
-- and its wait.
use studycpp.Prelude.{
  ℕ, suc, ◌≡◌, refl, sym, ap, ◌∙◌, ◌≢◌, inl, inr, Bool, true, false, not, ◌&&◌, some, List, [], ◌∷◌,
  ◌++◌, arith, ◌==◌, if◌then◌else◌, Option-cases, get_elem?, get_elem?-set_ne,
}
use studycpp.Std.OrderedSet.{All}
use studycpp.Pool.{
  Worker, outside, testing, going_to_sleep, asleep, running, returned, ThreadPool, new_pool, move,
  test, advance_from, advance, enqueue, notify_one, set_stop, notify_all, Event, advances, enqueues,
  notifies_one, sets_stop, notifies_all, wakes_spuriously, step, run,
}

-- no wakeup without a notification
abbrev pub IsRegular : {A : Type 0} → Event A → Type 0
IsRegular (advances i) = Unit
IsRegular (enqueues task) = Unit
IsRegular (notifies_one i) = Unit
IsRegular sets_stop = Unit
IsRegular notifies_all = Unit
IsRegular (wakes_spuriously i) = ⊥

-- The worker `i` is asleep, and all notifications have been made.
pub record IsStuck {A : Type 0} (i : ℕ) (p : ThreadPool A) : Type 0 where
  pub sleeping : get_elem? p.workers i ≡ some asleep
  pub stopped : p.stop ≡ true
  pub announced : p.notified_all ≡ true
  pub silent : p.to_notify ≡ 0

module _ {A : Type 0} where
  same_worker :
      (i j : ℕ) (w : Worker A) (p : ThreadPool A)
      → j ≡ i
      → get_elem? p.workers j ≡ some w
      → get_elem? p.workers i ≡ some asleep
      → w ≡ asleep
  same_worker i j w p z e f =
      let g : some w ≡ some asleep = sym e ∙ ap (λ k. get_elem? p.workers k) z ∙ f in cc g

  -- The queue, the mutex and the logs do not matter.
  other-IsStuck :
      (i : ℕ) (b : Bool) (tasks taken executed accepted : List A) (p : ThreadPool A)
      → IsStuck i p
      → IsStuck i (record p {
        tasks = tasks;
        locked = b;
        taken = taken;
        executed = executed;
        accepted = accepted;
      })
  other-IsStuck i b tasks taken executed accepted p s = record {
    sleeping = s.sleeping;
    stopped = s.stopped;
    announced = s.announced;
    silent = s.silent;
  }

  move-IsStuck :
      (i j : ℕ) (w v : Worker A) (p : ThreadPool A)
      → IsStuck i p
      → get_elem? p.workers j ≡ some w
      → w ≢ asleep
      → IsStuck i (move j v p)
  move-IsStuck i j w v p s e ne = record {
    sleeping =
        get_elem?-set_ne p.workers {i = j} {j = i} v (λ z. ne (same_worker i j w p z e s.sleeping))
        ∙ s.sleeping;
    stopped = s.stopped;
    announced = s.announced;
    silent = s.silent;
  }

  if-IsStuck :
      (i : ℕ) (b : Bool) (x y : ThreadPool A)
      → (b ≡ true → IsStuck i x)
      → (b ≡ false → IsStuck i y)
      → IsStuck i (if b then x else y)
  if-IsStuck i true x y f g = f refl
  if-IsStuck i false x y f g = g refl

  test-IsStuck :
      (i j : ℕ) (ts : List A) (p : ThreadPool A)
      → IsStuck i p
      → get_elem? p.workers j ≡ some testing
      → IsStuck i (test j ts p)
  unfolding test
  test-IsStuck i j [] p s e =
      if-IsStuck i p.stop _ _
        (λ f.
          move-IsStuck i j testing returned (record p { locked = false })
            (other-IsStuck i false p.tasks p.taken p.executed p.accepted p s) e (λ z. cc z))
        (λ f. move-IsStuck i j testing going_to_sleep p s e (λ z. cc z))
  test-IsStuck i j (task ∷ rest) p s e =
      move-IsStuck i j testing (running task)
        (record p { tasks = rest; locked = false; taken = p.taken ++ (task ∷ []) })
        (other-IsStuck i false rest (p.taken ++ (task ∷ [])) p.executed p.accepted p s) e
        (λ z. cc z)

  advance_from-IsStuck :
      (w : Worker A) (i j : ℕ) (p : ThreadPool A)
      → IsStuck i p
      → get_elem? p.workers j ≡ some w
      → IsStuck i (advance_from w j p)
  unfolding advance_from
  advance_from-IsStuck outside i j p s e =
      if-IsStuck i p.locked _ _ (λ f. s)
        (λ f.
          move-IsStuck i j outside testing (record p { locked = true })
            (other-IsStuck i true p.tasks p.taken p.executed p.accepted p s) e (λ z. cc z))
  advance_from-IsStuck testing i j p s e = test-IsStuck i j p.tasks p s e
  advance_from-IsStuck going_to_sleep i j p s e =
      move-IsStuck i j going_to_sleep asleep (record p { locked = false })
        (other-IsStuck i false p.tasks p.taken p.executed p.accepted p s) e (λ z. cc z)
  advance_from-IsStuck asleep i j p s e = s
  advance_from-IsStuck (running task) i j p s e =
      move-IsStuck i j (running task) outside (record p { executed = p.executed ++ (task ∷ []) })
        (other-IsStuck i p.locked p.tasks p.taken (p.executed ++ (task ∷ [])) p.accepted p s) e
        (λ z. cc z)
  advance_from-IsStuck returned i j p s e = s

  advance-IsStuck : (i j : ℕ) (p : ThreadPool A) → IsStuck i p → IsStuck i (advance j p)
  unfolding advance
  advance-IsStuck i j p s = elim (Option-cases (get_elem? p.workers j)) [
    | inl e ↦ rw (advance, e) s
    | inr (w, e) ↦ rw (advance, e) (advance_from-IsStuck w i j p s e)
  ]

  step-IsStuck :
      (e : Event A) (i : ℕ) (p : ThreadPool A) → IsRegular e → IsStuck i p → IsStuck i (step e p)
  unfolding step enqueue notify_one set_stop notify_all
  step-IsStuck (advances j) i p r s = advance-IsStuck i j p s
  step-IsStuck (enqueues task) i p r s =
      if-IsStuck i p.locked _ _ (λ e. s)
        (λ e.
          if-IsStuck i p.stop _ _ (λ f. s) (λ f. let c : true ≡ false = sym s.stopped ∙ f in cc c))
  step-IsStuck (notifies_one j) i p r s =
      if-IsStuck i (p.to_notify == 0) _ _ (λ e. s) (λ e. absurd (ground (arith, e, s.silent)))
  step-IsStuck sets_stop i p r s =
      if-IsStuck i (p.to_notify == 0) _ _
        (λ e. record {
          sleeping = s.sleeping;
          stopped = refl;
          announced = s.announced;
          silent = s.silent;
        })
        (λ e. s)
  step-IsStuck notifies_all i p r s =
      if-IsStuck i (p.stop && not p.notified_all) _ _ (λ e. absurd (ground (arith, e, s.announced)))
        (λ e. s)
  step-IsStuck (wakes_spuriously j) i p r s = absurd r

  run-IsStuck :
      (es : List (Event A)) (i : ℕ) (p : ThreadPool A)
      → All IsRegular es
      → IsStuck i p
      → IsStuck i (run es p)
  unfolding run
  run-IsStuck [] i p r s = s
  run-IsStuck (e ∷ es) i p r s = run-IsStuck es i (step e p) r.1 (step-IsStuck e i p r.0 s)

  -- The first worker tests the condition, the destructor sets `stop_` and notifies, and only then the
  -- worker goes to sleep.
  abbrev pub missed : List (Event A)
  missed = advances 0 ∷ advances 0 ∷ sets_stop ∷ notifies_all ∷ advances 0 ∷ []

  missed-IsStuck : (n : ℕ) → IsStuck {A = A} 0 (run missed (new_pool (suc n)))
  unfolding run step advance advance_from test set_stop notify_all
  missed-IsStuck n = record { sleeping = refl; stopped = refl; announced = refl; silent = refl }

  -- A pool of any number of workers can be destroyed in such an order that a worker is asleep after
  -- the last notification. Then it stays asleep, whatever happens later, if no worker wakes up
  -- without a notification: the destructor waits for it without end.
  pub run-lost_wakeup :
      (n : ℕ)
      → (first : List (Event A)) × (All IsRegular first
          × ((es : List (Event A))
              → All IsRegular es
              → get_elem? (run es (run first (new_pool (suc n)))).workers 0 ≡ some asleep))
  run-lost_wakeup n = (
    missed,
    (
      (tt, (tt, (tt, (tt, (tt, tt))))),
      λ es r. (run-IsStuck es 0 (run missed (new_pool (suc n))) r (missed-IsStuck n)).sleeping,
    ),
  )
