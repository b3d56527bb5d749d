-- ===== src/Pool/Sound.antt =====
-- What no order of the steps of the threads breaks.
use studycpp.Prelude.{
  ℕ, ◌+◌, ◌<◌, ◌≡◌, refl, sym, ap, ◌∙◌, inl, inr, Bool, true, false, not, ◌&&◌, some, List, [], ◌∷◌,
  ◌++◌, map, append_assoc, append-nil, arith, ◌==◌, if◌then◌else◌, Option-cases, length, get_elem?,
}
use studycpp.Pool.{
  Worker, outside, testing, going_to_sleep, asleep, running, returned, woken, wake, ThreadPool,
  new_pool, move, test, advance_from, advance, enqueue, notify_one, set_stop, notify_all,
  wake_spuriously, Event, advances, enqueues, notifies_one, sets_stop, notifies_all,
  wakes_spuriously, step, run,
}
use studycpp.Pool.Workers.{
  weight, weight-set, weight-wake, weight-map-woken, weight-replicate, runs, has_returned,
  runs-woken, has_returned-woken, count, count-append, AllReturned, weight-AllReturned,
  has_returned-AllReturned,
}

-- The accepted tasks are those that were taken, in order, and those in the queue; each that was taken
-- was executed or is at a worker, counted by any test of tasks; and once a worker has returned,
-- `stop_` is set and no task is in the queue.
pub record IsSound {A : Type 0} (p : ThreadPool A) : Type 0 where
  pub ordered : p.accepted ≡ p.taken ++ p.tasks
  pub counted : (q : A → Bool) → count q p.executed + weight (runs q) p.workers ≡ count q p.taken
  pub drained : 0 < weight has_returned p.workers → (p.stop ≡ true) × (p.tasks ≡ [])

module _ {A : Type 0} where
  new_pool-IsSound : (n : ℕ) → IsSound {A = A} (new_pool n)
  unfolding count
  new_pool-IsSound n = record {
    ordered = refl;
    counted = λ q. omega (arith, weight-replicate (runs q) n outside refl);
    drained = λ h. absurd (omega (arith, h, weight-replicate has_returned n outside refl));
  }

  -- The worker `i` goes from `w` to `v`, neither of which is at a task or at the end.
  move-IsSound :
      (i : ℕ) (w v : Worker A) (p : ThreadPool A)
      → IsSound p
      → get_elem? p.workers i ≡ some w
      → ((q : A → Bool) → runs q v ≡ runs q w)
      → has_returned v ≡ has_returned w
      → IsSound (move i v p)
  move-IsSound i w v p s e r h = record {
    ordered = s.ordered;
    counted = λ q. omega (arith, s.counted q, weight-set (runs q) p.workers i w v e, r q);
    drained = λ g. s.drained (omega (arith, g, weight-set has_returned p.workers i w v e, h));
  }

  -- The mutex does not matter.
  relocked : (b : Bool) (p : ThreadPool A) → IsSound p → IsSound (record p { locked = b })
  relocked b p s = record { ordered = s.ordered; counted = s.counted; drained = s.drained }

  returned-IsSound :
      (i : ℕ) (p : ThreadPool A)
      → IsSound p
      → get_elem? p.workers i ≡ some testing
      → p.stop ≡ true
      → p.tasks ≡ []
      → IsSound (move i returned (record p { locked = false }))
  returned-IsSound i p s e f g = record {
    ordered = s.ordered;
    counted = λ q. omega (arith, s.counted q, weight-set (runs q) p.workers i testing returned e);
    drained = λ h. (f, g);
  }

  taken-IsSound :
      (i : ℕ) (task : A) (rest : List A) (p : ThreadPool A)
      → IsSound p
      → get_elem? p.workers i ≡ some testing
      → p.tasks ≡ task ∷ rest
      → IsSound (
          move i
            (running task)
            (record p { tasks = rest; locked = false; taken = p.taken ++ (task ∷ []) }))
  unfolding count
  taken-IsSound i task rest p s e f = record {
    ordered = s.ordered ∙ ap (λ ts. p.taken ++ ts) f ∙ sym (append_assoc p.taken (task ∷ []) rest);
    counted = λ q. omega (
      arith,
      s.counted q,
      weight-set (runs q) p.workers i testing (running task) e,
      count-append q p.taken (task ∷ []),
    );
    drained = λ h.
        let (g, k) =
          s.drained
            (omega (arith, h, weight-set has_returned p.workers i testing (running task) e)) in
        let c : task ∷ rest ≡ [] = sym f ∙ k in cc c;
  }

  if-IsSound :
      (b : Bool) (x y : ThreadPool A)
      → (b ≡ true → IsSound x)
      → (b ≡ false → IsSound y)
      → IsSound (if b then x else y)
  if-IsSound true x y f g = f refl
  if-IsSound false x y f g = g refl

  test-IsSound :
      (i : ℕ) (p : ThreadPool A) (ts : List A)
      → IsSound p
      → get_elem? p.workers i ≡ some testing
      → p.tasks ≡ ts
      → IsSound (test i ts p)
  unfolding test
  test-IsSound i p [] s e f =
      if-IsSound p.stop _ _ (λ g. returned-IsSound i p s e g f)
        (λ g. move-IsSound i testing going_to_sleep p s e (λ q. refl) refl)
  test-IsSound i p (task ∷ rest) s e f = taken-IsSound i task rest p s e f

  executed-IsSound :
      (i : ℕ) (task : A) (p : ThreadPool A)
      → IsSound p
      → get_elem? p.workers i ≡ some (running task)
      → IsSound (move i outside (record p { executed = p.executed ++ (task ∷ []) }))
  unfolding count
  executed-IsSound i task p s e = record {
    ordered = s.ordered;
    counted = λ q. omega (
      arith,
      s.counted q,
      weight-set (runs q) p.workers i (running task) outside e,
      count-append q p.executed (task ∷ []),
    );
    drained = λ g.
        s.drained (omega (arith, g, weight-set has_returned p.workers i (running task) outside e));
  }

  advance_from-IsSound :
      (w : Worker A) (i : ℕ) (p : ThreadPool A)
      → IsSound p
      → get_elem? p.workers i ≡ some w
      → IsSound (advance_from w i p)
  unfolding advance_from
  advance_from-IsSound outside i p s e =
      if-IsSound p.locked _ _ (λ f. s)
        (λ f.
          move-IsSound i outside testing (record p { locked = true }) (relocked true p s) e
            (λ q. refl) refl)
  advance_from-IsSound testing i p s e = test-IsSound i p p.tasks s e refl
  advance_from-IsSound going_to_sleep i p s e =
      move-IsSound i going_to_sleep asleep (record p { locked = false }) (relocked false p s) e
        (λ q. refl) refl
  advance_from-IsSound asleep i p s e = s
  advance_from-IsSound (running task) i p s e = executed-IsSound i task p s e
  advance_from-IsSound returned i p s e = s

  advance-IsSound : (i : ℕ) (p : ThreadPool A) → IsSound p → IsSound (advance i p)
  unfolding advance
  advance-IsSound i p s = elim (Option-cases (get_elem? p.workers i)) [
    | inl e ↦ rw (advance, e) s
    | inr (w, e) ↦ rw (advance, e) (advance_from-IsSound w i p s e)
  ]

  enqueue-IsSound : (task : A) (p : ThreadPool A) → IsSound p → IsSound (enqueue task p)
  unfolding enqueue
  enqueue-IsSound task p s =
      if-IsSound p.locked _ _ (λ e. s)
        (λ e.
          if-IsSound p.stop _ _ (λ f. s)
            (λ f. record {
              ordered =
                  ap (λ ts. ts ++ (task ∷ [])) s.ordered ∙ append_assoc p.taken p.tasks (task ∷ []);
              counted = s.counted;
              drained = λ h. let g : true ≡ false = sym (s.drained h).0 ∙ f in cc g;
            }))

  -- Other workers that were asleep are not.
  workers-IsSound :
      (ws : List (Worker A)) (p : ThreadPool A)
      → IsSound p
      → ((f : Worker A → ℕ)
          → ((w : Worker A) → f (woken w) ≡ f w)
          → weight f ws ≡ weight f p.workers)
      → IsSound (record p { workers = ws })
  workers-IsSound ws p s h = record {
    ordered = s.ordered;
    counted = λ q. omega (arith, s.counted q, h (runs q) (runs-woken q));
    drained = λ g. s.drained (omega (arith, g, h has_returned has_returned-woken));
  }

  wake-IsSound :
      (i : ℕ) (p : ThreadPool A) → IsSound p → IsSound (record p { workers = wake i p.workers })
  wake-IsSound i p s = workers-IsSound (wake i p.workers) p s (λ f h. weight-wake f i p.workers h)

  notify_one-IsSound : (i : ℕ) (p : ThreadPool A) → IsSound p → IsSound (notify_one i p)
  unfolding notify_one
  notify_one-IsSound i p s =
      if-IsSound (p.to_notify == 0) _ _ (λ e. s)
        (λ e.
          if-IsSound _ _ _ (λ f. s)
            (λ f.
              let t = wake-IsSound i p s in
              record { ordered = t.ordered; counted = t.counted; drained = t.drained }))

  set_stop-IsSound : (p : ThreadPool A) → IsSound p → IsSound (set_stop p)
  unfolding set_stop
  set_stop-IsSound p s =
      if-IsSound (p.to_notify == 0) _ _
        (λ e. record {
          ordered = s.ordered;
          counted = s.counted;
          drained = λ h. (refl, (s.drained h).1);
        })
        (λ e. s)

  notify_all-IsSound : (p : ThreadPool A) → IsSound p → IsSound (notify_all p)
  unfolding notify_all
  notify_all-IsSound p s =
      if-IsSound (p.stop && not p.notified_all) _ _
        (λ e.
          let t =
            workers-IsSound (map woken p.workers) p s (λ f h. weight-map-woken f p.workers h) in
          record { ordered = t.ordered; counted = t.counted; drained = t.drained })
        (λ e. s)

  pub step-IsSound : (e : Event A) (p : ThreadPool A) → IsSound p → IsSound (step e p)
  unfolding step wake_spuriously
  step-IsSound (advances i) p s = advance-IsSound i p s
  step-IsSound (enqueues task) p s = enqueue-IsSound task p s
  step-IsSound (notifies_one i) p s = notify_one-IsSound i p s
  step-IsSound sets_stop p s = set_stop-IsSound p s
  step-IsSound notifies_all p s = notify_all-IsSound p s
  step-IsSound (wakes_spuriously i) p s = wake-IsSound i p s

  run-kept : (es : List (Event A)) (p : ThreadPool A) → IsSound p → IsSound (run es p)
  unfolding run
  run-kept [] p s = s
  run-kept (e ∷ es) p s = run-kept es (step e p) (step-IsSound e p s)

  -- Whatever the order of the steps of the threads of a new pool: the accepted tasks are those that
  -- were taken, in the order in which they were accepted, and those that are in the queue; each
  -- that was taken was executed once or is at one worker, counted by any test of tasks; and if any
  -- worker has returned, then the pool was stopped and all accepted tasks were taken.
  pub run-IsSound : (n : ℕ) (es : List (Event A)) → IsSound (run es (new_pool n))
  run-IsSound n es = run-kept es (new_pool n) (new_pool-IsSound n)

  -- Once every worker of a pool that has at least one has returned, whatever the order of the steps,
  -- the tasks that were executed are the accepted ones, each as many times as it was accepted,
  -- counted by any test of tasks.
  pub run-all_executed :
      (n : ℕ) (es : List (Event A)) (q : A → Bool)
      → let p = run es (new_pool n) in
        0 < length p.workers → AllReturned p.workers → count q p.executed ≡ count q p.accepted
  run-all_executed n es q h all =
      let p = run es (new_pool n) in
      let s = run-IsSound n es in
      let none_runs = weight-AllReturned (runs q) p.workers refl all in
      let one_returned = has_returned-AllReturned p.workers all in
      let (e, f) = s.drained (omega (arith, h, one_returned)) in
      let all_taken : p.accepted ≡ p.taken =
        s.ordered ∙ ap (λ ts. p.taken ++ ts) f ∙ append-nil p.taken in
      omega (arith, s.counted q, none_runs, ap (count q) all_taken)
