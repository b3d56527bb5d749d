-- ===== src/Pool.antt =====
-- `threadpool` of threadpool.h, as the steps of its threads. The mutex is free or taken; a worker is
-- at one of the points between which others may run. `stop_` is atomic and read under the mutex but
-- set without it.
pub mod Workers
pub mod Sound
pub mod Wakeup
mod Tests
use studycpp.Prelude.{
  ℕ, zero, suc, ◌+◌, ◌-◌, Bool, true, false, not, ◌&&◌, ◌||◌, none, some, List, [], ◌∷◌, ◌++◌, map,
  ◌==◌, if◌then◌else◌, get_elem?, set, replicate,
}

-- Where a worker is: before it has the mutex; with it, before it tests the condition of the wait; with
-- it, after the test has failed; asleep in the wait, without the mutex; at a task; at the end.
pub data Worker (A : Type 0) : Type 0 where
  outside : Worker A
  testing : Worker A
  going_to_sleep : Worker A
  asleep : Worker A
  running : A → Worker A
  returned : Worker A

-- The last three fields are logs: the tasks that were accepted, those that were taken, and those
-- that were executed.
pub record ThreadPool (A : Type 0) : Type 0 where
  pub workers : List (Worker A)
  pub tasks : List A
  pub locked : Bool
  pub stop : Bool
  pub to_notify : ℕ  -- calls of `enqueue` that are yet to notify
  pub notified_all : Bool
  pub accepted : List A
  pub taken : List A
  pub executed : List A

module _ {A : Type 0} where
  abbrev pub new_pool : ℕ → ThreadPool A
  new_pool num = record {
    workers = replicate num outside;
    tasks = [];
    locked = false;
    stop = false;
    to_notify = 0;
    notified_all = false;
    accepted = [];
    taken = [];
    executed = [];
  }

  abbrev pub move : ℕ → Worker A → ThreadPool A → ThreadPool A
  move i w p = record p { workers = set p.workers i w }

  -- The test of the wait and what follows it with the mutex: without a task the worker returns if
  -- `stop_` is set, and else waits. Nothing but `stop_` can change in between.
  unfoldable pub test : ℕ → List A → ThreadPool A → ThreadPool A
  test i [] p =
      if p.stop then move i returned (record p { locked = false }) else move i going_to_sleep p
  test i (task ∷ rest) p =
      move i (running task)
        (record p { tasks = rest; locked = false; taken = p.taken ++ (task ∷ []) })

  -- The next step of the worker `i`, which is at `w`; one that is asleep waits for a notification.
  unfoldable pub advance_from : Worker A → ℕ → ThreadPool A → ThreadPool A
  unfolding test
  advance_from outside i p = if p.locked then p else move i testing (record p { locked = true })
  advance_from testing i p = test i p.tasks p
  advance_from going_to_sleep i p = move i asleep (record p { locked = false })
  advance_from asleep i p = p
  advance_from (running task) i p =
      move i outside (record p { executed = p.executed ++ (task ∷ []) })
  advance_from returned i p = p

  unfoldable pub advance : ℕ → ThreadPool A → ThreadPool A
  unfolding advance_from
  advance i p = elim (get_elem? p.workers i) [ none ↦ p | some w ↦ advance_from w i p ]

  -- `enqueue` up to its unlocking; it throws if `stop_` is set. It waits for the mutex.
  unfoldable pub enqueue : A → ThreadPool A → ThreadPool A
  enqueue task p = if p.locked then p else if p.stop then p else record p {
    tasks = p.tasks ++ (task ∷ []);
    to_notify = p.to_notify + 1;
    accepted = p.accepted ++ (task ∷ []);
  }

  abbrev pub woken : Worker A → Worker A
  woken outside = outside
  woken testing = testing
  woken going_to_sleep = going_to_sleep
  woken asleep = outside
  woken (running task) = running task
  woken returned = returned

  unfoldable pub wake : ℕ → List (Worker A) → List (Worker A)
  wake i [] = []
  wake zero (w ∷ ws) = woken w ∷ ws
  wake (suc i) (w ∷ ws) = w ∷ wake i ws

  abbrev is_asleep : Worker A → Bool
  is_asleep outside = false
  is_asleep testing = false
  is_asleep going_to_sleep = false
  is_asleep asleep = true
  is_asleep (running task) = false
  is_asleep returned = false

  unfoldable pub any_asleep : List (Worker A) → Bool
  any_asleep [] = false
  any_asleep (w ∷ ws) = is_asleep w || any_asleep ws

  abbrev sleeps : ℕ → List (Worker A) → Bool
  sleeps i ws = elim (get_elem? ws i) [ none ↦ false | some w ↦ is_asleep w ]

  -- `cv_.notify_one()`, where it picks the worker `i`: one that is asleep, if there is one
  unfoldable pub notify_one : ℕ → ThreadPool A → ThreadPool A
  unfolding wake any_asleep
  notify_one i p =
      if p.to_notify == 0
      then p
      else if any_asleep p.workers && not (sleeps i p.workers)
      then p
      else record p { workers = wake i p.workers; to_notify = p.to_notify - 1 }

  -- The destructor sets `stop_`; no call of `enqueue` is under way.
  unfoldable pub set_stop : ThreadPool A → ThreadPool A
  set_stop p = if p.to_notify == 0 then record p { stop = true } else p

  -- The destructor notifies all workers, once.
  unfoldable pub notify_all : ThreadPool A → ThreadPool A
  notify_all p =
      if p.stop && not p.notified_all
      then record p { workers = map woken p.workers; notified_all = true }
      else p

  -- A worker wakes up without a notification.
  unfoldable pub wake_spuriously : ℕ → ThreadPool A → ThreadPool A
  unfolding wake
  wake_spuriously i p = record p { workers = wake i p.workers }

pub data Event (A : Type 0) : Type 0 where
  advances : ℕ → Event A
  enqueues : A → Event A
  notifies_one : ℕ → Event A
  sets_stop : Event A
  notifies_all : Event A
  wakes_spuriously : ℕ → Event A

module _ {A : Type 0} where
  -- An event that cannot happen yet changes nothing.
  unfoldable pub step : Event A → ThreadPool A → ThreadPool A
  unfolding advance enqueue notify_one set_stop notify_all wake_spuriously
  step (advances i) p = advance i p
  step (enqueues task) p = enqueue task p
  step (notifies_one i) p = notify_one i p
  step sets_stop p = set_stop p
  step notifies_all p = notify_all p
  step (wakes_spuriously i) p = wake_spuriously i p

  unfoldable pub run : List (Event A) → ThreadPool A → ThreadPool A
  unfolding step
  run [] p = p
  run (e ∷ es) p = run es (step e p)
