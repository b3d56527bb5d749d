-- ===== src/Market/Metrics/Windows.antt =====
-- What the changes of the list of windows keep.
use studycpp.Prelude.{
  ℕ, suc, ◌+◌, ◌≤◌, ◌<◌, ◌≡◌, refl, ap, inl, inr, List, [], ◌∷◌, ◌++◌, arith, leb, Bool-cases,
  length, length-append,
}
use studycpp.Std.Key.{Key, ◌==◌ as key_eq}
use studycpp.Std.Dict.{Dict, find, assign}
use studycpp.Std.OrderedSet.{All}
use studycpp.Market.Metrics.{
  TimeWindow, max_windows, new_window, trim, needs_window, get_current_window, update_back,
  add_count, count_of,
}

-- the sum of the counters of a map
unfoldable pub total : {K : Type 0} → Dict K ℕ → ℕ
total [] = 0
total ((k, n) ∷ m) = n + total m

total-assign :
    {K : Type 0} ⦃key : Key K⦄ (k : K) (v : ℕ) (m : Dict K ℕ)
    → total (assign k v m) + count_of (find k m) ≡ total m + v
unfolding total assign find
total-assign k v [] = omega arith
total-assign k v ((j, n) ∷ m) = elim (Bool-cases (key_eq j k)) [
  | inl e ↦ rw e (omega arith)
  | inr e ↦ rw e (omega (arith, total-assign k v m))
]

pub total-add_count :
    {K : Type 0} ⦃key : Key K⦄ (k : K) (n : ℕ) (m : Dict K ℕ)
    → total (add_count k n m) ≡ total m + n
unfolding add_count
total-add_count k n m = omega (arith, total-assign k (count_of (find k m) + n) m)

pub length-trim : (ws : List TimeWindow) → length (trim ws) < max_windows
unfolding trim
length-trim [] = omega arith
length-trim (w ∷ ws) = ground (arith, length-trim ws)

pub length-update_back :
    (f : TimeWindow → TimeWindow) (ws : List TimeWindow) → length (update_back f ws) ≡ length ws
unfolding update_back
length-update_back f [] = refl
length-update_back f (w ∷ []) = refl
length-update_back f (w ∷ v ∷ ws) = ap suc (length-update_back f (v ∷ ws))

pub length-get_current_window :
    (now : ℕ) (ws : List TimeWindow)
    → length ws ≤ max_windows
    → length (get_current_window now ws) ≤ max_windows
unfolding get_current_window
length-get_current_window now ws h =
    ground (arith, length-trim ws, length-append (trim ws) (new_window now ∷ []))

pub All-trim : (P : TimeWindow → Type 0) (ws : List TimeWindow) → All P ws → All P (trim ws)
unfolding trim
All-trim P [] h = tt
All-trim P (w ∷ ws) h = elim (Bool-cases (leb max_windows (length (w ∷ ws)))) [
  | inl e ↦ rw e (All-trim P ws h.1)
  | inr e ↦ rw e h
]

All-append :
    (P : TimeWindow → Type 0) (vs ws : List TimeWindow) → All P vs → All P ws → All P (vs ++ ws)
All-append P [] ws h k = k
All-append P (v ∷ vs) ws h k = (h.0, All-append P vs ws h.1 k)

pub All-get_current_window :
    (P : TimeWindow → Type 0) (now : ℕ) (ws : List TimeWindow)
    → P (new_window now)
    → All P ws
    → All P (get_current_window now ws)
unfolding get_current_window
All-get_current_window P now ws p h = elim (Bool-cases (needs_window now ws)) [
  | inl e ↦ rw e (All-append P (trim ws) (new_window now ∷ []) (All-trim P ws h) (p, tt))
  | inr e ↦ rw e h
]

pub All-update_back :
    (P : TimeWindow → Type 0) (f : TimeWindow → TimeWindow) (ws : List TimeWindow)
    → ((w : TimeWindow) → P w → P (f w))
    → All P ws
    → All P (update_back f ws)
unfolding update_back
All-update_back P f [] k h = tt
All-update_back P f (w ∷ []) k h = (k w h.0, tt)
All-update_back P f (w ∷ v ∷ ws) k h = (h.0, All-update_back P f (v ∷ ws) k h.1)
