-- ===== src/Lru/Tests.antt =====
-- A cache of two numbers.
use studycpp.Prelude.{ℕ, ◌≡◌, refl, some, List, [], ◌∷◌, arith}
use studycpp.Prelude.Int.{pos, negsuc}
use studycpp.Std.Key.{nat_eq}
use studycpp.Std.Dict.{find, assign}
use studycpp.Std.Dict
use studycpp.Lru.{undefined, new_cache, put, get}
use studycpp.Lru.Entries.{stored, missing, value, Call, put_call, get_call, step}
use studycpp.Lru.Run.{run, run_list, run-run_list, put_undefined}

-- The third key takes the place of the second one, which was used before the first one.
abbrev six_calls : List (Call ℕ ℕ)
six_calls =
    put_call 1 10 ∷ put_call 2 20 ∷ get_call 1 ∷ put_call 3 30 ∷ get_call 2 ∷ get_call 3 ∷ []

run-six_calls :
    run (new_cache (pos 2)) six_calls
    ≡ some (stored ∷ stored ∷ value 10 ∷ stored ∷ missing ∷ value 30 ∷ [])
unfolding run step put get find assign Dict.erase
run-six_calls = refl

run-run_list_example : run (new_cache (pos 2)) six_calls ≡ some (run_list 2 [] six_calls)
run-run_list_example = run-run_list 2 six_calls (omega arith)

put_undefined_example : put {K = ℕ} {V = ℕ} (new_cache (negsuc 2)) 1 10 ≡ undefined
put_undefined_example = put_undefined (negsuc 2) 1 10 refl
