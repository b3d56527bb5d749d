-- ===== src/Pointers/Tests.antt =====
-- Programs with three pointers.
use studycpp.Prelude.{◌≡◌, some, List, [], ◌∷◌, arith}
use studycpp.Pointers.Unique.{Machine as UniqueMachine}
use studycpp.Pointers.Unique.Owned.{IsOwned}
use studycpp.Pointers.Unique.Run as Unique
use studycpp.Pointers.Unique.Run.{run-IsOwned}
use studycpp.Pointers.Shared.{Machine}
use studycpp.Pointers.Shared.Run.{
  Command, make_of, copy_of, move_to, destroy, run, start, IsClean, run-IsClean,
}

-- The object is shared, one of the two owners moves it on, and the last one deletes it.
abbrev share_move_destroy : List Command
share_move_destroy =
    make_of 0 ∷ copy_of 1 0 ∷ make_of 2 ∷ move_to 2 0 ∷ destroy 1 ∷ destroy 0 ∷ destroy 2 ∷ []

run-IsClean_example : (s : Machine) × ((run share_move_destroy (start 3) ≡ some s) × IsClean s)
run-IsClean_example = run-IsClean 3 share_move_destroy (omega arith)

-- One object is moved and then replaced, another one is released.
abbrev move_reset_release : List Unique.Command
move_reset_release =
    Unique.new_of 0
    ∷ Unique.move_of 1 0
    ∷ Unique.reset_to_new 1
    ∷ Unique.release_of 1
    ∷ Unique.destroy 1
    ∷ Unique.destroy 0
    ∷ []

run-IsOwned_example :
    (s : UniqueMachine) × ((Unique.run move_reset_release (Unique.start 2) ≡ some s) × IsOwned s)
run-IsOwned_example = run-IsOwned 2 move_reset_release
