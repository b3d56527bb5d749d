-- ===== src/Vector.antt =====
-- `vector` of myvector.h. The memory of a vector is a list of cells, of which `none` is one without
-- an object; a null pointer is no list. A step outside of the cells, or on a cell that is not as
-- it must be, is undefined and has no result. The growth, `growth_factor * n` as a `float` that
-- becomes a `size_t`, is a parameter.
pub mod Loops
pub mod Refines
pub mod Run
pub mod Assign
mod Tests
use studycpp.Prelude.{
  ℕ, zero, suc, ◌+◌, ◌-◌, ◌*◌, ◌/◌, ◌%◌, ◌^◌, ◌≤◌, ◌<◌, min, max, bit_and, bit_or, ◌≡◌, refl, sym,
  ap, ap₂, subst, ◌∙◌, ◌≢◌, ◌↔◌, ◌⊎◌, inl, inr, Bool, true, false, not, ◌&&◌, ◌||◌, Option, none,
  some, List, [], ◌∷◌, ◌++◌, map, append_assoc, append-nil, arith, dec_lt, ℕ_discrete, ltb, leb,
  ◌==◌, if◌then◌else◌, ltb→lt, lt→ltb, leb→le, ==_iff, Bool-cases, Option-cases, List-cases, length,
  get_elem?, set, length-append, length-set, get_elem?-set_self, get_elem?-set_ne, get_or, take,
  drop, replicate, take-append-drop, length-take, length-drop, length-replicate, length-map,
}
use studycpp.Prelude.Do.{◌>>=◌}
use studycpp.Std.Memory.{
  Cells, move_range, destroy_range, destroy_from, construct_at, construct_from,
}

pub record Vector (T : Type 0) : Type 0 where
  pub arr : Option (Cells T)
  pub d_capacity : ℕ
  pub d_size : ℕ

abbrev pub init_capacity : ℕ
init_capacity = 4

module _ {T : Type 0} where
  -- `vector()`
  abbrev pub new_vector : Vector T
  new_vector = record {
    arr = some (replicate init_capacity none);
    d_capacity = init_capacity;
    d_size = 0;
  }

  -- `vector(const vector& rhs)`, with its assert; the copies are made one after the other
  unfoldable pub copy : Vector T → Option (Vector T)
  unfolding move_range
  copy rhs =
      if ltb 0 rhs.d_capacity
      then (elim rhs.arr [
        | none ↦
            if rhs.d_size == 0
            then some (record rhs { arr = some (replicate rhs.d_capacity none) })
            else none
        | some old ↦
            (move_range rhs.d_size old (replicate rhs.d_capacity none) >>= λ cells.
            some (record rhs { arr = some cells }))
      ])
      else none

  -- `vector(vector&& rhs)`: the new vector, and what is left of the other one
  unfoldable pub move : Vector T → Vector T × Vector T
  move rhs = (rhs, record rhs { arr = none; d_size = 0 })

  -- Whether memory may be given back as so many elements: it must have been allocated as so many.
  abbrev pub may_deallocate : Cells T → ℕ → Bool
  may_deallocate cells n = length cells == n

  -- `reserve`, which gives the old memory back as the new number of elements.
  unfoldable pub reserve : ℕ → Vector T → Option (Vector T)
  unfolding move_range destroy_range
  reserve new_cap v = if leb new_cap v.d_capacity then some v else elim v.arr [
    | none ↦ none
    | some old ↦
        (move_range v.d_size old (replicate new_cap none) >>= λ cells.
        destroy_range v.d_size old >>= λ empty.
        if may_deallocate empty new_cap
        then some (record v { arr = some cells; d_capacity = new_cap })
        else none)
  ]

  -- `operator[]`, with its assert
  unfoldable pub at : ℕ → Vector T → Option T
  at idx v = if ltb idx v.d_size then (v.arr >>= λ cells. get_elem? cells idx >>= λ c. c) else none

  abbrev with_arr : Vector T → ℕ → Option (Cells T) → Option (Vector T)
  with_arr v size none = none
  with_arr v size (some cells) = some (record v { arr = some cells; d_size = size })

  -- `~vector()`: the objects are destroyed, and the memory is given back. It is what is returned; a
  -- null pointer may not be given back.
  unfoldable pub destroy : Vector T → Option (Cells T)
  unfolding destroy_range
  destroy v = v.arr >>= λ cells. destroy_range v.d_size cells >>= λ empty.
      if may_deallocate empty v.d_capacity then some empty else none

module _ {T : Type 0} where
  -- `operator=(const vector& rhs)` from another vector: a copy is swapped in, and the destructor runs
  -- on what was there
  unfoldable pub copy_assign : Vector T → Vector T → Option (Vector T)
  unfolding copy destroy
  copy_assign v rhs = do taken ← copy rhs; empty ← destroy v; some taken

  -- `operator=(vector&& rhs)` from another vector: both vectors afterwards
  unfoldable pub move_assign : Vector T → Vector T → Option (Vector T × Vector T)
  unfolding move destroy
  move_assign v rhs = do empty ← destroy v; some (move rhs)

module _ {T : Type 0} (grown : ℕ → ℕ) where
  -- `push_back`, in both forms, and `emplace_back`, of a value that is not in the vector
  unfoldable pub push_back : T → Vector T → Option (Vector T)
  unfolding reserve construct_at
  push_back val v =
      (if leb v.d_capacity v.d_size then reserve (grown v.d_size) v else some v) >>= λ r.
      r.arr >>= λ cells. with_arr r (r.d_size + 1) (construct_at r.d_size val cells)

  -- `resize`, where `new T` makes the value `fresh`
  unfoldable pub resize : T → ℕ → Vector T → Option (Vector T)
  unfolding reserve construct_from destroy_from
  resize fresh new_size v =
      if leb new_size v.d_size
      then (v.arr >>= λ cells.
          with_arr v new_size (destroy_from new_size (v.d_size - new_size) cells))
      else (let new_cap = if ltb new_size v.d_capacity then v.d_capacity else grown new_size in
          reserve new_cap v >>= λ r. r.arr >>= λ cells.
          with_arr r new_size (construct_from r.d_size (new_size - r.d_size) fresh cells))
