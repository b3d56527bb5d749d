-- ===== src/Std/Text.antt =====
-- `std::string` as the list of its character codes: order, `operator+`, `std::to_string`, `find`.
use Prim.Native.Char.{code}
use Prim.Native.String.{String}
pub mod Order
pub mod Decimal
pub mod Search
use studycpp.Prelude.{
  ℕ, zero, suc, ◌+◌, ◌-◌, ◌*◌, ◌/◌, ◌%◌, ◌^◌, ◌≤◌, ◌<◌, min, max, bit_and, bit_or, ◌≡◌, refl, sym,
  ap, ap₂, subst, ◌∙◌, ◌≢◌, ◌↔◌, ◌⊎◌, inl, inr, Bool, true, false, not, ◌&&◌, ◌||◌, Option, none,
  some, List, [], ◌∷◌, ◌++◌, map, append_assoc, append-nil, arith, dec_lt, ℕ_discrete, ltb, leb,
  ◌==◌, if◌then◌else◌, ltb→lt, lt→ltb, leb→le, ==_iff, Bool-cases, Option-cases, length, get_elem?,
  set, length-append, length-set, get_elem?-set_self, get_elem?-set_ne, get_or, take, drop,
  replicate, take-append-drop, length-take, length-drop, length-replicate, length-map,
}

abbrev pub Text : Type 0
Text = List ℕ

-- The codes of a literal.
abbrev pub codes : String → Text
codes String.[] = []
codes (String.◌∷◌ c s) = code c ∷ codes s

-- `operator<`: lexicographic
unfoldable pub text_lt : Text → Text → Bool
text_lt s [] = false
text_lt [] (d ∷ t) = true
text_lt (c ∷ s) (d ∷ t) = let rest = text_lt s t in if ltb c d then true else (c == d) && rest

-- `std::to_string` of an unsigned number: the decimal digits, on fuel. A number has fewer digits
-- than one more than its value.
unfoldable pub decimal : ℕ → ℕ → Text
decimal zero n = []
decimal (suc fuel) n =
    let rest = decimal fuel (n / 10) in
    if ltb n 10 then (b'0' + n) ∷ [] else rest ++ ((b'0' + n % 10) ∷ [])

unfoldable pub to_string : ℕ → Text
unfolding decimal
to_string n = decimal (suc n) n
