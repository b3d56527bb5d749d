-- ===== src/Std/Text/Search.antt =====
-- `std::string::find`, `substr` and `std::stoull`.
use studycpp.Prelude.{
  ℕ, suc, ◌+◌, ◌-◌, ◌*◌, ◌%◌, ◌^◌, Bool, true, false, ◌&&◌, ◌||◌, Option, none, some, [], ◌∷◌, ltb,
  leb, ◌==◌, if◌then◌else◌, take, drop,
}
use studycpp.Std.Text.{Text}

unfoldable pub starts_with : Text → Text → Bool
starts_with [] s = true
starts_with (d ∷ needle) [] = false
starts_with (d ∷ needle) (c ∷ s) = let rest = starts_with needle s in (d == c) && rest

-- `find(needle)`, `none` for `npos`
unfoldable pub position : Text → Text → Option ℕ
unfolding starts_with
position [] [] = some 0
position (d ∷ needle) [] = none
position needle (c ∷ s) =
    let rest : Option ℕ = elim (position needle s) [ none ↦ none | some i ↦ some (suc i) ] in
    if starts_with needle (c ∷ s) then some 0 else rest

-- `substr(pos, n)` for a position in the text
abbrev pub substr : ℕ → ℕ → Text → Text
substr pos n s = take n (drop pos s)

abbrev is_space : ℕ → Bool
is_space c = (c == b' ') || (leb 9 c && leb c 13)

abbrev is_digit : ℕ → Bool
is_digit c = leb b'0' c && leb c b'9'

unfoldable pub skip_spaces : Text → Text
skip_spaces [] = []
skip_spaces (c ∷ s) = let rest = skip_spaces s in if is_space c then rest else c ∷ s

-- the number that the digits at the head make, with what was read before
unfoldable pub read_digits : Option ℕ → Text → Option ℕ
read_digits acc [] = acc
read_digits acc (c ∷ s) =
    let more = read_digits (some (elim acc [ none ↦ 0 | some n ↦ n ] * 10 + (c - b'0'))) s in
    if is_digit c then more else acc

abbrev in_range : Option ℕ → Option ℕ
in_range none = none
in_range (some n) = if ltb n (2 ^ 64) then some n else none

abbrev negated : Option ℕ → Option ℕ
negated none = none
negated (some n) = some ((2 ^ 64 - n) % 2 ^ 64)

abbrev signed : Text → Option ℕ
signed [] = none
signed (c ∷ s) =
    if c == b'-'
    then negated (in_range (read_digits none s))
    else if c == b'+'
    then in_range (read_digits none s)
    else in_range (read_digits none (c ∷ s))

-- `none` if it throws: there are no digits, or the number is too large
unfoldable pub stoull : Text → Option ℕ
unfolding skip_spaces read_digits
stoull s = signed (skip_spaces s)
