-- ===== src/Market/Tcp/Lines.antt =====
-- The lines that a receiver hands on do not depend on how the data is cut into packets.
use studycpp.Prelude.{
  ℕ, zero, suc, ◌<◌, ◌≡◌, refl, sym, subst, ◌∙◌, inl, inr, false, Option, none, some, List, [], ◌∷◌,
  ◌++◌, arith, ◌==◌, if◌then◌else◌, Bool-cases, Option-cases, length,
}
use studycpp.Prelude.Do.{◌>>=◌}
use studycpp.Std.Text.{Text}
use studycpp.Market.Tcp.{next_line, process_lines}

-- The complete lines and what is left, with one more character in front.
abbrev pub attach : ℕ → List Text × Text → List Text × Text
attach c ([], left) = ([], c ∷ left)
attach c (l ∷ ls, left) = ((c ∷ l) ∷ ls, left)

-- the complete lines of a text, and what is left
unfoldable pub lines : Text → List Text × Text
lines [] = ([], [])
lines (c ∷ s) = let rest = lines s in if c == 10 then ([] ∷ rest.0, rest.1) else attach c rest

abbrev pub lines_with : List Text → List Text × Text → List Text × Text
lines_with ls (ms, left) = (ls ++ ms, left)

attach-lines_with :
    (c : ℕ) (t : Text) (a : List Text × Text)
    → (c == 10) ≡ false
    → attach c (lines_with a.0 (lines (a.1 ++ t)))
      ≡ lines_with (attach c a).0 (lines ((attach c a).1 ++ t))
unfolding lines
attach-lines_with c t ([], left) e = rw e refl
attach-lines_with c t (l ∷ ls, left) e = refl

-- The lines of two texts: those of the first, and those of what it leaves with the second.
pub lines-append : (s t : Text) → lines (s ++ t) ≡ lines_with (lines s).0 (lines ((lines s).1 ++ t))
unfolding lines
lines-append [] t = refl
lines-append (c ∷ s) t = elim (Bool-cases (c == 10)) [
  | inl e ↦ rw (e, lines-append s t) refl
  | inr e ↦ rw (e, lines-append s t) (attach-lines_with c t (lines s) e)
]

attach_left :
    (c : ℕ) (a : List Text × Text)
    → (c == 10) ≡ false
    → lines a.1 ≡ ([], a.1)
    → lines (attach c a).1 ≡ ([], (attach c a).1)
unfolding lines
attach_left c ([], left) e h = rw (e, h) refl
attach_left c (l ∷ ls, left) e h = h

-- What is left has no complete line.
pub lines_left : (s : Text) → lines (lines s).1 ≡ ([], (lines s).1)
unfolding lines
lines_left [] = refl
lines_left (c ∷ s) = elim (Bool-cases (c == 10)) [
  | inl e ↦ rw e (lines_left s)
  | inr e ↦ rw e (attach_left c (lines s) e (lines_left s))
]

-- What `next_line` returns of a text, by its lines.
abbrev Next : Text → Option (Text × Text) → Type 0
Next s none = lines s ≡ ([], s)
Next s (some (l, more)) =
    (lines s ≡ (l ∷ (lines more).0, (lines more).1)) × (length more < length s)

abbrev in_front : ℕ → Option (Text × Text) → Option (Text × Text)
in_front c none = none
in_front c (some (l, more)) = some (c ∷ l, more)

Next-in_front :
    (c : ℕ) (s : Text) (o : Option (Text × Text))
    → (c == 10) ≡ false
    → Next s o
    → Next (c ∷ s) (in_front c o)
unfolding lines
Next-in_front c s none e n = rw (e, n) refl
Next-in_front c s (some (l, more)) e n = (rw (e, n.0) refl, omega (arith, n.1))

next_line-in_front :
    (c : ℕ) (s : Text) → (c == 10) ≡ false → next_line (c ∷ s) ≡ in_front c (next_line s)
unfolding next_line
next_line-in_front c s e =
    rw e (elim (Option-cases (next_line s)) [ inl f ↦ rw f refl | inr (p, f) ↦ rw f refl ])

next_line-Next : (s : Text) → Next s (next_line s)
unfolding next_line lines
next_line-Next [] = refl
next_line-Next (c ∷ s) = elim (Bool-cases (c == 10)) [
  | inl e ↦ rw (e, e) (refl, omega arith)
  | inr e ↦
      subst (Next (c ∷ s)) (sym (next_line-in_front c s e))
        (Next-in_front c s (next_line s) e (next_line-Next s))
]

-- The handler takes the lines one after the other.
unfoldable pub deliver : {H : Type 0} → (Text → H → Option H) → List Text → H → Option H
deliver on_message [] h = some h
deliver on_message (l ∷ ls) h = on_message l h >>= deliver on_message ls

pub deliver-append :
    {H : Type 0} (on_message : Text → H → Option H) (ls ms : List Text) (h : H)
    → deliver on_message (ls ++ ms) h ≡ (deliver on_message ls h >>= deliver on_message ms)
unfolding deliver
deliver-append on_message [] ms h = refl
deliver-append on_message (l ∷ ls) ms h = elim (Option-cases (on_message l h)) [
  | inl e ↦ rw e refl
  | inr (h', e) ↦ rw e (deliver-append on_message ls ms h')
]

abbrev pub paired : {A B : Type 0} → A → Option B → Option (A × B)
paired a none = none
paired a (some b) = some (a, b)

module _ {H : Type 0} (on_message : Text → H → Option H) where
  process_lines-none :
      (fuel : ℕ) (s : Text) (h : H)
      → next_line s ≡ none
      → process_lines on_message (suc fuel) s h ≡ some (s, h)
  unfolding process_lines
  process_lines-none fuel s h e = rw (e, process_lines) refl

  process_lines-some :
      (fuel : ℕ) (s l more : Text) (h : H)
      → next_line s ≡ some (l, more)
      → process_lines on_message (suc fuel) s h
        ≡ (on_message l h >>= λ h'. process_lines on_message fuel more h')
  unfolding process_lines
  process_lines-some fuel s l more h e = rw (e, process_lines) refl

  -- With enough fuel the loop hands on the complete lines and leaves the rest.
  pub process_lines_lem :
      (fuel : ℕ) (s : Text) (h : H)
      → length s < fuel
      → process_lines on_message fuel s h ≡ paired (lines s).1 (deliver on_message (lines s).0 h)
  unfolding deliver
  process_lines_lem zero s h k = absurd (omega arith)
  process_lines_lem (suc fuel) s h k = elim (Option-cases (next_line s)) [
    | inl e ↦
        let n = subst (Next s) e (next_line-Next s) in process_lines-none fuel s h e ∙ rw n refl
    | inr ((l, more), e) ↦
        let n = subst (Next s) e (next_line-Next s) in
        process_lines-some fuel s l more h e
        ∙ rw n.0 (elim (Option-cases (on_message l h)) [
          | inl f ↦ rw f refl
          | inr (h', f) ↦ rw f (process_lines_lem fuel more h' (omega (arith, n.1)))
        ])
  ]
