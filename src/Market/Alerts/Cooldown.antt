-- ===== src/Market/Alerts/Cooldown.antt =====
-- Alerts of one kind are at least a cooldown period apart.
use studycpp.Prelude.{
  ℕ, ◌+◌, ◌≤◌, ◌≡◌, refl, sym, ap, subst, ◌∙◌, inl, inr, ◌⊎◌, true, false, some, List, [], ◌∷◌,
  ◌++◌, map, append_assoc, append-nil, arith, if◌then◌else◌, Bool-cases, length, length-append,
}
use studycpp.Std.Key.{list_eq, eq_of_beq, beq_of_eq}
use studycpp.Std.Key.{◌==◌ as text_eq}
use studycpp.Std.Dict.{Dict, find, find-assign}
use studycpp.Std.OrderedSet.{All, All-imp}
use studycpp.Std.Text.{Text}
use studycpp.Market.Alerts.{
  Alert, AlertManager, cooldown_key, cooldown_period, in_cooldown, raise_alert,
}

-- A call of `raise_alert`: the time of the clock and the alert.
abbrev pub Call : Type 0
Call = ℕ × Alert

unfoldable pub raise_all : AlertManager → List Call → AlertManager
raise_all m [] = m
raise_all m ((now, a) ∷ cs) = raise_all (raise_alert m now a) cs

-- the calls that were let through
unfoldable pub accepted : AlertManager → List Call → List Call
accepted m [] = []
accepted m ((now, a) ∷ cs) =
    let rest = accepted (raise_alert m now a) cs in
    if in_cooldown now (find (cooldown_key a) m.alert_cooldowns) then rest else (now, a) ∷ rest

-- the calls of a list are some of those of another one, in order
abbrev pub IsPart : List Call → List Call → Type 0
IsPart ds [] = ds ≡ []
IsPart ds (c ∷ cs) = IsPart ds cs ⊎ ((rest : List Call) × ((ds ≡ c ∷ rest) × IsPart rest cs))

accepted-IsPart : (m : AlertManager) (cs : List Call) → IsPart (accepted m cs) cs
unfolding accepted
accepted-IsPart m [] = refl
accepted-IsPart m ((now, a) ∷ cs) =
    let rest = accepted-IsPart (raise_alert m now a) cs in
    elim (Bool-cases (in_cooldown now (find (cooldown_key a) m.alert_cooldowns))) [
      | inl e ↦ rw e (inl rest)
      | inr e ↦ rw e (inr (accepted (raise_alert m now a) cs, (refl, rest)))
    ]

-- an accepted call of the kind `key` is at or after the time `t`
abbrev pub After : Text → ℕ → Call → Type 0
After key t c = cooldown_key c.1 ≡ key → t ≤ c.0

-- each call is followed by calls of its kind a cooldown period later only
abbrev pub AreApart : List Call → Type 0
AreApart [] = Unit
AreApart ((now, a) ∷ cs) = All (After (cooldown_key a) (now + cooldown_period)) cs × AreApart cs

-- the clock does not go back
abbrev pub IsMonotone : ℕ → List Call → Type 0
IsMonotone t [] = Unit
IsMonotone t ((now, a) ∷ cs) = (t ≤ now) × IsMonotone now cs

-- A call keeps the number of active alerts equal to that of the queued ones, and the printed alerts
-- equal to the queued ones.
pub raise_alert-counted :
    (m : AlertManager) (now : ℕ) (a : Alert)
    → m.active_alerts ≡ length m.alert_queue
    → m.logged ≡ m.alert_queue
    → let m' = raise_alert m now a in
      (m'.active_alerts ≡ length m'.alert_queue) × (m'.logged ≡ m'.alert_queue)
unfolding raise_alert
raise_alert-counted m now a h k = ground (arith, length-append m.alert_queue (a ∷ []))

-- After a call, a kind was last raised at its old time or now.
pub raise_alert-find :
    (m : AlertManager) (now : ℕ) (a : Alert) (key : Text)
    → let old = find key m.alert_cooldowns in
      find key (raise_alert m now a).alert_cooldowns ≡ (
        if in_cooldown now (find (cooldown_key a) m.alert_cooldowns)
        then old
        else if text_eq (cooldown_key a) key
        then some now
        else old)
unfolding raise_alert
raise_alert-find m now a key =
    ground (arith, find-assign (cooldown_key a) key now m.alert_cooldowns)

IsMonotone-weaken : (s t : ℕ) (cs : List Call) → s ≤ t → IsMonotone t cs → IsMonotone s cs
IsMonotone-weaken s t [] h k = tt
IsMonotone-weaken s t (c ∷ cs) h k = (omega arith, k.1)

After-weaken :
    (key : Text) (s t : ℕ) (cs : List Call) → s ≤ t → All (After key t) cs → All (After key s) cs
After-weaken key s t cs h k =
    All-imp (After key t) (After key s) (λ c f e. let p = f e in omega arith) cs k

-- An alert that is let through finds its kind's last alert a period ago.
in_cooldown-find :
    (d : Dict Text ℕ) (i key : Text) (now t : ℕ)
    → text_eq i key ≡ true
    → find key d ≡ some t
    → in_cooldown now (find i d) ≡ false
    → t + cooldown_period ≤ now
in_cooldown-find d i key now t q h e =
    let p = subst (λ j. find j d ≡ some t) (sym (eq_of_beq i key q)) h in
    let b = subst (λ o. in_cooldown now o ≡ false) p e in ground (arith, b)

-- If a kind was last raised at `t`, its next accepted call is a period later.
accepted-After :
    (m : AlertManager) (cs : List Call) (key : Text) (t : ℕ)
    → find key m.alert_cooldowns ≡ some t
    → IsMonotone t cs
    → All (After key (t + cooldown_period)) (accepted m cs)
unfolding accepted
accepted-After m [] key t h k = tt
accepted-After m ((now, a) ∷ cs) key t h (k, l) =
    let f = raise_alert-find m now a key in
    elim (Bool-cases (in_cooldown now (find (cooldown_key a) m.alert_cooldowns))) [
      | inl e ↦ rw e (
          accepted-After (raise_alert m now a) cs key t (rw (f, e) h)
            (IsMonotone-weaken t now cs k l))
      | inr e ↦ rw e (elim (Bool-cases (text_eq (cooldown_key a) key)) [
        | inl q ↦
            let p = in_cooldown-find m.alert_cooldowns (cooldown_key a) key now t q h e in
            (
              λ r. p,
              After-weaken key (t + cooldown_period) (now + cooldown_period)
                  (accepted (raise_alert m now a) cs) (omega arith)
                  (accepted-After (raise_alert m now a) cs key now (rw (f, e, q) refl) l),
            )
        | inr q ↦ (
          λ r. cc (sym (beq_of_eq (cooldown_key a) key r) ∙ q),
          accepted-After (raise_alert m now a) cs key t (rw (f, e, q) h)
              (IsMonotone-weaken t now cs k l),
        )
      ])
    ]

-- With a clock that does not go back, accepted calls of one kind are at least the cooldown period apart.
accepted_apart :
    (m : AlertManager) (cs : List Call) (t : ℕ) → IsMonotone t cs → AreApart (accepted m cs)
unfolding accepted
accepted_apart m [] t h = tt
accepted_apart m ((now, a) ∷ cs) t (h, k) =
    let f = raise_alert-find m now a (cooldown_key a) in
    let rest = accepted_apart (raise_alert m now a) cs now k in
    elim (Bool-cases (in_cooldown now (find (cooldown_key a) m.alert_cooldowns))) [
      | inl e ↦ rw e rest
      | inr e ↦ rw e (
        accepted-After (raise_alert m now a) cs (cooldown_key a) now
            (rw (f, e, beq_of_eq (cooldown_key a) (cooldown_key a) refl) refl) k,
        rest,
      )
    ]

pub raise_alert-alert_queue :
    (m : AlertManager) (now : ℕ) (a : Alert)
    → (raise_alert m now a).alert_queue ≡ (
        if in_cooldown now (find (cooldown_key a) m.alert_cooldowns)
        then m.alert_queue
        else m.alert_queue ++ (a ∷ []))
unfolding raise_alert
raise_alert-alert_queue m now a = ground arith

pub raise_all-accepted :
    (m : AlertManager) (cs : List Call)
    → (raise_all m cs).alert_queue ≡ m.alert_queue ++ map (λ c. c.1) (accepted m cs)
unfolding raise_all accepted
raise_all-accepted m [] = sym (append-nil m.alert_queue)
raise_all-accepted m ((now, a) ∷ cs) =
    let rest = raise_all-accepted (raise_alert m now a) cs in
    let q = raise_alert-alert_queue m now a in
    let assoc =
      append_assoc m.alert_queue (a ∷ []) (map (λ c. c.1) (accepted (raise_alert m now a) cs)) in
    elim (Bool-cases (in_cooldown now (find (cooldown_key a) m.alert_cooldowns))) [
      | inl e ↦
          rw (rest, e)
            (ap (λ x. x ++ map (λ c. c.1) (accepted (raise_alert m now a) cs)) (q ∙ rw e refl))
      | inr e ↦
          rw (rest, e)
            (ap (λ x. x ++ map (λ c. c.1) (accepted (raise_alert m now a) cs)) (q ∙ rw e refl)
              ∙ assoc)
    ]

-- Alerts are raised one after the other, with a clock that does not go back. What the queue then has
-- more than before are the alerts of some of the calls, in order, and any two of these calls whose alerts
-- have the same source and message text are at least the cooldown period apart.
pub raise_all-AreApart :
    (m : AlertManager) (cs : List Call) (t : ℕ)
    → IsMonotone t cs
    → (queued : List Call) × (((raise_all m cs).alert_queue
          ≡ m.alert_queue ++ map (λ c. c.1) queued)
        × (IsPart queued cs × AreApart queued))
raise_all-AreApart m cs t h =
    (accepted m cs, (raise_all-accepted m cs, (accepted-IsPart m cs, accepted_apart m cs t h)))
