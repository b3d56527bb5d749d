-- ===== src/Market/Alerts/Check.antt =====
-- Which alerts `checkMetrics` raises.
use studycpp.Prelude.{
  ℕ, ◌≡◌, refl, sym, ap, ◌∙◌, inl, inr, Bool, true, false, not, ◌&&◌, none, List, [], ◌∷◌, ◌++◌,
  append_assoc, append-nil, ltb, if◌then◌else◌, Bool-cases,
}
use studycpp.Std.Dict.{find}
use studycpp.Std.Key.{list_eq}
use studycpp.Std.Key.{◌==◌ as text_eq}
use studycpp.Std.Text.{Text}
use studycpp.Market.Alerts.Cooldown.{raise_alert-find, raise_alert-alert_queue}
use studycpp.Market.Alerts.{
  Alert, AlertManager, Levels, thresholds, in_cooldown, cooldown_key, raise_alert, check_metrics,
  critical_latency, warning_latency, low_rate, many_gaps, long_queue,
}

-- `a` if the test holds
abbrev when : Bool → Alert → List Alert
when true a = a ∷ []
when false a = []

-- what the levels call for: only the worse of the two latency alerts
abbrev pub due : ℕ → Levels → List Alert
due now l =
    let slow = ltb thresholds.latency_critical_micros l.p99_latency in
    when slow (critical_latency now l)
    ++ (when (not slow && ltb thresholds.latency_warning_micros l.p95_latency)
          (warning_latency now l)
        ++ (when (ltb l.message_rate thresholds.min_message_rate) (low_rate now l)
            ++ (when (ltb thresholds.max_sequence_gaps l.sequence_gaps) (many_gaps now l)
                ++ (when (ltb thresholds.max_queue_size l.queue_size) (long_queue now l) ++ []))))

unfoldable raise_when : Bool → AlertManager → ℕ → Alert → AlertManager
raise_when b m t a = if b then raise_alert m t a else m

raise_when-alert_queue :
    (b : Bool) (m : AlertManager) (t : ℕ) (a : Alert)
    → find (cooldown_key a) m.alert_cooldowns ≡ none
    → (raise_when b m t a).alert_queue ≡ m.alert_queue ++ when b a
unfolding raise_when
raise_when-alert_queue true m t a h = raise_alert-alert_queue m t a ∙ rw h refl
raise_when-alert_queue false m t a h = sym (append-nil m.alert_queue)

-- The cooldown of another kind stays.
raise_when-other :
    (b : Bool) (m : AlertManager) (t : ℕ) (a : Alert) (key : Text)
    → text_eq (cooldown_key a) key ≡ false
    → find key (raise_when b m t a).alert_cooldowns ≡ find key m.alert_cooldowns
unfolding raise_when
raise_when-other true m t a key h =
    raise_alert-find m t a key
    ∙ rw h (elim (Bool-cases (in_cooldown t (find (cooldown_key a) m.alert_cooldowns))) [
      | inl e ↦ rw e refl
      | inr e ↦ rw e refl
    ])
raise_when-other false m t a key h = refl

-- One conditional alert of a check.
abbrev Step : Type 0
Step = Bool × ℕ × Alert

unfoldable raise_each : AlertManager → List Step → AlertManager
raise_each m [] = m
raise_each m ((b, t, a) ∷ ss) = raise_each (raise_when b m t a) ss

alerts_of : List Step → List Alert
alerts_of [] = []
alerts_of ((b, t, a) ∷ ss) = when b a ++ alerts_of ss

-- no step is of the kind `key`
abbrev AllOther : Text → List Step → Type 0
AllOther key [] = Unit
AllOther key ((b, t, a) ∷ ss) = (text_eq key (cooldown_key a) ≡ false) × AllOther key ss

abbrev AreDistinct : List Step → Type 0
AreDistinct [] = Unit
AreDistinct ((b, t, a) ∷ ss) = AllOther (cooldown_key a) ss × AreDistinct ss

abbrev AreFresh : AlertManager → List Step → Type 0
AreFresh m [] = Unit
AreFresh m ((b, t, a) ∷ ss) = (find (cooldown_key a) m.alert_cooldowns ≡ none) × AreFresh m ss

raise_when-AreFresh :
    (b : Bool) (m : AlertManager) (t : ℕ) (a : Alert) (ss : List Step)
    → AllOther (cooldown_key a) ss
    → AreFresh m ss
    → AreFresh (raise_when b m t a) ss
raise_when-AreFresh b m t a [] h k = tt
raise_when-AreFresh b m t a ((c, u, d) ∷ ss) h k =
    (raise_when-other b m t a (cooldown_key d) h.0 ∙ k.0, raise_when-AreFresh b m t a ss h.1 k.1)

raise_each-alert_queue :
    (m : AlertManager) (ss : List Step)
    → AreDistinct ss
    → AreFresh m ss
    → (raise_each m ss).alert_queue ≡ m.alert_queue ++ alerts_of ss
unfolding raise_each alerts_of
raise_each-alert_queue m [] h k = sym (append-nil m.alert_queue)
raise_each-alert_queue m ((b, t, a) ∷ ss) h k =
    raise_each-alert_queue (raise_when b m t a) ss h.1 (raise_when-AreFresh b m t a ss h.0 k.1)
    ∙ ap (λ x. x ++ alerts_of ss) (raise_when-alert_queue b m t a k.0)
    ∙ append_assoc m.alert_queue (when b a) (alerts_of ss)

abbrev checks : ℕ → ℕ → ℕ → ℕ → ℕ → Levels → List Step
checks now t₁ t₂ t₃ t₄ l =
    let slow = ltb thresholds.latency_critical_micros l.p99_latency in
    (slow, t₁, critical_latency now l)
    ∷ (not slow && ltb thresholds.latency_warning_micros l.p95_latency, t₁, warning_latency now l)
    ∷ (ltb l.message_rate thresholds.min_message_rate, t₂, low_rate now l)
    ∷ (ltb thresholds.max_sequence_gaps l.sequence_gaps, t₃, many_gaps now l)
    ∷ (ltb thresholds.max_queue_size l.queue_size, t₄, long_queue now l)
    ∷ []

check_metrics-raise_each :
    (m : AlertManager) (now t₁ t₂ t₃ t₄ : ℕ) (l : Levels)
    → check_metrics m now t₁ t₂ t₃ t₄ l ≡ raise_each m (checks now t₁ t₂ t₃ t₄ l)
unfolding check_metrics raise_each raise_when
check_metrics-raise_each m now t₁ t₂ t₃ t₄ l =
    elim (Bool-cases (ltb thresholds.latency_critical_micros l.p99_latency)) [
      | inl e ↦ rw e refl
      | inr e ↦ rw e refl
    ]

-- A manager without cooldowns queues exactly the alerts that the levels call for, in order: of the
-- two latency alerts only the worse one, and each of the others if its own level passes its
-- threshold.
pub check_metrics-due :
    (m : AlertManager) (now t₁ t₂ t₃ t₄ : ℕ) (l : Levels)
    → m.alert_cooldowns ≡ []
    → (check_metrics m now t₁ t₂ t₃ t₄ l).alert_queue ≡ m.alert_queue ++ due now l
unfolding alerts_of find
check_metrics-due m now t₁ t₂ t₃ t₄ l h =
    ap (λ c. c.alert_queue) (check_metrics-raise_each m now t₁ t₂ t₃ t₄ l)
    ∙ raise_each-alert_queue m (checks now t₁ t₂ t₃ t₄ l)
        (
          (refl, (refl, (refl, (refl, tt)))),
          ((refl, (refl, (refl, tt))), ((refl, (refl, tt)), ((refl, tt), (tt, tt)))),
        )
        (rw h (refl, (refl, (refl, (refl, (refl, tt))))))
