-- ===== src/Webhook/Registry/Breaker.antt =====
-- What the circuit breaker does after deliveries that concluded one after another.
use wa_rs.Common.{
  ℕ, ◌+◌, ◌<◌, ◌≡◌, refl, sym, true, false, String, Option, none, some, List, [], ◌∷◌, ◌==◌, eq_iff,
  leb, nat_eq, if◌then◌else◌, arith, Bool-cases, inl, inr,
}
use mathlib.Core.Path.{subst}
use wa_rs.Webhook.Circuit.{
  CircuitState, Circuits, WebhookFailureAction, find, put, counted, fail, reset,
  webhook_record_success, webhook_record_failure,
}
use wa_rs.Webhook.Circuit.Streak.{Streak, action_after, find-put, fail-action, fail-Streak}
use wa_rs.Webhook.Delivery.{WebhookRetryConfig, Outcome, delivered, failed, untried}
use wa_rs.Webhook.Registry.{WebhookState}
use wa_rs.Webhook.Registry.History.{
  Concluded, after, counted_by, row, row-bound, met, find-purged, react_circuits, circuits_after,
  circuits_after-other, conclude-circuits,
}

-- The circuit of the URL is within a run of `k` failures.
abbrev pub InRow : ℕ → String → Circuits → Type 0
InRow k url m = (now : ℕ) → Streak k (met now url m)

new-InRow : (url : String) (m : Circuits) → find url m ≡ none → InRow 0 url m
new-InRow url m new now =
    rw new (record { failures = refl; closed = λ h. refl; opened = λ h. absurd (omega (arith, h)) })

found-InRow :
    (k : ℕ) (url : String) (c : CircuitState) (m : Circuits)
    → Streak k c
    → find url m ≡ some c
    → InRow k url m
found-InRow k url c m s found now = rw found s

success-InRow : (url : String) (t : ℕ) (m : Circuits) → InRow 0 url (webhook_record_success url t m)
unfolding webhook_record_success
success-InRow url t m = by_entry (find url m) refl
  where
    by_entry :
        (o : Option CircuitState)
        → find url m ≡ o
        → InRow 0 url (elim o [ none ↦ m | some c ↦ put url (reset t c) m ])
    by_entry none e = new-InRow url m e
    by_entry (some c) e =
        found-InRow 0 url (reset t c) (put url (reset t c) m)
          (record { failures = refl; closed = λ h. refl; opened = λ h. absurd (omega (arith, h)) })
          (find-put url (reset t c) m)

action_last : (k : ℕ) → leb 99 k ≡ true → action_after k ≡ WebhookFailureAction.hard_disable
action_last k last = ground (arith, last)

-- No failure before the 100th removes a circuit.
pub kept :
    (k : ℕ) (url : String) (m : Circuits)
    → leb 99 k ≡ false
    → react_circuits url (action_after k) m ≡ m
kept k url m more =
    rw not_last (elim (Bool-cases (nat_eq (k + 1) 25)) [ inl h ↦ rw h refl | inr h ↦ rw h refl ])
  where
    not_last : leb 100 (k + 1) ≡ false
    not_last = ground (arith, more)

module _ (k t : ℕ) (url : String) (m : Circuits) (bound : k < 100) (i : InRow k url m) where
  -- The circuit with one more failure.
  abbrev pub failing : CircuitState
  failing = (fail t (counted t (met t url m))).0

  pub failure-action : (webhook_record_failure url t m).0 ≡ action_after k
  unfolding webhook_record_failure
  failure-action = fail-action k t (met t url m) (omega (arith, bound)) (i t)

  pub failure-found : find url (webhook_record_failure url t m).1 ≡ some failing
  unfolding webhook_record_failure
  failure-found = find-put url failing m

  failure-InRow :
      InRow
        (if leb 99 k then 0 else k + 1)
        url
        (react_circuits url (webhook_record_failure url t m).0 (webhook_record_failure url t m).1)
  failure-InRow = rw failure-action (elim (Bool-cases (leb 99 k)) [
    | inl last ↦ rw last (rw (action_last k last) (new-InRow url _ (find-purged url _)))
    | inr more ↦ rw more (
        rw (kept k url (webhook_record_failure url t m).1 more) (
          found-InRow (k + 1) url failing _
            (fail-Streak k t (met t url m) (omega (arith, bound)) (i t)) failure-found))
  ])

outcome-InRow :
    (k t : ℕ) (url : String) (o : Outcome) (m : Circuits)
    → k < 100
    → InRow k url m
    → InRow (counted_by o k) url (circuits_after url t o m)
outcome-InRow k t url delivered m bound i = success-InRow url t m
outcome-InRow k t url untried m bound i = i
outcome-InRow k t url (failed e) m bound i = failure-InRow k t url m bound i

delivery-InRow :
    (url other : String) (k t : ℕ) (o : Outcome) (m : Circuits)
    → k < 100
    → InRow k url m
    → InRow (if other == url then counted_by o k else k) url (circuits_after other t o m)
delivery-InRow url other k t o m bound i = elim (Bool-cases (other == url)) [
  | inl own ↦ rw own (
      subst (λ u. InRow (counted_by o k) url (circuits_after u t o m))
        (sym ((eq_iff other url).0 own)) (outcome-InRow k t url o m bound i))
  | inr differ ↦ rw differ (λ now. rw (circuits_after-other url other t o m differ) (i now))
]

module _ (c : WebhookRetryConfig) (url : String) (s : WebhookState)
    (new : find url s.circuits ≡ none) where
  pub after-InRow : (h : List Concluded) → InRow (row url h) url (after c h s).circuits
  after-InRow [] = new-InRow url s.circuits new
  after-InRow (x ∷ older) =
      rw (conclude-circuits c x.fails x.delivery x.at x.outcome (after c older s)) (
        delivery-InRow url x.delivery.url (row url older) x.at x.outcome (after c older s).circuits
          (row-bound url older) (after-InRow older))
