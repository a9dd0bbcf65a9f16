-- ===== src/Webhook/Registry/History.antt =====
-- The deliveries that concluded one after another, to any URLs, and what they make of a circuit.
use wa_rs.Common.{
  ℕ, ◌+◌, ◌<◌, ◌≡◌, ◌∙◌, refl, Bool, false, not, String, Option, none, some, List, [], ◌∷◌, ◌==◌,
  eq_iff, keep, leb, if◌then◌else◌, arith,
}
use wa_rs.Webhook.Circuit.{
  CircuitState, Circuits, WebhookFailureAction, find, put, or_default, reset,
  webhook_record_success, webhook_record_failure,
}
use wa_rs.Webhook.Delivery.{WebhookRetryConfig, Outcome, delivered, failed, untried}
use wa_rs.Webhook.Registry.{WebhookState, Delivery, conclude, react, purge_webhook_by_url}

-- A delivery that concluded; `fails` says whether an UPDATE to disable its URL failed.
pub record Concluded : Type 0 where
  pub fails : Bool
  pub delivery : Delivery
  pub at : ℕ
  pub outcome : Outcome

-- The state after deliveries, the newest first.
abbrev pub after : WebhookRetryConfig → List Concluded → WebhookState → WebhookState
after c [] s = s
after c (x ∷ older) s = conclude c x.fails x.delivery x.at x.outcome (after c older s)

-- The failures of a URL in a row: a success ends the row, and so does the 100th failure.
abbrev pub counted_by : Outcome → ℕ → ℕ
counted_by delivered k = 0
counted_by untried k = k
counted_by (failed _) k = if leb 99 k then 0 else k + 1

abbrev pub row : String → List Concluded → ℕ
row url [] = 0
row url (x ∷ older) =
    let k = row url older in if x.delivery.url == url then counted_by x.outcome k else k

counted_by-bound : (o : Outcome) (k : ℕ) → k < 100 → counted_by o k < 100
counted_by-bound delivered k h = omega arith
counted_by-bound untried k h = h
counted_by-bound (failed e) k h = ground (arith, h)

pub row-bound : (url : String) (h : List Concluded) → row url h < 100
row-bound url [] = omega arith
row-bound url (x ∷ older) =
    ground
      (arith, row-bound url older, counted_by-bound x.outcome (row url older) (row-bound url older))

-- The circuit that the next failure of the URL, at `now`, meets.
abbrev pub met : ℕ → String → Circuits → CircuitState
met now url m = or_default now (find url m)

find-put_other :
    (url other : String) (c : CircuitState) (m : Circuits)
    → (other == url) ≡ false
    → find url (put other c m) ≡ find url m
unfolding find put
find-put_other url other c [] differ = rw differ refl
find-put_other url other c ((u, d) ∷ rest) differ =
    ground (arith, differ, find-put_other url other c rest differ, eq_iff u other)

-- The circuits that a purge leaves.
abbrev pub purged : String → Circuits → Circuits
purged url m = keep (λ (u, _). not (u == url)) m

pub find-purged : (url : String) (m : Circuits) → find url (purged url m) ≡ none
unfolding find
find-purged url [] = refl
find-purged url ((u, c) ∷ rest) = ground (arith, find-purged url rest)

find-purged_other :
    (url other : String) (m : Circuits)
    → (other == url) ≡ false
    → find url (purged other m) ≡ find url m
unfolding find
find-purged_other url other [] differ = refl
find-purged_other url other ((u, c) ∷ rest) differ =
    ground (arith, differ, find-purged_other url other rest differ, eq_iff u other)

-- The circuits once an action is taken.
abbrev pub react_circuits : String → WebhookFailureAction → Circuits → Circuits
react_circuits url WebhookFailureAction.hard_disable m = purged url m
react_circuits url WebhookFailureAction.opens m = m
react_circuits url WebhookFailureAction.noop m = m

react-circuits :
    (fails : Bool) (url e : String) (now : ℕ) (a : WebhookFailureAction) (s : WebhookState)
    → (react fails url e now a s).circuits ≡ react_circuits url a s.circuits
unfolding react purge_webhook_by_url
react-circuits fails url e now WebhookFailureAction.hard_disable s = refl
react-circuits fails url e now WebhookFailureAction.opens s = refl
react-circuits fails url e now WebhookFailureAction.noop s = refl

-- The circuits after a delivery.
abbrev pub circuits_after : String → ℕ → Outcome → Circuits → Circuits
circuits_after url now delivered m = webhook_record_success url now m
circuits_after url now untried m = m
circuits_after url now (failed _) m =
    react_circuits url (webhook_record_failure url now m).0 (webhook_record_failure url now m).1

pub conclude-circuits :
    (c : WebhookRetryConfig) (fails : Bool) (d : Delivery) (now : ℕ) (o : Outcome)
    (s : WebhookState)
    → (conclude c fails d now o s).circuits ≡ circuits_after d.url now o s.circuits
unfolding conclude
conclude-circuits c fails d now delivered s = refl
conclude-circuits c fails d now untried s = refl
conclude-circuits c fails d now (failed e) s = react-circuits fails d.url e now _ _

-- A delivery to another URL leaves the circuit alone.
react_circuits-other :
    (url other : String) (a : WebhookFailureAction) (m : Circuits)
    → (other == url) ≡ false
    → find url (react_circuits other a m) ≡ find url m
react_circuits-other url other WebhookFailureAction.hard_disable m differ =
    find-purged_other url other m differ
react_circuits-other url other WebhookFailureAction.opens m differ = refl
react_circuits-other url other WebhookFailureAction.noop m differ = refl

success-other :
    (url other : String) (now : ℕ) (m : Circuits)
    → (other == url) ≡ false
    → find url (webhook_record_success other now m) ≡ find url m
unfolding webhook_record_success
success-other url other now m differ = reset_other (find other m)
  where
    reset_other :
        (o : Option CircuitState)
        → find url (elim o [ none ↦ m | some c ↦ put other (reset now c) m ]) ≡ find url m
    reset_other none = refl
    reset_other (some c) = find-put_other url other (reset now c) m differ

pub circuits_after-other :
    (url other : String) (now : ℕ) (o : Outcome) (m : Circuits)
    → (other == url) ≡ false
    → find url (circuits_after other now o m) ≡ find url m
unfolding webhook_record_failure
circuits_after-other url other now delivered m differ = success-other url other now m differ
circuits_after-other url other now untried m differ = refl
circuits_after-other url other now (failed e) m differ =
    react_circuits-other url other _ _ differ ∙ find-put_other url other _ m differ
