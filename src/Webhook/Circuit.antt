-- ===== src/Webhook/Circuit.antt =====
-- The circuit breaker of the webhook URLs. Instants are whole seconds.
pub mod Streak
use wa_rs.Common.{
  ℕ, ◌+◌, ◌-◌, ◌^◌, Bool, true, false, not, ◌&&◌, String, Option, none, some, List, [], ◌∷◌, ◌==◌,
  leb, ltb, if◌then◌else◌, min, count, keep, map,
}

-- `CircuitState`.
pub record CircuitState : Type 0 where
  pub failures : ℕ
  pub opened_until : Option ℕ
  pub last_event : ℕ

-- `WebhookFailureAction`.
pub data WebhookFailureAction : Type 0 where
  noop opens hard_disable : WebhookFailureAction

-- The map from URLs to circuits.
abbrev pub Circuits : Type 0
Circuits = List (String × CircuitState)

unfoldable pub find : String → Circuits → Option CircuitState
find url [] = none
find url ((u, c) ∷ rest) = if u == url then some c else find url rest

unfoldable pub put : String → CircuitState → Circuits → Circuits
put url c [] = (url, c) ∷ []
put url c ((u, d) ∷ rest) = if u == url then (u, c) ∷ rest else (u, d) ∷ put url c rest

abbrev pub open_threshold : ℕ
open_threshold = 25

abbrev pub hard_disable_threshold : ℕ
hard_disable_threshold = 100

abbrev pub cooldown : ℕ
cooldown = 300

-- `CircuitState::default`.
abbrev pub default_circuit : ℕ → CircuitState
default_circuit now = record { failures = 0; opened_until = none; last_event = now }

abbrev pub or_default : ℕ → Option CircuitState → CircuitState
or_default now none = default_circuit now
or_default now (some c) = c

abbrev pub is_none : Option ℕ → Bool
is_none none = true
is_none (some _) = false

-- An open circuit lets nothing pass until its time has come.
abbrev pub may_pass : ℕ → Option CircuitState → Bool
may_pass now none = true
may_pass now (some c) = elim c.opened_until [ none ↦ true | some until ↦ leb until now ]

unfoldable pub webhook_circuit_allows : String → ℕ → Circuits → Bool
webhook_circuit_allows url now m = may_pass now (find url m)

abbrev pub is_open : ℕ → CircuitState → Bool
is_open now c = elim c.opened_until [ none ↦ false | some until ↦ ltb now until ]

unfoldable pub webhook_circuits_open_count : ℕ → Circuits → ℕ
webhook_circuits_open_count now m = count (λ (_, c). is_open now c) m

-- A circuit that was reset.
abbrev pub reset : ℕ → CircuitState → CircuitState
reset now c = record c { failures = 0; opened_until = none; last_event = now }

unfoldable pub webhook_record_success : String → ℕ → Circuits → Circuits
webhook_record_success url now m = elim (find url m) [ none ↦ m | some c ↦ put url (reset now c) m ]

-- One more failure, counted in 32 bits without wrap-around.
abbrev pub counted : ℕ → CircuitState → CircuitState
counted now c = record c { last_event = now; failures = min (c.failures + 1) (2 ^ 32 - 1) }

-- What a failure makes of a circuit that has it counted.
unfoldable pub fail : ℕ → CircuitState → CircuitState × WebhookFailureAction
fail now c =
    if leb hard_disable_threshold c.failures
    then (c, WebhookFailureAction.hard_disable)
    else if leb open_threshold c.failures && is_none c.opened_until
    then (record c { opened_until = some (now + cooldown) }, WebhookFailureAction.opens)
    else (c, WebhookFailureAction.noop)

unfoldable pub webhook_record_failure : String → ℕ → Circuits → WebhookFailureAction × Circuits
unfolding fail
webhook_record_failure url now m =
    let (c, action) = fail now (counted now (or_default now (find url m))) in (action, put url c m)

-- The circuits after the reset of the open ones, and the URLs that were reset.
unfoldable pub reenable_all_open_circuits : ℕ → Circuits → List String × Circuits
reenable_all_open_circuits now m = (
  map (λ (url, _). url) (keep (λ (_, c). is_open now c) m),
  map (λ (url, c). (url, if is_open now c then reset now c else c)) m,
)
