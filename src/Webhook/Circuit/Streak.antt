-- ===== src/Webhook/Circuit/Streak.antt =====
-- A circuit over the failures of its URL.
use wa_rs.Common.{
  ℕ, ◌+◌, ◌^◌, ◌≤◌, ◌<◌, ◌≡◌, refl, true, false, String, Option, none, some, [], ◌∷◌, ◌==◌, eq_refl,
  leb, nat_eq, if◌then◌else◌, arith, Bool-cases, inl, inr,
}
use wa_rs.Webhook.Circuit.{
  CircuitState, Circuits, WebhookFailureAction, find, put, or_default, is_none, counted, fail,
  may_pass, cooldown,
}

pub find-put : (url : String) (c : CircuitState) (m : Circuits) → find url (put url c m) ≡ some c
unfolding find put
find-put url c [] = ground (arith, eq_refl url)
find-put url c ((u, d) ∷ rest) = elim (Bool-cases (u == url)) [
  | inl hit ↦ rw hit (rw hit refl)
  | inr miss ↦ rw miss (rw miss (find-put url c rest))
]

-- A circuit within a run of `k` failures.
pub record Streak (k : ℕ) (c : CircuitState) : Type 0 where
  pub failures : c.failures ≡ k
  pub closed : k < 25 → c.opened_until ≡ none
  pub opened : 25 ≤ k → is_none c.opened_until ≡ false

-- What the failure after `k` others does.
abbrev pub action_after : ℕ → WebhookFailureAction
action_after k =
    if leb 100 (k + 1)
    then WebhookFailureAction.hard_disable
    else if nat_eq (k + 1) 25
    then WebhookFailureAction.opens
    else WebhookFailureAction.noop

none_if : (o : Option ℕ) → o ≡ none → is_none o ≡ true
none_if none e = refl
none_if (some t) e = cc

module _ (k now : ℕ) (c : CircuitState) (fits : k + 1 < 2 ^ 32) (s : Streak k c) where
  count_up : (counted now c).failures ≡ k + 1
  count_up = omega (arith, fits, s.failures)

  fail-failures : (fail now (counted now c)).0.failures ≡ k + 1
  unfolding fail
  fail-failures = ground (arith, count_up)

  fail-closed : k + 1 < 25 → (fail now (counted now c)).0.opened_until ≡ none
  unfolding fail
  fail-closed h = ground (arith, count_up, h, s.closed (omega (arith, h)))

  fail-opened : 25 ≤ k + 1 → is_none (fail now (counted now c)).0.opened_until ≡ false
  unfolding fail
  fail-opened h = ground (arith, count_up, h, s.opened)

  pub fail-action : (fail now (counted now c)).1 ≡ action_after k
  unfolding fail
  fail-action = ground (arith, count_up, s.opened, s.closed, none_if c.opened_until)

  pub fail-Streak : Streak (k + 1) (fail now (counted now c)).0
  fail-Streak = record { failures = fail-failures; closed = fail-closed; opened = fail-opened }

  pub fail-opens : k ≡ 24 → (fail now (counted now c)).0.opened_until ≡ some (now + cooldown)
  unfolding fail
  fail-opens h = ground (arith, count_up, h, none_if c.opened_until (s.closed (omega (arith, h))))

-- An open circuit keeps its time.
pub fail-keeps :
    (now until : ℕ) (c : CircuitState)
    → c.opened_until ≡ some until
    → (fail now (counted now c)).0.opened_until ≡ some until
unfolding fail
fail-keeps now until c e = ground (arith, e, is_some_none e)
  where
    is_some_none : c.opened_until ≡ some until → is_none c.opened_until ≡ false
    is_some_none e = rw e refl

-- The answer for a circuit that was opened.
pub may_pass_opened :
    (now until : ℕ) (o : Option CircuitState)
    → (or_default now o).opened_until ≡ some until
    → may_pass now o ≡ leb until now
may_pass_opened now until none e = cc
may_pass_opened now until (some c) e = rw e refl
