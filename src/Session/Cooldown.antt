-- ===== src/Session/Cooldown.antt =====
-- The escalating pauses after account locks.
use wa_rs.Common.{
  ℕ, zero, suc, ◌+◌, ◌-◌, ◌≡◌, refl, Option, none, some, List, [], ◌∷◌, ltb, if◌then◌else◌,
}
use wa_rs.Session.{SessionState, record_lock_cooldown, lock_cooldown_remaining}

-- The step of the schedule `d ∷ ds` after `n` others; the last one repeats.
abbrev pub rung : ℕ → ℕ → List ℕ → ℕ
rung n d [] = d
rung zero d (e ∷ ds) = d
rung (suc n) d (e ∷ ds) = rung n e ds

-- Locks at these times, the newest first.
abbrev pub lock_all : List ℕ → List ℕ → SessionState → SessionState
lock_all schedule [] s = s
lock_all schedule (t ∷ older) s = (record_lock_cooldown schedule t (lock_all schedule older s)).1

-- What the lock at `now` answers and leaves, after `n` others.
abbrev pub Locked : ℕ → ℕ → Option (ℕ × ℕ) × SessionState → Type 0
Locked now secs (answer, s) =
    (answer ≡ some (secs, now + secs)) × (s.lock_cooldown_until ≡ some (now + secs))

pub lock_cooldown_remaining-until :
    (now until : ℕ) (s : SessionState)
    → s.lock_cooldown_until ≡ some until
    → lock_cooldown_remaining now s ≡ (if ltb now until then some (until - now) else none)
unfolding lock_cooldown_remaining
lock_cooldown_remaining-until now until s e = rw e refl
