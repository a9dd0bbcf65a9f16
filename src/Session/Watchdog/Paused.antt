-- ===== src/Session/Watchdog/Paused.antt =====
-- A locked account is left alone by the watchdog.
use wa_rs.Common.{
  ℕ, ◌-◌, ◌<◌, ◌≡◌, refl, Bool, true, false, Option, none, some, List, arith, Bool-cases, inl, inr,
}
use wa_rs.Session.{
  SessionStatus, SessionState, start_cooldown, record_lock_cooldown, lock_cooldown_remaining,
  record_logout_and_should_purge, mark_reconnecting_now, clear_reconnecting,
}
use wa_rs.Session.Cooldown.{lock_cooldown_remaining-until}
use wa_rs.Session.Watchdog.{
  set_status, Event, pairing_qr_code, connects, disconnects, logs_out, settle_logout, on_event,
  Limits, must_rebuild, watch,
}

abbrev pub is_lock : Event → Bool
is_lock pairing_qr_code = false
is_lock connects = false
is_lock disconnects = false
is_lock (logs_out lock) = lock

-- What may happen to a session without an operator's connect request and without another lock.
pub data Step (s : SessionState) : SessionState → Type 0 where
  event :
      (schedule : List ℕ) (e : Event) (now : ℕ)
      → is_lock e ≡ false
      → Step s (on_event schedule e now s).1
  tick : (l : Limits) (now : ℕ) (errors : Option ℕ) → Step s (watch l now errors s).1
  sets : (status : SessionStatus) → Step s (set_status status s)
  clears : Step s (clear_reconnecting s)

pub data Steps (s : SessionState) : SessionState → Type 0 where
  here : Steps s s
  next : {t u : SessionState} → Steps s t → Step t u → Steps s u

watch-until :
    (l : Limits) (now : ℕ) (errors : Option ℕ) (s : SessionState)
    → (watch l now errors s).1.lock_cooldown_until ≡ s.lock_cooldown_until
unfolding watch clear_reconnecting
watch-until l now errors s = elim (Bool-cases (must_rebuild l now errors s)) [
  | inl h ↦ rw h refl
  | inr h ↦ rw h refl
]

on_event-until :
    (schedule : List ℕ) (e : Event) (now : ℕ) (s : SessionState)
    → is_lock e ≡ false
    → (on_event schedule e now s).1.lock_cooldown_until ≡ s.lock_cooldown_until
unfolding on_event settle_logout record_logout_and_should_purge clear_reconnecting
    mark_reconnecting_now
on_event-until schedule pairing_qr_code now s h = refl
on_event-until schedule connects now s h = refl
on_event-until schedule disconnects now s h = refl
on_event-until schedule (logs_out true) now s h = cc
on_event-until schedule (logs_out false) now s h = refl

Step-until : (s t : SessionState) → Step s t → t.lock_cooldown_until ≡ s.lock_cooldown_until
unfolding clear_reconnecting
Step-until s t (event schedule e now h) = on_event-until schedule e now s h
Step-until s t (tick l now errors) = watch-until l now errors s
Step-until s t (sets status) = refl
Step-until s t clears = refl

Steps-until : (s t : SessionState) → Steps s t → t.lock_cooldown_until ≡ s.lock_cooldown_until
Steps-until s u here = refl
Steps-until s u (next {t} r step) = rw (Step-until t u step) (Steps-until s t r)

locked-until :
    (schedule : List ℕ) (secs until now : ℕ) (s : SessionState)
    → (record_lock_cooldown schedule now s).0 ≡ some (secs, until)
    → (record_lock_cooldown schedule now s).1.lock_cooldown_until ≡ some until
unfolding record_lock_cooldown
locked-until schedule secs until now s h = start now _ _ h
  where
    start :
        (now : ℕ) (o : Option ℕ) (s : SessionState)
        → (start_cooldown now o s).0 ≡ some (secs, until)
        → (start_cooldown now o s).1.lock_cooldown_until ≡ some until
    start now none s h = cc
    start now (some d) s h = cc

watch-paused :
    (l : Limits) (now until : ℕ) (errors : Option ℕ) (s : SessionState)
    → s.lock_cooldown_until ≡ some until
    → now < until
    → watch l now errors s ≡ (false, s)
unfolding watch
watch-paused l now until errors s e lt = rw stays refl
  where
    left : lock_cooldown_remaining now s ≡ some (until - now)
    left = rw (lock_cooldown_remaining-until now until s e) (ground arith)

    stays : must_rebuild l now errors s ≡ false
    stays = rw left (ground arith)

-- After a lock of the account whose pause ends at `until`, and after any events but another lock,
-- any ticks of the watchdog, any changes of the status and any ends of a reconnect window, a tick
-- before `until` neither rebuilds the session nor changes its state, whatever the client and the
-- limits are.
pub watch-Steps :
    (schedule : List ℕ) (secs until start now : ℕ) (l : Limits) (errors : Option ℕ)
    (s t : SessionState)
    → (record_lock_cooldown schedule start
        (clear_reconnecting (set_status SessionStatus.disconnected s))).0
      ≡ some (secs, until)
    → Steps (on_event schedule (logs_out true) start s).1 t
    → now < until
    → watch l now errors t ≡ (false, t)
unfolding on_event settle_logout
watch-Steps schedule secs until start now l errors s t h steps lt =
    watch-paused l now until errors t
      (rw (Steps-until _ t steps) (locked-until schedule secs until start _ h)) lt
