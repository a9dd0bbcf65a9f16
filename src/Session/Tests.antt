-- ===== src/Session/Tests.antt =====
-- The session state at concrete times.
use wa_rs.Common.{ℕ, ◌≡◌, refl, true, false, some, List, [], ◌∷◌, count, leb, arith, Option, Bool}
use wa_rs.Session.{
  SessionState, new_state, recent, record_logout_and_should_purge, record_lock_cooldown,
  clear_lock_cooldown, lock_cooldown_remaining, clear_reconnecting, mark_reconnecting_now,
  reconnecting_for_secs,
}
use wa_rs.Session.Logouts.{log_out_all, record_logout_and_should_purge-recent}
use wa_rs.Session.Cooldown.{lock_all}
use wa_rs.Session.Watchdog.{Limits, disconnects, logs_out, settle_logout, on_event, is_stuck, watch}
use wa_rs.Session.Watchdog.Paused.{here, next, event, watch-Steps}

record_logout_and_should_purge-recent_example :
    (record_logout_and_should_purge 1000 (log_out_all (900 ∷ 500 ∷ 300 ∷ []) new_state)).0
    ≡ leb 2 (count (recent 1000) (900 ∷ 500 ∷ 300 ∷ []))
record_logout_and_should_purge-recent_example =
    record_logout_and_should_purge-recent 1000 (900 ∷ 500 ∷ 300 ∷ []) new_state refl refl

run_logouts : List ℕ → Bool
unfolding record_logout_and_should_purge
run_logouts times = (record_logout_and_should_purge 1000 (log_out_all times new_state)).0

two_of_three : run_logouts (900 ∷ 400 ∷ 300 ∷ []) ≡ false
unfolding run_logouts
two_of_three = refl

abbrev schedule : List ℕ
schedule = 300 ∷ 900 ∷ 3600 ∷ []

abbrev third_lock : Option (ℕ × ℕ) × SessionState
third_lock =
    record_lock_cooldown schedule 100
      (lock_all schedule (50 ∷ 20 ∷ []) (clear_lock_cooldown new_state))

abbrev limits : Limits
limits = record { max_attempts = 10; max_stuck_secs = 600 }

abbrev dropped : SessionState
dropped = (on_event schedule disconnects 110 (on_event schedule (logs_out true) 100 new_state).1).1

watch-Steps_example : watch limits 399 (some 50) dropped ≡ (false, dropped)
unfolding record_lock_cooldown clear_reconnecting
watch-Steps_example =
    watch-Steps schedule 300 400 100 399 limits (some 50) new_state dropped refl
      (next here (event schedule disconnects 110 refl)) (omega arith)

run_watch : ℕ → Bool
unfolding watch on_event settle_logout record_lock_cooldown clear_reconnecting
    lock_cooldown_remaining
run_watch now = (watch limits now (some 50) dropped).0

still_paused : run_watch 399 ≡ false
unfolding run_watch mark_reconnecting_now is_stuck reconnecting_for_secs
still_paused = refl

rebuilt_after : run_watch 400 ≡ true
unfolding run_watch mark_reconnecting_now is_stuck reconnecting_for_secs
rebuilt_after = refl
