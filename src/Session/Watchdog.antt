-- ===== src/Session/Watchdog.antt =====
-- What the event loop and the reconnect watchdog of handlers/sessions.rs do to the state of a
-- session. The table, the client, the metrics and the messages to the outside are left out.
pub mod Paused
use wa_rs.Common.{ℕ, Bool, true, false, not, ◌&&◌, Option, none, some, List, ltb, if◌then◌else◌}
use wa_rs.Session.{
  SessionStatus, disconnected, connecting, waiting_for_qr, waiting_for_pair_code, connected,
  logged_in, SessionState, record_lock_cooldown, lock_cooldown_remaining,
  record_logout_and_should_purge, mark_reconnecting_now, clear_reconnecting, reconnecting_for_secs,
}

-- `set_status`.
abbrev pub set_status : SessionStatus → SessionState → SessionState
set_status status s = record s { status = status }

-- The events of the client library that change these fields. A logout carries whether its reason
-- is a lock of the account.
pub data Event : Type 0 where
  pairing_qr_code connects disconnects : Event
  logs_out : Bool → Event

-- The end of the logout arm; the answer says whether the session is purged.
unfoldable pub settle_logout : List ℕ → Bool → ℕ → SessionState → Bool × SessionState
settle_logout schedule true now s = (false, (record_lock_cooldown schedule now s).1)
settle_logout schedule false now s = record_logout_and_should_purge now s

unfoldable pub on_event : List ℕ → Event → ℕ → SessionState → Bool × SessionState
on_event schedule pairing_qr_code now s = (false, set_status waiting_for_qr s)
on_event schedule connects now s = (false, clear_reconnecting (set_status logged_in s))
on_event schedule disconnects now s = (false, mark_reconnecting_now now (set_status connecting s))
on_event schedule (logs_out is_lock) now s =
    settle_logout schedule is_lock now (clear_reconnecting (set_status disconnected s))

-- The environment's limits.
pub record Limits : Type 0 where
  pub max_attempts : ℕ
  pub max_stuck_secs : ℕ

abbrev pub is_connecting_status : SessionStatus → Bool
is_connecting_status disconnected = false
is_connecting_status connecting = true
is_connecting_status waiting_for_qr = false
is_connecting_status waiting_for_pair_code = false
is_connecting_status connected = false
is_connecting_status logged_in = false

abbrev pub secs_or_zero : Option ℕ → ℕ
secs_or_zero none = 0
secs_or_zero (some n) = n

-- With the client's `reconnect_errors`, if there is a client.
unfoldable pub is_stuck : Limits → ℕ → Option ℕ → SessionState → Bool
is_stuck l now none s = false
is_stuck l now (some reconnect_errors) s = not (
    ltb reconnect_errors l.max_attempts
    && ltb (secs_or_zero (reconnecting_for_secs now s)) l.max_stuck_secs)

abbrev pub is_paused : Option ℕ → Bool
is_paused none = false
is_paused (some _) = true

abbrev pub must_rebuild : Limits → ℕ → Option ℕ → SessionState → Bool
must_rebuild l now errors s =
    is_connecting_status s.status
    && not (is_paused (lock_cooldown_remaining now s))
    && is_stuck l now errors s

-- One session in a tick of the watchdog: whether it is rebuilt, and its state up to the spawn of
-- the new client.
unfoldable pub watch : Limits → ℕ → Option ℕ → SessionState → Bool × SessionState
watch l now errors s =
    if must_rebuild l now errors s
    then (true, set_status connecting (clear_reconnecting (set_status disconnected s)))
    else (false, s)
