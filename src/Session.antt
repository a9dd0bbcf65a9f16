-- ===== src/Session.antt =====
-- The in-memory state of one live session, and its methods: state.rs, models/sessions.rs.
pub mod Logouts
pub mod Cooldown
pub mod Watchdog
mod Tests
use wa_rs.Common.{
  ℕ, zero, suc, ◌+◌, ◌-◌, ◌^◌, min, Bool, true, false, String, Option, none, some, List, [], ◌∷◌,
  ◌++◌, ◌==◌, keep, length, leb, ltb, get_elem?, if◌then◌else◌,
}

pub data SessionStatus : Type 0 where
  disconnected connecting waiting_for_qr waiting_for_pair_code connected logged_in : SessionStatus

-- `SessionStatus::as_str`.
unfoldable pub session_status_str : SessionStatus → String
session_status_str disconnected = "disconnected"
session_status_str connecting = "connecting"
session_status_str waiting_for_qr = "waiting_for_qr"
session_status_str waiting_for_pair_code = "waiting_for_pair_code"
session_status_str connected = "connected"
session_status_str logged_in = "logged_in"

-- `SessionStatus::from_str`.
unfoldable pub session_status_of : String → SessionStatus
session_status_of s =
    if s == "connecting"
    then connecting
    else if s == "waiting_for_qr"
    then waiting_for_qr
    else if s == "waiting_for_pair_code"
    then waiting_for_pair_code
    else if s == "connected"
    then connected
    else if s == "logged_in"
    then logged_in
    else disconnected

-- The fields that the methods below read or write. Times are seconds since the epoch.
pub record SessionState : Type 0 where
  pub status : SessionStatus
  pub logout_history : List ℕ
  pub reconnecting_since : Option ℕ
  pub lock_cooldown_until : Option ℕ
  pub lock_strikes : ℕ

-- `SessionState::new`, as far as these fields go.
abbrev pub new_state : SessionState
new_state = record {
  status = disconnected;
  logout_history = [];
  reconnecting_since = none;
  lock_cooldown_until = none;
  lock_strikes = 0;
}

abbrev pub u32_max : ℕ
u32_max = 2 ^ 32 - 1

-- `schedule[idx]`, which panics without an entry: then the strike is counted and nothing else.
abbrev pub start_cooldown : ℕ → Option ℕ → SessionState → Option (ℕ × ℕ) × SessionState
start_cooldown now none s = (none, s)
start_cooldown now (some secs) s =
    (some (secs, now + secs), record s { lock_cooldown_until = some (now + secs) })

unfoldable pub record_lock_cooldown : List ℕ → ℕ → SessionState → Option (ℕ × ℕ) × SessionState
record_lock_cooldown schedule now s =
    let strikes = min (s.lock_strikes + 1) u32_max in
    start_cooldown now (get_elem? schedule (min (strikes - 1) (length schedule - 1)))
      (record s { lock_strikes = strikes })

unfoldable pub clear_lock_cooldown : SessionState → SessionState
clear_lock_cooldown s = record s { lock_cooldown_until = none; lock_strikes = 0 }

abbrev pub remaining_of : ℕ → Option ℕ → Option ℕ
remaining_of now none = none
remaining_of now (some until) = if ltb now until then some (until - now) else none

unfoldable pub lock_cooldown_remaining : ℕ → SessionState → Option ℕ
lock_cooldown_remaining now s = remaining_of now s.lock_cooldown_until

abbrev pub window_secs : ℕ
window_secs = 600

abbrev pub threshold : ℕ
threshold = 3

-- A logout at `t` is less than the window old.
abbrev pub recent : ℕ → ℕ → Bool
recent now t = ltb (now - t) window_secs

unfoldable pub record_logout_and_should_purge : ℕ → SessionState → Bool × SessionState
record_logout_and_should_purge now s =
    let hist = keep (recent now) s.logout_history ++ now ∷ [] in
    (leb threshold (length hist), record s { logout_history = hist })

abbrev pub since_or : ℕ → Option ℕ → Option ℕ
since_or now none = some now
since_or now (some since) = some since

unfoldable pub mark_reconnecting_now : ℕ → SessionState → SessionState
mark_reconnecting_now now s = record s { reconnecting_since = since_or now s.reconnecting_since }

unfoldable pub clear_reconnecting : SessionState → SessionState
clear_reconnecting s = record s { reconnecting_since = none }

unfoldable pub reconnecting_for_secs : ℕ → SessionState → Option ℕ
reconnecting_for_secs now s = elim s.reconnecting_since [
  | none ↦ none
  | some since ↦ some (now - since)
]

-- `alive` is the answer of the client's socket.
unfoldable pub effective_status : Bool → SessionState → SessionStatus
effective_status true s = s.status
effective_status false s = elim s.status [
  | disconnected ↦ disconnected
  | connecting ↦ connecting
  | waiting_for_qr ↦ waiting_for_qr
  | waiting_for_pair_code ↦ waiting_for_pair_code
  | connected ↦ connected
  | logged_in ↦ connecting
]
