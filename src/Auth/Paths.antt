-- ===== src/Auth/Paths.antt =====
-- What the middleware of middleware/jwt.rs reads off a request path, and `is_console_path` of
-- console/mod.rs.
use wa_rs.Common.{
  Bool, not, ◌&&◌, ◌||◌, String, Option, none, some, List, [], ◌∷◌, ◌==◌, any, if◌then◌else◌,
}
use wa_rs.Auth.Segments.{strip_prefix, starts_with, first_segment}

abbrev pub is_one_of : List String → String → Bool
is_one_of names s = any (λ n. s == n) names

-- The paths that pass without credentials.
unfoldable pub is_open_path : String → Bool
is_open_path = is_one_of ("/health" ∷ "/livez" ∷ "/readyz" ∷ "/metrics" ∷ [])

unfoldable pub is_console_path : String → Bool
is_console_path path =
    is_one_of
      ("/" ∷ "/login" ∷ "/logout" ∷ "/data" ∷ "/assets/console.css" ∷ "/assets/playground.js"
        ∷ "/assets/logo.png" ∷ [])
      path
    || starts_with path "/drawer/"
    || starts_with path "/qr-svg/"
    || starts_with path "/s/"
    || (starts_with path "/sessions" && not (starts_with path "/api/"))

-- The operations on the whole fleet that stand where a session id would.
abbrev pub fleet_operations : List String
fleet_operations = "purge" ∷ "disconnect-all" ∷ "reconnect-all" ∷ "search" ∷ []

-- A first segment as a session id.
unfoldable pub as_session : String → Option String
as_session id = if (id == "") || is_one_of fleet_operations id then none else some id

abbrev session_of_rest : Option String → Option String
session_of_rest none = none
session_of_rest (some rest) = as_session (first_segment rest)

unfoldable pub session_id_from_path : String → Option String
session_id_from_path path = session_of_rest (strip_prefix "/api/v1/sessions/" path)
