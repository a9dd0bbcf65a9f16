-- ===== src/Webhook/Registry.antt =====
-- The registered webhooks of the sessions, which of them an event goes to, and what a delivery
-- leaves behind: state.rs. The map of maps is one list, keyed by session and webhook id.
pub mod History
pub mod Breaker
pub mod Opened
pub mod Purged
use wa_rs.Common.{
  ℕ, ◌+◌, Bool, true, false, not, ◌&&◌, String, Option, none, some, List, [], ◌∷◌, ◌++◌, ◌==◌, any,
  keep, map, max, Result, ok, err, if◌then◌else◌, concat,
}
use wa_rs.Table.{first_where, update_where}
use wa_rs.ApiError.{ApiError, internal, webhook_not_found}
use wa_rs.Webhook.Event.{WebhookEvent, matches}
use wa_rs.Webhook.Circuit.{
  Circuits, WebhookFailureAction, webhook_circuit_allows, webhook_record_success,
  webhook_record_failure,
}
use wa_rs.Webhook.Ring.{Rings, WebhookDlqEntry, webhook_dlq_push}
use wa_rs.Webhook.Delivery.{WebhookRetryConfig, Outcome, delivered, failed, untried}

pub record WebhookConfig : Type 0 where
  pub url : String
  pub events : List WebhookEvent
  pub secret : Option String
  pub enabled : Bool

pub record Registration : Type 0 where
  pub session_id : String
  pub webhook_id : String
  pub config : WebhookConfig

abbrev pub Registry : Type 0
Registry = List Registration

-- A row of the table `webhooks`, as far as deliveries and re-enabling change it.
pub record WebhookRow : Type 0 where
  pub id : String
  pub url : String
  pub enabled : Bool
  pub disabled_at : Option ℕ
  pub disabled_reason : Option String

-- The maps of the application state, and the table.
pub record WebhookState : Type 0 where
  pub registry : Registry
  pub circuits : Circuits
  pub rings : Rings
  pub rows : List WebhookRow

abbrev pub same_key : String → String → Registration → Bool
same_key session_id webhook_id r = (r.session_id == session_id) && (r.webhook_id == webhook_id)

unfoldable pub register_webhook : String → String → WebhookConfig → Registry → Registry
register_webhook session_id webhook_id config m =
    keep (λ r. not (same_key session_id webhook_id r)) m
    ++ record { session_id = session_id; webhook_id = webhook_id; config = config } ∷ []

unfoldable pub get_webhooks : String → Registry → List (String × WebhookConfig)
get_webhooks session_id m =
    map (λ r. (r.webhook_id, r.config)) (keep (λ r. r.session_id == session_id) m)

abbrev config_of : Option Registration → Option WebhookConfig
config_of none = none
config_of (some r) = some r.config

unfoldable pub remove_webhook : String → String → Registry → Option WebhookConfig × Registry
remove_webhook session_id webhook_id m = (
  config_of (first_where (same_key session_id webhook_id) m),
  keep (λ r. not (same_key session_id webhook_id r)) m,
)

-- Every registration of the URL, and its circuit.
unfoldable pub purge_webhook_by_url : String → WebhookState → WebhookState
purge_webhook_by_url url s = record s {
  registry = keep (λ r. not (r.config.url == url)) s.registry;
  circuits = keep (λ (u, _). not (u == url)) s.circuits;
}

unfoldable pub purge_webhooks_for_session : String → WebhookState → WebhookState
purge_webhooks_for_session session_id s = record s {
  registry = keep (λ r. not (r.session_id == session_id)) s.registry;
  rings = keep (λ (t, _). not (t == session_id)) s.rings;
}

-- The filter of `broadcast_to_webhooks`, at the time `now`.
unfoldable pub wants : String → ℕ → Circuits → WebhookConfig → Bool
wants event now circuits config =
    config.enabled
    && any (λ e. matches e event) config.events
    && webhook_circuit_allows config.url now circuits

-- The webhooks that `broadcast_to_webhooks` starts a delivery to.
unfoldable pub targets : String → String → ℕ → WebhookState → List WebhookConfig
targets session_id event now s =
    keep (wants event now s.circuits)
      (map (λ (_, config). config) (get_webhooks session_id s.registry))

-- One run of a delivery: what to deliver, and its fresh dead-letter id.
pub record Delivery : Type 0 where
  pub id : String
  pub session_id : String
  pub event : String
  pub url : String
  pub secret : Option String
  pub payload : String

-- The UPDATE of the rows of the URL that are enabled.
unfoldable pub disable_webhook_by_url : String → String → ℕ → List WebhookRow → List WebhookRow
disable_webhook_by_url url reason now rows =
    update_where (λ r. (r.url == url) && r.enabled)
      (λ r. record r { enabled = false; disabled_at = some now; disabled_reason = some reason })
      rows

-- The UPDATE of the row of an id, and whether there is one.
unfoldable pub enable_webhook : String → List WebhookRow → Bool × List WebhookRow
enable_webhook id rows = (
  any (λ r. r.id == id) rows,
  update_where (λ r. r.id == id)
      (λ r. record r { enabled = true; disabled_at = none; disabled_reason = none }) rows,
)

abbrev disable_reason : String → String
disable_reason last_error = concat ("100 consecutive failures (" ∷ last_error ∷ ")" ∷ [])

-- `fails` says whether the UPDATE of the table fails, which is only logged.
unfoldable pub disable_rows : Bool → String → String → ℕ → List WebhookRow → List WebhookRow
disable_rows true url last_error now rows = rows
disable_rows false url last_error now rows =
    disable_webhook_by_url url (disable_reason last_error) now rows

unfoldable pub react :
    Bool → String → String → ℕ → WebhookFailureAction → WebhookState → WebhookState
react fails url last_error now WebhookFailureAction.hard_disable s =
    purge_webhook_by_url url (record s { rows = disable_rows fails url last_error now s.rows })
react fails url last_error now WebhookFailureAction.opens s = s
react fails url last_error now WebhookFailureAction.noop s = s

unfoldable pub entry_of : Delivery → String → ℕ → ℕ → WebhookDlqEntry
entry_of d last_error attempts now = record {
  id = d.id;
  session_id = d.session_id;
  webhook_url = d.url;
  event = d.event;
  payload = d.payload;
  secret = d.secret;
  last_error = last_error;
  attempts = attempts;
  failed_at = now;
}

-- The `deliver_webhook` steps on the state, but the row of the table `webhook_dlq`, once the outcome of its attempts is known, at the time `now`.
unfoldable pub conclude :
    WebhookRetryConfig → Bool → Delivery → ℕ → Outcome → WebhookState → WebhookState
conclude c fails d now delivered s = record s {
  circuits = webhook_record_success d.url now s.circuits;
}
conclude c fails d now untried s = s
conclude c fails d now (failed last_error) s =
    let (action, circuits) = webhook_record_failure d.url now s.circuits in
    let t = react fails d.url last_error now action (record s { circuits = circuits }) in
    record t {
      rings =
          webhook_dlq_push c.dlq_capacity (entry_of d last_error (max c.max_attempts 1) now)
            t.rings;
    }

unfoldable pub after_enable : String → Bool → Result ApiError String
after_enable webhook_id true = ok "Webhook re-enabled"
after_enable webhook_id false = err (webhook_not_found webhook_id)

-- The handler: the table alone is changed. `fault` is the error of the query, if it fails.
unfoldable pub reenable_webhook :
    Option String → String → WebhookState → Result ApiError String × WebhookState
reenable_webhook (some e) webhook_id s = (err (internal e), s)
reenable_webhook none webhook_id s = (
  after_enable webhook_id (enable_webhook webhook_id s.rows).0,
  record s { rows = (enable_webhook webhook_id s.rows).1 },
)
