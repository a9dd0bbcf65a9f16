-- ===== src/Webhook/Ring.antt =====
-- The dead-letter rings of the webhooks: one queue of bounded length for each session.
pub mod Bounded
use wa_rs.Common.{
  ℕ, zero, suc, Bool, true, false, String, Option, none, some, List, [], ◌∷◌, ◌++◌, ◌==◌, leb,
  if◌then◌else◌, length,
}
use mathlib.Core.List.{reverse}

-- `WebhookDlqEntry`.
pub record WebhookDlqEntry : Type 0 where
  pub id : String
  pub session_id : String
  pub webhook_url : String
  pub event : String
  pub payload : String
  pub secret : Option String
  pub last_error : String
  pub attempts : ℕ
  pub failed_at : ℕ

-- The map from sessions to their rings, oldest entry first.
abbrev pub Rings : Type 0
Rings = List (String × List WebhookDlqEntry)

unfoldable pub ring_of : String → Rings → List WebhookDlqEntry
ring_of session [] = []
ring_of session ((s, ring) ∷ rest) = if s == session then ring else ring_of session rest

unfoldable pub put_ring : String → List WebhookDlqEntry → Rings → Rings
put_ring session ring [] = (session, ring) ∷ []
put_ring session ring ((s, old) ∷ rest) =
    if s == session then (s, ring) ∷ rest else (s, old) ∷ put_ring session ring rest

-- `pop_front` while there are `capacity` entries or more. A ring of capacity 0 would never end the
-- loop of the source, whose configuration refuses 0; here it becomes empty.
unfoldable pub evict : ℕ → List WebhookDlqEntry → List WebhookDlqEntry
evict capacity [] = []
evict capacity (e ∷ rest) =
    let fewer = evict capacity rest in if leb capacity (suc (length rest)) then fewer else e ∷ rest

unfoldable pub push_ring : ℕ → WebhookDlqEntry → List WebhookDlqEntry → List WebhookDlqEntry
push_ring capacity entry ring = evict capacity ring ++ entry ∷ []

unfoldable pub webhook_dlq_push : ℕ → WebhookDlqEntry → Rings → Rings
unfolding push_ring
webhook_dlq_push capacity entry m =
    put_ring entry.session_id (push_ring capacity entry (ring_of entry.session_id m)) m

-- Newest first.
unfoldable pub webhook_dlq_list : String → Rings → List WebhookDlqEntry
webhook_dlq_list session m = reverse (ring_of session m)

-- The first entry with the id, and the ring without it.
unfoldable pub take_entry :
    String → List WebhookDlqEntry → Option (WebhookDlqEntry × List WebhookDlqEntry)
take_entry id [] = none
take_entry id (e ∷ rest) =
    let found = take_entry id rest in
    if e.id == id
    then some (e, rest)
    else (elim found [ none ↦ none | some (hit, left) ↦ some (hit, e ∷ left) ])

unfoldable pub webhook_dlq_take : String → String → Rings → Option WebhookDlqEntry × Rings
webhook_dlq_take session id m = elim (take_entry id (ring_of session m)) [
  | none ↦ (none, m)
  | some (hit, left) ↦ (some hit, put_ring session left m)
]
