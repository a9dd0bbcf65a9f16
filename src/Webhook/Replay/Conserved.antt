-- ===== src/Webhook/Replay/Conserved.antt =====
-- No entry of a ring is lost by a request to replay one.
use wa_rs.Common.{
  ℕ, suc, ◌-◌, ◌≤◌, ◌≡◌, refl, sym, ap, ◌∙◌, Bool, true, false, String, Option, none, some, List,
  [], ◌∷◌, ◌++◌, ◌==◌, All, length, drop, arith, Bool-cases, inl, inr,
}
use mathlib.Core.List.{Perm, perm_append_singleton}
use mathlib.Core.List.Perm
use wa_rs.Webhook.Circuit.{webhook_circuit_allows}
use wa_rs.Webhook.Ring.{
  Rings, WebhookDlqEntry, ring_of, put_ring, evict, push_ring, webhook_dlq_push, take_entry,
  webhook_dlq_take,
}
use wa_rs.Webhook.Ring.Bounded.{evict-newest, ring_of-put_ring}
use wa_rs.Webhook.Registry.{WebhookState}
use wa_rs.Webhook.Replay.{Replayed, start_or_refuse, replay_taken, replay_webhook_dlq_entry}

-- What a search in a ring of a session found.
abbrev Taken :
    String → List WebhookDlqEntry → Option (WebhookDlqEntry × List WebhookDlqEntry) → Type 0
Taken session ring none = Unit
Taken session ring (some (e, left)) =
    Perm (e ∷ left) ring × (e.session_id ≡ session) × (suc (length left) ≡ length ring)

deeper :
    (session : String) (e : WebhookDlqEntry) (rest : List WebhookDlqEntry)
    (found : Option (WebhookDlqEntry × List WebhookDlqEntry))
    → Taken session rest found
    → Taken session
        (e ∷ rest)
        (elim found [ none ↦ none | some (hit, left) ↦ some (hit, e ∷ left) ])
deeper session e rest none t = tt
deeper session e rest (some (hit, left)) (perm, of, size) =
    (Perm.trans (Perm.swap e hit left) (Perm.cons e perm), of, omega (arith, size))

take_entry-Taken :
    (session id : String) (ring : List WebhookDlqEntry)
    → All (λ e. e.session_id ≡ session) ring
    → Taken session ring (take_entry id ring)
unfolding take_entry
take_entry-Taken session id [] of = tt
take_entry-Taken session id (e ∷ rest) of = elim (Bool-cases (e.id == id)) [
  | inl hit ↦ rw hit (Perm.refl (e ∷ rest), of.0, refl)
  | inr miss ↦
      rw miss (deeper session e rest (take_entry id rest) (take_entry-Taken session id rest of.1))
]

-- A ring with room is not evicted from.
evict_nothing :
    (room : ℕ) (ring : List WebhookDlqEntry) → length ring ≤ room → evict (suc room) ring ≡ ring
evict_nothing room ring h = evict-newest room ring ∙ ap (λ n. drop n ring) none_more
  where
    none_more : length ring - room ≡ 0
    none_more = omega (arith, h)

-- What a push leaves in the ring of the entry's session.
pushed_ring :
    (room : ℕ) (session : String) (e : WebhookDlqEntry) (left : List WebhookDlqEntry) (m : Rings)
    → e.session_id ≡ session
    → ring_of session m ≡ left
    → length left ≤ room
    → ring_of session (webhook_dlq_push (suc room) e m) ≡ left ++ e ∷ []
unfolding webhook_dlq_push push_ring
pushed_ring room session e left m of here fits =
    ap (λ t. ring_of t (webhook_dlq_push (suc room) e m)) (sym of)
    ∙ ring_of-put_ring e.session_id (evict (suc room) (ring_of e.session_id m) ++ e ∷ []) m
    ∙ ap (λ t. evict (suc room) (ring_of t m) ++ e ∷ []) of
    ∙ ap (λ ring. evict (suc room) ring ++ e ∷ []) here
    ∙ ap (λ ring. ring ++ e ∷ []) (evict_nothing room left fits)

-- The started entries and the ring after a request are a reordering of the ring before it.
abbrev Conserved : String → List WebhookDlqEntry → Replayed → Type 0
Conserved session ring r = Perm (r.started ++ ring_of session r.state.rings) ring

start_or_refuse-Conserved :
    (room : ℕ) (allowed : Bool) (session : String) (e : WebhookDlqEntry)
    (left ring : List WebhookDlqEntry) (s : WebhookState)
    → length ring ≤ suc room
    → Taken session ring (some (e, left))
    → ring_of session s.rings ≡ left
    → Conserved session ring (start_or_refuse (suc room) allowed e s)
unfolding start_or_refuse
start_or_refuse-Conserved room true session e left ring s fits (perm, of, size) here = rw here perm
start_or_refuse-Conserved room false session e left ring s fits (perm, of, size) here =
    rw (pushed_ring room session e left s.rings of here (omega (arith, size, fits)))
      (Perm.trans (perm_append_singleton e left) perm)

-- A request to replay a dead-lettered delivery loses no entry: in a ring that is within its
-- capacity and holds entries of its session, as the pushes leave it, the entries whose delivery it
-- starts and those in the ring afterwards are those of the ring before, each as often, in some
-- order. This holds when the id is unknown, when the circuit refuses the replay, and when it is
-- started.
pub replay_webhook_dlq_entry-Conserved :
    (room now : ℕ) (session entry_id : String) (s : WebhookState)
    → length (ring_of session s.rings) ≤ suc room
    → All (λ e. e.session_id ≡ session) (ring_of session s.rings)
    → let r = replay_webhook_dlq_entry (suc room) now session entry_id s in
      Perm (r.started ++ ring_of session r.state.rings) (ring_of session s.rings)
unfolding replay_webhook_dlq_entry replay_taken webhook_dlq_take
replay_webhook_dlq_entry-Conserved room now session entry_id s fits of =
    answer (take_entry entry_id (ring_of session s.rings))
      (take_entry-Taken session entry_id (ring_of session s.rings) of)
  where
    answer :
        (found : Option (WebhookDlqEntry × List WebhookDlqEntry))
        → Taken session (ring_of session s.rings) found
        → Conserved session (ring_of session s.rings) (
            replay_taken (suc room) now entry_id s (elim found [
              | none ↦ (none, s.rings)
              | some (hit, left) ↦ (some hit, put_ring session left s.rings)
            ]))
    answer none t = Perm.refl _
    answer (some (e, left)) t =
        start_or_refuse-Conserved room (webhook_circuit_allows e.webhook_url now s.circuits) session
          e left (ring_of session s.rings) _ fits t (ring_of-put_ring session left s.rings)
