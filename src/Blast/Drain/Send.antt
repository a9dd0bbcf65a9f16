-- ===== src/Blast/Drain/Send.antt =====
-- One recipient of a batch of handlers/blast.rs, with no other task and no fault.
use wa_rs.Common.{
  ℕ, suc, ◌+◌, ◌-◌, ◌≤◌, ◌≡◌, ◌∙◌, refl, Bool, true, false, String, none, some, List, arith, ◌==◌,
  eq_iff, if◌then◌else◌, ap, Result, ok, err, ltb, leb,
}
use wa_rs.Json.{Value}
use wa_rs.Effect.{DbError, query, ◌>>◌, done, lift}
use wa_rs.Effect.Triple.{Triple}
use wa_rs.Blast.Rows.{JobRow, RecipientRow, Db}
use wa_rs.Blast.Action.{Action}
use wa_rs.Effect.{calm}
use wa_rs.Blast.Statements.{is_recipient}
use wa_rs.Blast.Store.{
  mark_recipient_sending, mark_recipient_sent, mark_recipient_retry, mark_recipient_dlq, get_job,
  incr_sent, incr_failed, incr_dlq,
}
use wa_rs.Blast.Worker.{
  Services, Work, max_attempts_of, settle, note_progress, progress_every, broadcast_progress,
  counters_payload, process_recipient, send, pause, build_recipient_body,
}
use wa_rs.Blast.Drain.Weight.{weigh, Lightens}
use wa_rs.Blast.Drain.Rules.{
  Yields, then-Triple, Running, Changed, KeepsAttempts, updated, update-nothing, update-Triple,
  bump-Triple,
}

pub if-Triple :
    {A : Type 0} {P : Db → Type 0} {R : Result DbError A → Db → Type 0} (b : Bool) (m k : Work A)
    → (b ≡ true → Triple P m R)
    → Triple P k R
    → Triple P (if b then m else k) R
if-Triple true m k hm hk = hm refl
if-Triple false m k hm hk = hk

pending_weighs :
    (id : String) (most : ℕ) (x : RecipientRow)
    → x.status ≡ "pending"
    → x.job_id ≡ id
    → weigh id most x ≡ suc (most - x.attempts)
pending_weighs id most x p j = ground (arith, p, j, eq_iff x.status "pending", eq_iff x.job_id id)

-- A row that is not pending weighs less than one that is.
pub settled_weighs :
    (id : String) (most : ℕ) (x y : RecipientRow)
    → (y.status == "pending") ≡ false
    → x.status ≡ "pending"
    → x.job_id ≡ id
    → suc (weigh id most y) ≤ weigh id most x
settled_weighs id most x y other p j = ground (arith, other, pending_weighs id most x p j)

weigh_most : (id : String) (most : ℕ) (y : RecipientRow) → weigh id most y ≤ suc (most - y.attempts)
weigh_most id most y = ground arith

-- A row that is pending again after one more attempt weighs less, if attempts are left.
retried_weighs :
    (id : String) (most : ℕ) (x y : RecipientRow)
    → ltb (x.attempts + 1) most ≡ true
    → y.attempts ≡ x.attempts + 1
    → x.status ≡ "pending"
    → x.job_id ≡ id
    → suc (weigh id most y) ≤ weigh id most x
retried_weighs id most x y left more p j =
    ground (arith, left, more, pending_weighs id most x p j, weigh_most id most y)

abbrev pub as_sent : RecipientRow → RecipientRow
as_sent x = record x { status = "sent" }

abbrev as_dlq : RecipientRow → RecipientRow
as_dlq x = record x { status = "dlq"; attempts = x.attempts + 1 }

abbrev as_retry : RecipientRow → RecipientRow
as_retry x = record x { status = "pending"; attempts = x.attempts + 1 }

module _ (s : Services) (clock : ℕ → ℕ) (job : JobRow) (r : RecipientRow)
    (rs : List RecipientRow) where
  abbrev Marked : Db → Type 0
  Marked = Changed KeepsAttempts job r rs

  abbrev pub Settled : Db → Type 0
  Settled = Changed (Lightens job.id (max_attempts_of s job) r) job r rs

  note-Triple :
      {P : Db → Type 0} (sends : ℕ)
      → Triple P (note_progress s (calm clock) job sends) (Yields (λ _. P))
  unfolding note_progress broadcast_progress counters_payload get_job query
  note-Triple sends =
      if-Triple (leb progress_every sends) _ _ (λ _. record { at = λ w p. p })
        (record { at = λ w p. p })

  sent-Triple :
      (m : String)
      → Triple Marked
          (mark_recipient_sent (calm clock) job.id r.recipient m)
          (Yields (λ _. Settled))
  unfolding mark_recipient_sent
  sent-Triple m =
      update-Triple clock job r rs as_sent (some m) none (λ x. (refl, refl))
        (λ h now k a x p q j.
          settled_weighs job.id (max_attempts_of s job) x (updated as_sent (some m) none now (h x))
            refl p j)

  dlq-Triple :
      (e : String)
      → Triple Marked (mark_recipient_dlq (calm clock) job.id r.recipient e) (Yields (λ _. Settled))
  unfolding mark_recipient_dlq
  dlq-Triple e =
      update-Triple clock job r rs as_dlq none (some e) (λ x. (refl, refl))
        (λ h now k a x p q j.
          settled_weighs job.id (max_attempts_of s job) x (updated as_dlq none (some e) now (h x))
            refl p j)

  retry-Triple :
      (e : String)
      → ltb (r.attempts + 1) (max_attempts_of s job) ≡ true
      → Triple Marked
          (mark_recipient_retry (calm clock) job.id r.recipient e)
          (Yields (λ _. Settled))
  unfolding mark_recipient_retry
  retry-Triple e left =
      update-Triple clock job r rs as_retry none (some e) (λ x. (refl, refl))
        (λ h now k same x p a j.
          retried_weighs job.id (max_attempts_of s job) x (updated as_retry none (some e) now (h x))
            (rw a left) (ap (λ n. n + 1) (same x)) p j)

  settle-Triple :
      (sends : ℕ) (reply : Result String String)
      → Triple Marked (settle s (calm clock) job r sends reply) (Yields (λ _. Settled))
  unfolding settle incr_sent incr_failed incr_dlq
  settle-Triple sends (ok m) =
      then-Triple (λ _. Settled) _ _ (sent-Triple m)
        λ _.
          then-Triple (λ _. Settled) _ _ (bump-Triple clock job r rs _ (λ j. (refl, refl)))
            λ _. note-Triple (sends + 1)
  settle-Triple sends (err e) =
      then-Triple (λ _. Marked) _ _ (bump-Triple clock job r rs _ (λ j. (refl, refl)))
        λ _.
          if-Triple (ltb (r.attempts + 1) (max_attempts_of s job)) _ _
            (λ left.
              then-Triple (λ _. Settled) _ (λ _. done sends) (retry-Triple e left)
                λ _. record { at = λ w c. c })
            (then-Triple (λ _. Settled) _ _ (dlq-Triple e)
              λ _.
                then-Triple (λ _. Settled) _ (λ _. done sends)
                  (bump-Triple clock job r rs _ (λ j. (refl, refl))) λ _. record { at = λ w c. c })

  start-Triple :
      Triple
        (λ d. (d.recipients ≡ rs) × Running job.id d.jobs)
        (mark_recipient_sending (calm clock) job.id r.recipient)
        (Yields (λ _. Marked))
  unfolding mark_recipient_sending
  start-Triple =
      let marking =
        update-Triple clock job r rs {P = KeepsAttempts} {Q = KeepsAttempts}
          (λ x. record x { status = "sending" }) none none (λ x. (refl, refl)) (λ h now k a. a) in
      record {
        at = λ w (same, running). marking.at w (record {
          h = λ x. x;
          rows = same ∙ update-nothing (is_recipient job.id r.recipient) rs;
          keeps = λ x. (refl, refl);
          good = λ x. refl;
          running = running;
        });
      }

  body-Triple :
      (v : Value)
      → s.parse job.body ≡ some v
      → Triple {Act = Action} Marked
          (lift (build_recipient_body s job.body r.recipient))
          (Yields (λ _. Marked))
  unfolding build_recipient_body
  body-Triple v e = record { at = λ w c. rw (e, Yields) c }

  -- One recipient is settled, whatever the gateway answers.
  pub recipient-Triple :
      (v : Value) (sends : ℕ)
      → s.parse job.body ≡ some v
      → Triple
          (λ d. (d.recipients ≡ rs) × Running job.id d.jobs)
          (process_recipient s (calm clock) job r sends)
          (Yields (λ _. Settled))
  unfolding process_recipient pause send
  recipient-Triple v sends e =
      then-Triple (λ _. Marked) _ _ start-Triple
        λ _.
          then-Triple (λ _. Marked) _ _ (body-Triple v e)
            λ body.
              then-Triple (λ _. Marked) (send s (calm clock) job body) _ (record { at = λ w c. c })
                λ reply.
                  then-Triple (λ _. Settled) _ (λ n. pause s (calm clock) job >> done n)
                    (settle-Triple sends reply) λ n. record { at = λ w c. c }
