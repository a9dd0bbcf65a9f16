-- ===== src/Webhook/Delivery/Attempts.antt =====
-- The attempts of one delivery and the pauses between them.
use wa_rs.Common.{ℕ, zero, suc, ◌≤◌, ◌≡◌, ◌≢◌, refl, String, List, [], ◌∷◌, All, length, max, arith}
use wa_rs.Webhook.Delivery.{
  WebhookRetryConfig, Reply, status, failure, Outcome, failed, untried, Verdict, stop, again, after,
  judge, try_from, attempts, webhook_retry_delay,
}

delay_bound : (attempt : ℕ) → webhook_retry_delay attempt ≤ 300
unfolding webhook_retry_delay
delay_bound attempt = ground arith

-- What the loop does in `left` attempts.
pub record Tries (left : ℕ) (x : Outcome × List ℕ) : Type 0 where
  pub few : length x.1 ≤ left
  pub short : All (λ d. d ≤ 300) x.1
  pub tried : x.0 ≢ untried

module _ (c : WebhookRetryConfig) (show : ℕ → String) (reply : ℕ → Reply) where
  judge-stop : (r : Reply) (o : Outcome) → judge c show reply r ≡ stop o → o ≢ untried
  unfolding judge
  judge-stop (status code) o e h = ground (arith, e, h)
  judge-stop (failure e) o h u = cc

  one_more :
      (left attempt : ℕ) (last : Outcome)
      → ((e : String) → Tries left (try_from c show reply left (suc attempt) (failed e)))
      → Tries (suc left) (try_from c show reply (suc left) attempt last)
  unfolding try_from
  one_more left attempt last rest = go (judge c show reply (reply attempt)) refl
    where
      go :
          (v : Verdict)
          → judge c show reply (reply attempt) ≡ v
          → Tries (suc left) (elim v [
            | stop o ↦ (o, webhook_retry_delay attempt ∷ [])
            | again e ↦
                after
                  (webhook_retry_delay attempt)
                  (try_from c show reply left (suc attempt) (failed e))
          ])
      go (stop o) e = record {
        few = omega arith;
        short = (delay_bound attempt, tt);
        tried = judge-stop (reply attempt) o e;
      }
      go (again e) j =
          let r = rest e in
          record {
            few = omega (arith, r.few);
            short = (delay_bound attempt, r.short);
            tried = r.tried;
          }

  after_failure :
      (left attempt : ℕ) (e : String) → Tries left (try_from c show reply left attempt (failed e))
  unfolding try_from
  after_failure zero attempt e = record { few = omega arith; short = tt; tried = λ h. cc }
  after_failure (suc left) attempt e =
      one_more left attempt (failed e) (after_failure left (suc attempt))

  from_start : (n : ℕ) → 1 ≤ n → Tries n (try_from c show reply n 0 untried)
  from_start zero h = absurd (omega (arith, h))
  from_start (suc left) h = one_more left 0 untried (after_failure left 1)

-- Whatever the answers: a delivery makes at most `max_attempts` attempts (one, if that is 0), each
-- after a pause of at most 300 seconds, and ends either delivered or with an error to record; the
-- end without an error, which would drop the event silently, is never reached.
pub attempts-Tries :
    (c : WebhookRetryConfig) (show : ℕ → String) (reply : ℕ → Reply)
    → Tries (max c.max_attempts 1) (attempts c show reply)
unfolding attempts
attempts-Tries c show reply = from_start c show reply (max c.max_attempts 1) (omega arith)
