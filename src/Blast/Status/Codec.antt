-- ===== src/Blast/Status/Codec.antt =====
-- The text of a status and back.
use wa_rs.Common.{◌≡◌, refl, sym, ap, ◌∙◌, true, String, ◌==◌, eq_iff}
use wa_rs.Blast.Status.{
  JobStatus, RecipientStatus, job_status_str, job_status_of, recipient_status_str,
  recipient_status_of,
}

-- Reading back the stored text of a job's status gives the status.
pub job_status_of-str : (s : JobStatus) → job_status_of (job_status_str s) ≡ s
unfolding job_status_of
job_status_of-str JobStatus.pending = refl
job_status_of-str JobStatus.running = refl
job_status_of-str JobStatus.completed = refl
job_status_of-str JobStatus.completed_with_failures = refl
job_status_of-str JobStatus.cancelled = refl
job_status_of-str JobStatus.failed = refl

pub recipient_status_of-str :
    (s : RecipientStatus) → recipient_status_of (recipient_status_str s) ≡ s
unfolding recipient_status_of
recipient_status_of-str RecipientStatus.pending = refl
recipient_status_of-str RecipientStatus.sending = refl
recipient_status_of-str RecipientStatus.sent = refl
recipient_status_of-str RecipientStatus.failed = refl
recipient_status_of-str RecipientStatus.dlq = refl
recipient_status_of-str RecipientStatus.skipped_dup = refl

-- A status column that equals the text of `t` stands for `t`.
pub job_status-eq :
    (text : String) (s t : JobStatus)
    → text ≡ job_status_str s
    → (text == job_status_str t) ≡ true
    → s ≡ t
job_status-eq text s t named hit =
    sym (job_status_of-str s)
    ∙ ap job_status_of (sym named ∙ (eq_iff text (job_status_str t)).0 hit)
    ∙ job_status_of-str t
