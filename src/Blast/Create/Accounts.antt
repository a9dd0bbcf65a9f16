-- ===== src/Blast/Create/Accounts.antt =====
-- The counts that `create_blast` answers with.
use wa_rs.Common.{
  ◌+◌, ◌≡◌, refl, Bool, true, false, not, ◌&&◌, String, Result, ok, err, map_err, arith,
  if◌then◌else◌, length,
}
use wa_rs.ApiError.{ApiError, internal}
use wa_rs.Effect.{Env, World, Task, ◌>>=◌, ◌>>◌, done, lift, mapping}
use wa_rs.Effect.Triple.{Triple, >>=-Triple}
use wa_rs.Blast.Status.{BlastOptions, JobStatus, job_status_str}
use wa_rs.Blast.Rows.{Db}
use wa_rs.Blast.Action.{Action}
use wa_rs.Blast.Store.{already_sent, insert_job, insert_recipients}
use wa_rs.Blast.Create.{
  Services, Intake, CreateBlastRequest, CreateBlastResponse, create_blast, dedup, admit, drop_sent,
  is_empty_list, options_of, rows_of, internal_db,
}
use wa_rs.Blast.Create.Admission.{drop_sent_total, admit_accounts}

-- A statement about the results that are no error.
abbrev pub OnOk : {E A : Type 0} → (A → Type 0) → Result E A → Db → Type 0
OnOk P (ok a) d = P a
OnOk P (err e) d = Unit

abbrev Any : Db → Type 0
Any d = Unit

module _ {E A : Type 0} where
  unit-OnOk : (r : Result E A) (d : Db) → OnOk (λ _. Unit {0}) r d
  unit-OnOk (ok a) d = tt
  unit-OnOk (err e) d = tt

  -- A fact that does not depend on the store is carried past any task.
  carry : {F : Type 0} (m : Task Db Action E A) → Triple (λ _. F) m (OnOk (λ _. F))
  carry {F} m = record { at = λ w f. go f (m w).0 (m w).1.store }
    where
      go : F → (r : Result E A) (d : Db) → OnOk (λ _. F) r d
      go f (ok a) d = f
      go f (err e) d = tt

  -- A result at hand, with what its success tells.
  lifting :
      {P : A → Type 0} {F : Type 0} (r : Result E A)
      → ((a : A) → F → r ≡ ok a → P a)
      → Triple {S = Db} {Act = Action} (λ _. F) (lift r) (OnOk P)
  lifting {P} {F} r h = record { at = λ w f. go f w.store r refl }
    where
      go : F → (d : Db) (q : Result E A) → r ≡ q → OnOk P q d
      go f d (ok a) e = h a f e
      go f d (err x) e = tt

module _ (s : Services) (env : Env Db) (id session : String) (r : CreateBlastRequest) where
  abbrev Counted : Intake → Type 0
  Counted i = length i.accepted + i.skipped_dup ≡ length r.recipients

  -- What the answer says.
  abbrev pub Answers : CreateBlastResponse → Type 0
  Answers a =
      (a.total + a.skipped_dup ≡ length r.recipients)
      × (a.job_id ≡ id)
      × (a.status ≡ job_status_str JobStatus.pending)

  dedup-Triple :
      (o : BlastOptions) (i : Intake)
      → Triple (λ _. Counted i) (dedup s env session o i) (OnOk Counted)
  unfolding dedup
  dedup-Triple o i = go (o.dedup_across_jobs && not (is_empty_list i.accepted))
    where
      go :
          (b : Bool)
          → Triple
              (λ _. Counted i)
              (if b
                then (mapping internal_db (already_sent env session i.accepted) >>= λ sent.
                    done (drop_sent i sent))
                else done i)
              (OnOk Counted)
      go true =
          >>=-Triple (OnOk (λ _. Counted i))
            (mapping internal_db (already_sent env session i.accepted))
            (λ sent. done (drop_sent i sent)) (carry _)
            (λ sent. record { at = λ w c. omega (arith, drop_sent_total i sent, c) }) (λ e d u. tt)
      go false = record { at = λ w c. c }

  abbrev answer : Intake → CreateBlastResponse
  answer i = record {
    job_id = id;
    total = length i.accepted;
    skipped_dup = i.skipped_dup;
    status = job_status_str JobStatus.pending;
  }

  abbrev store_job : Intake → String → Task Db Action ApiError (Unit {0})
  store_job i options = mapping internal_db (
      insert_job env id session r.endpoint (s.to_text r.body) options (length i.accepted)
        i.skipped_dup r.send_at)

  abbrev store_rows : Intake → Task Db Action ApiError (Unit {0})
  store_rows i = mapping internal_db (insert_recipients env id session (rows_of i))

  answer-Triple :
      (i : Intake) (options : String)
      → Triple
          (λ _. Counted i)
          (store_job i options >> (store_rows i >> done (answer i)))
          (OnOk Answers)
  answer-Triple i options =
      >>=-Triple (OnOk (λ _. Counted i)) (store_job i options)
        (λ _. store_rows i >> done (answer i)) (carry _)
        (λ _.
          >>=-Triple (OnOk (λ _. Counted i)) (store_rows i) (λ _. done (answer i)) (carry _)
            (λ _. record { at = λ w c. (c, refl, refl) }) (λ e d u. tt))
        (λ e d u. tt)

  create-Triple : Triple (λ _. Unit {0}) (create_blast s env id session r) (OnOk Answers)
  unfolding create_blast
  create-Triple =
      >>=-Triple (OnOk Counted) _ _
        (lifting (admit s session r) (λ i u e. (admit_accounts s session r i e).1))
        (λ i₀.
          >>=-Triple (OnOk Counted) _ _ (dedup-Triple (options_of r) i₀)
            (λ i.
              >>=-Triple (OnOk (λ _. Counted i)) _ _
                (lifting (map_err internal (s.options_text (options_of r))) (λ o c e. c))
                (answer-Triple i) (λ e d u. tt))
            (λ e d u. tt))
        (λ e d u. tt)

-- A blast that is created accounts for every recipient of the request: the accepted and the skipped
-- of the answer add up to them; and the answer has the fresh id, with the status pending. So it is
-- with dedup across jobs and without, and whatever other tasks do meanwhile.
pub create_blast_accounts :
    (s : Services) (env : Env Db) (id session : String) (r : CreateBlastRequest)
    (w : World Db Action) (a : CreateBlastResponse)
    → (create_blast s env id session r w).0 ≡ ok a
    → (a.total + a.skipped_dup ≡ length r.recipients)
      × (a.job_id ≡ id)
      × (a.status ≡ job_status_str JobStatus.pending)
create_blast_accounts s env id session r w a e =
    on_ok (create_blast s env id session r w).0 e ((create-Triple s env id session r).at w tt)
  where
    on_ok :
        (x : Result ApiError CreateBlastResponse)
        → x ≡ ok a
        → OnOk (Answers s env id session r) x (create_blast s env id session r w).1.store
        → Answers s env id session r a
    on_ok (ok b) e h = ground (arith, e, h)
    on_ok (err x) e h = cc

-- A request that is refused for its session, its body or its recipients touches nothing.
pub create_blast_refused :
    (s : Services) (env : Env Db) (id session : String) (r : CreateBlastRequest)
    (w : World Db Action) (e : ApiError)
    → admit s session r ≡ err e
    → create_blast s env id session r w ≡ (err e, w)
unfolding create_blast
create_blast_refused s env id session r w e h = rw h
