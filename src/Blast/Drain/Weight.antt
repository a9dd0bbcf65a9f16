-- ===== src/Blast/Drain/Weight.antt =====
-- The weight of the pending rows of a job: how often they may still be sent to, and once more each.
use wa_rs.Common.{
  ℕ, suc, ◌+◌, ◌-◌, ◌≤◌, ◌≡◌, refl, Bool, true, false, String, List, [], ◌∷◌, arith, ◌==◌, eq_iff,
  ◌∙◌, if◌then◌else◌, any, All, Bool-cases, inl, inr, eq_refl,
}
use wa_rs.Table.{update_where}
use wa_rs.Blast.Rows.{RecipientRow}
use wa_rs.Blast.Statements.{has_status, is_recipient}

abbrev pub weigh : String → ℕ → RecipientRow → ℕ
weigh id most r = if has_status id "pending" r then suc (most - r.attempts) else 0

abbrev pub weight : String → ℕ → List RecipientRow → ℕ
weight id most [] = 0
weight id most (r ∷ rs) = weigh id most r + weight id most rs

-- The UNIQUE constraint of the table.
abbrev pub Keyed : List RecipientRow → Type 0
Keyed [] = Unit
Keyed (r ∷ rs) = (any (is_recipient r.job_id r.recipient) rs ≡ false) × Keyed rs

-- A row of the key of `b` is as `b` was read.
abbrev pub Agrees : String → RecipientRow → RecipientRow → Type 0
Agrees id b x =
    is_recipient id b.recipient x ≡ true → (x.status ≡ "pending") × (x.attempts ≡ b.attempts)

abbrev pub Present : String → List RecipientRow → RecipientRow → Type 0
Present id rs b = All (Agrees id b) rs × (any (is_recipient id b.recipient) rs ≡ true)

abbrev pub Other : RecipientRow → RecipientRow → Type 0
Other b c = (b.recipient == c.recipient) ≡ false

abbrev pub Apart : List RecipientRow → Type 0
Apart [] = Unit
Apart (b ∷ bs) = All (Other b) bs × Apart bs

-- A batch that is still to be sent to.
pub record Ready (id : String) (bs rs : List RecipientRow) : Type 0 where
  pub present : All (Present id rs) bs
  pub apart : Apart bs

-- An update that leaves the key of a row.
abbrev pub KeepsKey : (RecipientRow → RecipientRow) → Type 0
KeepsKey h = (x : RecipientRow) → ((h x).job_id ≡ x.job_id) × ((h x).recipient ≡ x.recipient)

-- An update after which a row that is as `b` was read weighs less.
abbrev pub Lightens : String → ℕ → RecipientRow → (RecipientRow → RecipientRow) → Type 0
Lightens id most b h =
    (x : RecipientRow)
    → x.status ≡ "pending"
    → x.attempts ≡ b.attempts
    → x.job_id ≡ id
    → suc (weigh id most (h x)) ≤ weigh id most x

module _ (id : String) where
  weight-update :
      (most : ℕ) (b : RecipientRow) (h : RecipientRow → RecipientRow) (rs : List RecipientRow)
      → Lightens id most b h
      → All (Agrees id b) rs
      → weight id most (update_where (is_recipient id b.recipient) h rs)
          + (if any (is_recipient id b.recipient) rs then 1 else 0)
        ≤ weight id most rs
  unfolding update_where
  weight-update most b h [] light a = omega arith
  weight-update most b h (x ∷ rs) light (agrees, a) =
      elim (Bool-cases (is_recipient id b.recipient x)) [
        | inl hit ↦
            let (p, q) = agrees hit in
            let l = light x p q (ground (arith, hit, eq_iff x.job_id id)) in
            rw hit (ground (arith, l, weight-update most b h rs light a))
        | inr miss ↦ rw miss (omega (arith, weight-update most b h rs light a))
      ]

  any-update :
      (job recipient : String) (p : RecipientRow → Bool) (h : RecipientRow → RecipientRow)
      (rs : List RecipientRow)
      → KeepsKey h
      → any (is_recipient job recipient) (update_where p h rs) ≡ any (is_recipient job recipient) rs
  unfolding update_where
  any-update job recipient p h [] k = refl
  any-update job recipient p h (x ∷ rs) k =
      let (a, b) = k x in
      elim (Bool-cases (p x)) [
        | inl hit ↦ rw hit (rw a (rw b (rw (any-update job recipient p h rs k) refl)))
        | inr miss ↦ rw miss (rw (any-update job recipient p h rs k) refl)
      ]

  pub update_where-Keyed :
      (p : RecipientRow → Bool) (h : RecipientRow → RecipientRow) (rs : List RecipientRow)
      → KeepsKey h
      → Keyed rs
      → Keyed (update_where p h rs)
  unfolding update_where
  update_where-Keyed p h [] k u = tt
  update_where-Keyed p h (x ∷ rs) k (u, us) =
      let (a, b) = k x in
      (
        elim (Bool-cases (p x)) [
          | inl hit ↦ rw hit (rw a (rw b (rw (any-update x.job_id x.recipient p h rs k) u)))
          | inr miss ↦ rw miss (rw (any-update x.job_id x.recipient p h rs k) u)
        ],
        update_where-Keyed p h rs k us,
      )

  pub update_where-weight :
      (most : ℕ) (b : RecipientRow) (bs : List RecipientRow) (h : RecipientRow → RecipientRow)
      (rs : List RecipientRow)
      → Lightens id most b h
      → Ready id (b ∷ bs) rs
      → suc (weight id most (update_where (is_recipient id b.recipient) h rs)) ≤ weight id most rs
  update_where-weight most b bs h rs light r =
      let ((a, there), _) = r.present in ground (arith, there, weight-update most b h rs light a)

  Agrees-update :
      (b c : RecipientRow) (h : RecipientRow → RecipientRow) (rs : List RecipientRow)
      → KeepsKey h
      → Other b c
      → All (Agrees id c) rs
      → All (Agrees id c) (update_where (is_recipient id b.recipient) h rs)
  unfolding update_where
  Agrees-update b c h [] k o a = tt
  Agrees-update b c h (x ∷ rs) k o (agrees, a) =
      let (same_job, same) = k x in
      (
        elim (Bool-cases (is_recipient id b.recipient x)) [
          | inl hit ↦ rw hit (λ e. ground (
            arith,
            hit,
            o,
            e,
            same,
            eq_iff x.recipient b.recipient,
            eq_iff (h x).recipient c.recipient,
            eq_refl c.recipient,
          ))
          | inr miss ↦ rw miss agrees
        ],
        Agrees-update b c h rs k o a,
      )

  Present-still :
      (b : RecipientRow) (h : RecipientRow → RecipientRow) (bs rs : List RecipientRow)
      → KeepsKey h
      → All (Other b) bs
      → All (Present id rs) bs
      → All (Present id (update_where (is_recipient id b.recipient) h rs)) bs
  Present-still b h [] rs k o p = tt
  Present-still b h (c ∷ bs) rs k (o, os) ((a, there), p) = (
    (Agrees-update b c h rs k o a, any-update id c.recipient _ h rs k ∙ there),
    Present-still b h bs rs k os p,
  )

  -- The rest of a batch is still to be sent to after the first of it.
  pub update_where-Ready :
      (b : RecipientRow) (bs : List RecipientRow) (h : RecipientRow → RecipientRow)
      (rs : List RecipientRow)
      → KeepsKey h
      → Ready id (b ∷ bs) rs
      → Ready id bs (update_where (is_recipient id b.recipient) h rs)
  update_where-Ready b bs h rs k r =
      let (o, apart) = r.apart in
      let (_, p) = r.present in record { present = Present-still b h bs rs k o p; apart = apart }
