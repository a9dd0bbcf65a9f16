-- ===== src/Blast/Drain/Batch.antt =====
-- A batch that was read from the pending rows: which rows of the table it stands for.
use wa_rs.Common.{
  ℕ, suc, ◌≡◌, refl, true, false, String, List, [], ◌∷◌, arith, ◌==◌, eq_iff, ◌⊎◌, any, keep, take,
  All, Bool-cases, inl, inr, zero, eq_refl,
}
use wa_rs.Blast.Rows.{RecipientRow}
use wa_rs.Blast.Statements.{has_status, is_recipient}
use wa_rs.Blast.Drain.Weight.{Keyed, Agrees, Present, Other, Apart, Ready}

module _ (id : String) where
  -- Rows that do not have a key agree with its row.
  agree_without :
      (b : RecipientRow) (rs : List RecipientRow)
      → any (is_recipient id b.recipient) rs ≡ false
      → All (Agrees id b) rs
  agree_without b [] e = tt
  agree_without b (x ∷ rs) e =
      (λ hit. ground (arith, hit, e), agree_without b rs (ground (arith, e)))

  others_without :
      (x : RecipientRow) (rs : List RecipientRow)
      → any (is_recipient id x.recipient) rs ≡ false
      → All (Other x) (keep (has_status id "pending") rs)
  others_without x [] e = tt
  others_without x (y ∷ rs) e = elim (Bool-cases (has_status id "pending" y)) [
    | inl hit ↦ rw hit (
      ground (arith, hit, e, eq_iff x.recipient y.recipient, eq_refl y.recipient),
      others_without x rs (ground (arith, e)),
    )
    | inr miss ↦ rw miss (others_without x rs (ground (arith, e)))
  ]

  -- A row in front of the table that is not of the job, or differs from the batch.
  Present-behind :
      (x : RecipientRow) (bs rs : List RecipientRow)
      → ((x.job_id == id) ≡ false) ⊎ All (Other x) bs
      → All (Present id rs) bs
      → All (Present id (x ∷ rs)) bs
  Present-behind x [] rs o p = tt
  Present-behind x (b ∷ bs) rs (inl foreign) ((a, there), p) = (
    ((λ hit. ground (arith, hit, foreign), a), ground (arith, there)),
    Present-behind x bs rs (inl foreign) p,
  )
  Present-behind x (b ∷ bs) rs (inr (o, os)) ((a, there), p) = (
    ((λ hit. ground (arith, hit, o), a), ground (arith, there)),
    Present-behind x bs rs (inr os) p,
  )

  Ready-front :
      (x : RecipientRow) (rs : List RecipientRow)
      → has_status id "pending" x ≡ true
      → any (is_recipient id x.recipient) rs ≡ false
      → Ready id (keep (has_status id "pending") rs) rs
      → Ready id (x ∷ keep (has_status id "pending") rs) (x ∷ rs)
  Ready-front x rs hit e r = record {
    present = (
      (
        (λ _. (ground (arith, hit, eq_iff x.status "pending"), refl), agree_without x rs e),
        ground (arith, hit, eq_refl x.recipient),
      ),
      Present-behind x (keep (has_status id "pending") rs) rs (inr (others_without x rs e))
          r.present,
    );
    apart = (others_without x rs e, r.apart);
  }

  own_key :
      (x : RecipientRow) (rs : List RecipientRow)
      → x.job_id ≡ id
      → any (is_recipient x.job_id x.recipient) rs ≡ false
      → any (is_recipient id x.recipient) rs ≡ false
  own_key x rs own e = rw own at e

  Ready-behind :
      (x : RecipientRow) (rs : List RecipientRow)
      → any (is_recipient x.job_id x.recipient) rs ≡ false
      → Ready id (keep (has_status id "pending") rs) rs
      → Ready id (keep (has_status id "pending") rs) (x ∷ rs)
  Ready-behind x rs e r = record {
    present =
        Present-behind x (keep (has_status id "pending") rs) rs
          (elim (Bool-cases (x.job_id == id)) [
            | inl own ↦
                inr (others_without x rs (own_key x rs (ground (arith, own, eq_iff x.job_id id)) e))
            | inr foreign ↦ inl foreign
          ])
          r.present;
    apart = r.apart;
  }

  -- The pending rows of a job, all of them, are ready.
  pending-Ready :
      (rs : List RecipientRow) → Keyed rs → Ready id (keep (has_status id "pending") rs) rs
  pending-Ready [] k = record { present = tt; apart = tt }
  pending-Ready (x ∷ rs) (e, k) = elim (Bool-cases (has_status id "pending" x)) [
    | inl hit ↦ rw hit (
        Ready-front x rs hit (own_key x rs (ground (arith, hit, eq_iff x.job_id id)) e)
          (pending-Ready rs k))
    | inr miss ↦ rw miss (Ready-behind x rs e (pending-Ready rs k))
  ]

  All-take :
      (P : RecipientRow → Type 0) (n : ℕ) (bs : List RecipientRow) → All P bs → All P (take n bs)
  All-take P zero bs p = tt
  All-take P (suc n) [] p = tt
  All-take P (suc n) (b ∷ bs) (q, p) = (q, All-take P n bs p)

  Apart-take : (n : ℕ) (bs : List RecipientRow) → Apart bs → Apart (take n bs)
  Apart-take zero bs p = tt
  Apart-take (suc n) [] p = tt
  Apart-take (suc n) (b ∷ bs) (o, p) = (All-take (Other b) n bs o, Apart-take n bs p)

  -- So is every batch of them.
  pub batch-Ready :
      (n : ℕ) (rs : List RecipientRow)
      → Keyed rs
      → Ready id (take n (keep (has_status id "pending") rs)) rs
  batch-Ready n rs k =
      let r = pending-Ready rs k in
      record { present = All-take _ n _ r.present; apart = Apart-take n _ r.apart }
