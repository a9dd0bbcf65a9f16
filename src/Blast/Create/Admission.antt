-- ===== src/Blast/Create/Admission.antt =====
-- The intake of recipients: what the loop of `create_blast` keeps, skips and refuses.
use wa_rs.Common.{
  ℕ, ◌+◌, ◌≡◌, refl, ◌≢◌, Bool, true, false, not, ◌||◌, String, List, [], ◌∷◌, ◌++◌, ◌==◌, eq_iff,
  Result, ok, err, arith, if◌then◌else◌, length, length-append, length-keep, count-le-length, ap,
  sym,
}
use wa_rs.ApiError.{ApiError, session_not_found, bad_request}
use wa_rs.Endpoint.{validate_body}
use wa_rs.Blast.Statements.{contains}
use wa_rs.Blast.Create.{
  Services, Intake, no_intake, canonical, take_in, take_in_all, drop_sent, is_empty_list, admit,
  CreateBlastRequest, check_recipients,
}

-- No text stands twice.
abbrev pub Distinct : List String → Type 0
Distinct [] = Unit
Distinct (x ∷ xs) = (contains xs x ≡ false) × Distinct xs

-- What the loop has made of the recipients so far.
pub record Taken (n : ℕ) (i : Intake) : Type 0 where
  pub same : i.accepted ≡ i.seen
  pub distinct : Distinct i.seen
  pub counted : length i.bad + length i.accepted + i.skipped_dup ≡ n

contains-append :
    (xs : List String) (a b : String) → contains (xs ++ a ∷ []) b ≡ (contains xs b || (a == b))
contains-append [] a b = ground arith
contains-append (x ∷ xs) a b = ground (arith, contains-append xs a b)

Distinct-append :
    (xs : List String) (a : String) → contains xs a ≡ false → Distinct xs → Distinct (xs ++ a ∷ [])
Distinct-append [] a h d = (refl, tt)
Distinct-append (x ∷ xs) a h (fresh, d) = (
  ground (arith, contains-append xs a x, eq_iff a x, eq_iff x a),
  Distinct-append xs a (ground arith) d,
)

module _ (s : Services) where
  Taken-bad :
      (n : ℕ) (i : Intake) (raw : String)
      → Taken n i
      → Taken (n + 1) (record i { bad = i.bad ++ raw ∷ [] })
  Taken-bad n i raw t = record {
    same = t.same;
    distinct = t.distinct;
    counted = omega (arith, t.counted, length-append i.bad (raw ∷ []));
  }

  Taken-ok :
      (n : ℕ) (i : Intake) (c : String) (b : Bool)
      → contains i.seen c ≡ b
      → Taken n i
      → Taken (n + 1) (
          if b
          then record i { skipped_dup = i.skipped_dup + 1 }
          else record i { seen = i.seen ++ c ∷ []; accepted = i.accepted ++ c ∷ [] })
  Taken-ok n i c true e t = record {
    same = t.same;
    distinct = t.distinct;
    counted = omega (arith, t.counted);
  }
  Taken-ok n i c false e t = record {
    same = ap (λ xs. xs ++ c ∷ []) t.same;
    distinct = Distinct-append i.seen c e t.distinct;
    counted = omega (arith, t.counted, length-append i.accepted (c ∷ []));
  }

  take_in-Taken : (n : ℕ) (i : Intake) (raw : String) → Taken n i → Taken (n + 1) (take_in s i raw)
  unfolding take_in
  take_in-Taken n i raw t = go (canonical s raw)
    where
      go :
          (r : Result ApiError String)
          → Taken (n + 1) (elim r [
            | err _ ↦ record i { bad = i.bad ++ raw ∷ [] }
            | ok c ↦
                if contains i.seen c
                then record i { skipped_dup = i.skipped_dup + 1 }
                else record i { seen = i.seen ++ c ∷ []; accepted = i.accepted ++ c ∷ [] }
          ])
      go (err e) = Taken-bad n i raw t
      go (ok c) = Taken-ok n i c (contains i.seen c) refl t

  take_in_all-Taken :
      (n : ℕ) (i : Intake) (raws : List String)
      → Taken n i
      → Taken (n + length raws) (take_in_all s i raws)
  unfolding take_in_all
  take_in_all-Taken n i [] t = record {
    same = t.same;
    distinct = t.distinct;
    counted = omega (arith, t.counted);
  }
  take_in_all-Taken n i (raw ∷ raws) t =
      let u = take_in_all-Taken (n + 1) (take_in s i raw) raws (take_in-Taken n i raw t) in
      record { same = u.same; distinct = u.distinct; counted = omega (arith, u.counted) }

  pub intake-Taken : (raws : List String) → Taken (length raws) (take_in_all s no_intake raws)
  intake-Taken raws =
      let u =
        take_in_all-Taken 0 no_intake raws
          (record { same = refl; distinct = tt; counted = refl }) in
      record { same = u.same; distinct = u.distinct; counted = omega (arith, u.counted) }

-- The dedup against earlier jobs moves recipients from the accepted to the skipped.
pub drop_sent_total :
    (i : Intake) (sent : List String)
    → length (drop_sent i sent).accepted + (drop_sent i sent).skipped_dup
      ≡ length i.accepted + i.skipped_dup
unfolding drop_sent
drop_sent_total i sent = omega (
  arith,
  length-keep (λ r. not (contains sent r)) i.accepted,
  count-le-length (λ r. not (contains sent r)) i.accepted,
)

-- What an admitted request is like.
pub record Admitted (s : Services) (session_id : String) (r : CreateBlastRequest) (i : Intake)
    : Type 0 where
  pub session : s.has_session session_id ≡ true
  pub valid : validate_body s.gateway r.endpoint r.body ≡ ok tt
  pub nonempty : r.recipients ≢ []
  pub taken : i ≡ take_in_all s no_intake r.recipients
  pub good : i.bad ≡ []

nonempty_of : (xs : List String) → is_empty_list xs ≡ false → xs ≢ []
nonempty_of [] e h = cc
nonempty_of (x ∷ xs) e h = cc

empty_of : (xs : List String) → is_empty_list xs ≡ true → xs ≡ []
empty_of [] e = refl
empty_of (x ∷ xs) e = cc

check-eq-ok : (i j : Intake) → check_recipients i ≡ ok j → (i ≡ j) × (is_empty_list i.bad ≡ true)
unfolding check_recipients
check-eq-ok i j e = ground arith

module _ (s : Services) (session_id : String) (r : CreateBlastRequest) (i : Intake) where
  admitted :
      (b : Bool) (v : Result String (Unit {0})) (x : Bool)
      → s.has_session session_id ≡ b
      → validate_body s.gateway r.endpoint r.body ≡ v
      → is_empty_list r.recipients ≡ x
      → (if not b then err (session_not_found session_id) else (elim v [
        | err e ↦ err (bad_request e)
        | ok _ ↦
            if x
            then err (bad_request "recipients must not be empty")
            else check_recipients (take_in_all s no_intake r.recipients)
      ]))
        ≡ ok i
      → Admitted s session_id r i
  admitted false v x eb ev ex e = cc
  admitted true (err m) x eb ev ex e = cc
  admitted true (ok m) true eb ev ex e = cc
  admitted true (ok m) false eb ev ex e =
      let (same, good) = check-eq-ok (take_in_all s no_intake r.recipients) i e in
      record {
        session = eb;
        valid = ev;
        nonempty = nonempty_of r.recipients ex;
        taken = sym same;
        good = empty_of i.bad (rw (← same) good);
      }

  pub admit-Admitted : admit s session_id r ≡ ok i → Admitted s session_id r i
  unfolding admit
  admit-Admitted e =
      admitted (s.has_session session_id) (validate_body s.gateway r.endpoint r.body)
        (is_empty_list r.recipients) refl refl refl e

  -- An admitted request has each canonical recipient once, and accounts for all of them.
  pub admit_accounts :
      admit s session_id r ≡ ok i
      → Distinct i.accepted × (length i.accepted + i.skipped_dup ≡ length r.recipients)
  admit_accounts e =
      let a = admit-Admitted e in
      let t : Taken (length r.recipients) i = rw a.taken (intake-Taken s r.recipients) in
      (rw t.same t.distinct, omega (arith, t.counted, ap length a.good))
