-- ===== src/Webhook/Ring/Bounded.antt =====
-- What a ring holds after any number of failures.
use wa_rs.Common.{
  ℕ, zero, suc, ◌+◌, ◌-◌, ◌≤◌, ◌≡◌, ◌∙◌, refl, ap, sym, Bool, false, String, List, [], ◌∷◌, ◌++◌,
  ◌==◌, leb, length, drop, keep, arith, Bool-cases, inl, inr, eq_refl, eq_iff, length-append,
  length-drop,
}
use wa_rs.Webhook.Ring.{
  WebhookDlqEntry, Rings, ring_of, put_ring, evict, push_ring, webhook_dlq_push,
}

-- The newest `n` of a list that has the newest last.
abbrev pub newest : ℕ → List WebhookDlqEntry → List WebhookDlqEntry
newest n xs = drop (length xs - n) xs

drop-append :
    (n : ℕ) (xs ys : List WebhookDlqEntry) → n ≤ length xs → drop n (xs ++ ys) ≡ drop n xs ++ ys
drop-append zero xs ys h = refl
drop-append (suc n) [] ys h = absurd (omega (arith, h))
drop-append (suc n) (x ∷ xs) ys h = drop-append n xs ys (omega (arith, h))

drop_none : (n : ℕ) → drop {A = WebhookDlqEntry} n [] ≡ []
drop_none zero = refl
drop_none (suc n) = refl

drop-drop : (m n : ℕ) (xs : List WebhookDlqEntry) → drop m (drop n xs) ≡ drop (n + m) xs
drop-drop m zero xs = rw (zero_add m) refl
  where
    zero_add : (k : ℕ) → 0 + k ≡ k
    zero_add k = omega arith
drop-drop m (suc n) [] = drop_none m ∙ sym (drop_none (suc n + m))
drop-drop m (suc n) (x ∷ xs) = rw (suc_add) (drop-drop m n xs)
  where
    suc_add : suc n + m ≡ suc (n + m)
    suc_add = omega arith

pub evict-newest :
    (room : ℕ) (ring : List WebhookDlqEntry) → evict (suc room) ring ≡ newest room ring
unfolding evict
evict-newest room [] = sym (drop_none (0 - room))
evict-newest room (e ∷ rest) = elim (Bool-cases (leb (suc room) (suc (length rest)))) [
  | inl full ↦
      rw full
        (evict-newest room rest ∙ ap (λ n. drop n (e ∷ rest)) (one_more (ground (arith, full))))
  | inr free ↦ rw free (ap (λ n. drop n (e ∷ rest)) (none_more (ground (arith, free))))
]
  where
    one_more : room ≤ length rest → suc (length rest - room) ≡ suc (length rest) - room
    one_more h = omega (arith, h)

    none_more : suc (length rest) ≤ room → 0 ≡ suc (length rest) - room
    none_more h = omega (arith, h)

push_ring-newest :
    (room : ℕ) (e : WebhookDlqEntry) (past : List WebhookDlqEntry)
    → push_ring (suc room) e (newest (suc room) past) ≡ newest (suc room) (past ++ e ∷ [])
unfolding push_ring
push_ring-newest room e past =
    ap (λ xs. xs ++ e ∷ [])
      (evict-newest room (newest (suc room) past)
        ∙ drop-drop _ (length past - suc room) past
        ∙ ap (λ n. drop n past) (omega (arith, length-drop (length past - suc room) past)))
    ∙ sym (drop-append (length past - room) past (e ∷ []) (omega arith))
    ∙ ap (λ n. drop n (past ++ e ∷ [])) (omega (arith, length-append past (e ∷ [])))

append_none : (xs : List WebhookDlqEntry) → xs ≡ xs ++ []
append_none [] = refl
append_none (x ∷ xs) = ap (λ ys. x ∷ ys) (append_none xs)

append_assoc :
    (e : WebhookDlqEntry) (xs ys : List WebhookDlqEntry) → (xs ++ e ∷ []) ++ ys ≡ xs ++ e ∷ ys
append_assoc e [] ys = refl
append_assoc e (x ∷ xs) ys = ap (λ zs. x ∷ zs) (append_assoc e xs ys)

pub ring_of-put_ring :
    (session : String) (ring : List WebhookDlqEntry) (m : Rings)
    → ring_of session (put_ring session ring m) ≡ ring
unfolding ring_of put_ring
ring_of-put_ring session ring [] = ground (arith, eq_refl session)
ring_of-put_ring session ring ((s, old) ∷ rest) = elim (Bool-cases (s == session)) [
  | inl hit ↦ rw hit (rw hit refl)
  | inr miss ↦ rw miss (rw miss (ring_of-put_ring session ring rest))
]

ring_of-put_ring_other :
    (session other : String) (ring : List WebhookDlqEntry) (m : Rings)
    → (other == session) ≡ false
    → ring_of session (put_ring other ring m) ≡ ring_of session m
unfolding ring_of put_ring
ring_of-put_ring_other session other ring [] differ = rw differ refl
ring_of-put_ring_other session other ring ((s, old) ∷ rest) differ =
    ground (arith, differ, ring_of-put_ring_other session other ring rest differ, eq_iff s other)

-- The entries of these failures, pushed in order.
abbrev pub push_entries : ℕ → List WebhookDlqEntry → Rings → Rings
push_entries capacity [] m = m
push_entries capacity (e ∷ rest) m = push_entries capacity rest (webhook_dlq_push capacity e m)

abbrev pub of_session : String → WebhookDlqEntry → Bool
of_session session e = e.session_id == session

pushed :
    {session : String} (room : ℕ) (e : WebhookDlqEntry) (past : List WebhookDlqEntry) (m : Rings)
    → e.session_id ≡ session
    → ring_of session m ≡ newest (suc room) past
    → ring_of session (webhook_dlq_push (suc room) e m) ≡ newest (suc room) (past ++ e ∷ [])
unfolding webhook_dlq_push
pushed {session} room e past m own h =
    ap (λ s. ring_of s (webhook_dlq_push (suc room) e m)) (sym own)
    ∙ ring_of-put_ring e.session_id (push_ring (suc room) e (ring_of e.session_id m)) m
    ∙ ap (push_ring (suc room) e) (ap (λ s. ring_of s m) own ∙ h)
    ∙ push_ring-newest room e past

push_entries-newest :
    (session : String) (room : ℕ) (past es : List WebhookDlqEntry) (m : Rings)
    → ring_of session m ≡ newest (suc room) past
    → ring_of session (push_entries (suc room) es m)
      ≡ newest (suc room) (past ++ keep (of_session session) es)
unfolding webhook_dlq_push
push_entries-newest session room past [] m h = h ∙ ap (newest (suc room)) (append_none past)
push_entries-newest session room past (e ∷ es) m h = elim (Bool-cases (of_session session e)) [
  | inl own ↦ rw own (
      push_entries-newest session room (past ++ e ∷ []) es (webhook_dlq_push (suc room) e m)
        (pushed room e past m ((eq_iff e.session_id session).0 own) h)
      ∙ ap (newest (suc room)) (append_assoc e past (keep (of_session session) es)))
  | inr foreign ↦ rw foreign (
      push_entries-newest session room past es (webhook_dlq_push (suc room) e m)
        (ring_of-put_ring_other session e.session_id _ m foreign ∙ h))
]

-- After any failures of any sessions, the ring of a session holds the newest of that session's
-- entries in the order of their failures, as many as the capacity allows, and no others: neither
-- another session's failures nor the eviction loses one of them.
pub ring_of-push_entries :
    (session : String) (room : ℕ) (es : List WebhookDlqEntry)
    → (ring_of session (push_entries (suc room) es [])
        ≡ newest (suc room) (keep (of_session session) es))
      × (length (ring_of session (push_entries (suc room) es [])) ≤ suc room)
unfolding ring_of
ring_of-push_entries session room es =
    let same = push_entries-newest session room [] es [] (sym (drop_none (0 - suc room))) in
    (
      same,
      rw same (
          omega (
            arith,
            length-drop (length (keep (of_session session) es) - suc room)
                (keep (of_session session) es),
          )),
    )
