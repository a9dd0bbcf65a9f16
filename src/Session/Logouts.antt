-- ===== src/Session/Logouts.antt =====
-- The purge after repeated logouts, against the times of all of them.
use wa_rs.Common.{
  ℕ, ◌+◌, ◌≤◌, ◌≡◌, refl, Bool, true, ◌&&◌, List, [], ◌∷◌, ◌++◌, keep, count, length-append,
  length-keep, leb, arith,
}
use wa_rs.Session.{SessionState, record_logout_and_should_purge, recent}

-- Logouts at these times, the newest first.
abbrev pub log_out_all : List ℕ → SessionState → SessionState
log_out_all [] s = s
log_out_all (t ∷ older) s = (record_logout_and_should_purge t (log_out_all older s)).1

-- No time is after the ones before it in the list, nor after `now`.
abbrev pub newest_first : ℕ → List ℕ → Bool
newest_first now [] = true
newest_first now (t ∷ older) = leb t now && newest_first t older

newest_first_later :
    (t now : ℕ) (ts : List ℕ) → t ≤ now → newest_first t ts ≡ true → newest_first now ts ≡ true
newest_first_later t now [] le h = refl
newest_first_later t now (u ∷ ts) le h = ground arith

count-append : (p : ℕ → Bool) (xs ys : List ℕ) → count p (xs ++ ys) ≡ count p xs + count p ys
count-append p [] ys = omega arith
count-append p (x ∷ xs) ys = omega (arith, count-append p xs ys)

-- What has left the window at `t` has left it at `now`.
count-keep-recent :
    (t now : ℕ) (xs : List ℕ)
    → t ≤ now
    → count (recent now) (keep (recent t) xs) ≡ count (recent now) xs
count-keep-recent t now [] le = refl
count-keep-recent t now (x ∷ xs) le = ground (arith, count-keep-recent t now xs le)

history :
    (now : ℕ) (ts : List ℕ) (s : SessionState)
    → s.logout_history ≡ []
    → newest_first now ts ≡ true
    → count (recent now) (log_out_all ts s).logout_history ≡ count (recent now) ts
unfolding record_logout_and_should_purge
history now [] s e h = rw e refl
history now (t ∷ ts) s e h = omega (
  arith,
  count-append (recent now) (keep (recent t) (log_out_all ts s).logout_history) (t ∷ []),
  count-keep-recent t now (log_out_all ts s).logout_history t_le_now,
  history now ts s e (newest_first_later t now ts t_le_now ordered),
)
  where
    t_le_now : t ≤ now
    t_le_now = ground arith

    ordered : newest_first t ts ≡ true
    ordered = ground arith

-- After logouts at any times in order, a session that had none before is to be purged by the
-- logout at `now` exactly if at least two others are less than 600 seconds old: what the earlier
-- calls dropped from the history is never missed, and what they kept too long is not counted.
pub record_logout_and_should_purge-recent :
    (now : ℕ) (ts : List ℕ) (s : SessionState)
    → s.logout_history ≡ []
    → newest_first now ts ≡ true
    → (record_logout_and_should_purge now (log_out_all ts s)).0 ≡ leb 2 (count (recent now) ts)
unfolding record_logout_and_should_purge
record_logout_and_should_purge-recent now ts s e h = ground (
  arith,
  length-append (keep (recent now) (log_out_all ts s).logout_history) (now ∷ []),
  length-keep (recent now) (log_out_all ts s).logout_history,
  history now ts s e h,
)
