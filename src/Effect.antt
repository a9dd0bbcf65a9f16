-- ===== src/Effect.antt =====
-- Asynchronous code over a shared store, as explicit state passing. Each await on the store is one
-- `query`: the environment says what the other tasks did to the store since the last one, whether
-- the query fails, and what the clock shows.
pub mod Keeps
pub mod Triple
pub mod Hoare
use wa_rs.Common.{
  ℕ, suc, Bool, true, false, Option, none, some, List, ◌∷◌, Result, ok, err, map_err, ◌≡◌, ap,
}

-- An `anyhow::Error` of the database layer.
pub data DbError : Type 0 where
  db_error : DbError

-- What surrounds the task: other tasks, faults, time; each at the n-th query.
pub record Env (S : Type 0) : Type 0 where
  pub meanwhile : ℕ → S → S
  pub fails : ℕ → Bool
  pub clock : ℕ → ℕ

-- No other task and no fault.
abbrev pub calm : {S : Type 0} → (ℕ → ℕ) → Env S
calm clock = record { meanwhile = λ n s. s; fails = λ n. false; clock = clock }

-- The store, the queries made so far, and what the task did to the outside, newest first.
pub record World (S Act : Type 0) : Type 0 where
  pub store : S
  pub queries : ℕ
  pub log : List Act

abbrev pub Task : Type 0 → Type 0 → Type 0 → Type 0 → Type 0
Task S Act E A = World S Act → Result E A × World S Act

infixl 5 ◌>>=◌ ◌>>◌
abbrev pub ◌>>=◌ : {S Act E A B : Type 0} → Task S Act E A → (A → Task S Act E B) → Task S Act E B
◌>>=◌ m f w = let (r, w') = m w in elim r [ ok a ↦ f a w' | err e ↦ (err e, w') ]

abbrev pub ◌>>◌ : {S Act E B : Type 0} → Task S Act E (Unit {0}) → Task S Act E B → Task S Act E B
m >> k = m >>= λ _. k

abbrev pub done : {S Act E A : Type 0} → A → Task S Act E A
done a w = (ok a, w)

abbrev pub throw : {S Act E A : Type 0} → E → Task S Act E A
throw e w = (err e, w)

-- `?` on a result that is at hand.
abbrev pub lift : {S Act E A : Type 0} → Result E A → Task S Act E A
lift r w = (r, w)

-- `map_err` on an awaited result.
abbrev pub mapping : {S Act E F A : Type 0} → (E → F) → Task S Act E A → Task S Act F A
mapping f m w = let (r, w') = m w in (map_err f r, w')

-- An awaited result that the code looks into instead of passing its error on.
abbrev pub catch : {S Act E F A : Type 0} → Task S Act E A → Task S Act F (Result E A)
catch m w = let (r, w') = m w in (ok r, w')

-- An act on the outside.
abbrev pub emit : {S Act E : Type 0} → Act → Task S Act E (Unit {0})
emit a w = (ok tt, record w { log = a ∷ w.log })

-- What a query leaves: its answer, or a fault that leaves the store alone.
abbrev pub answer :
    {S Act A : Type 0} → Bool → A × S → S → World S Act → Result DbError A × World S Act
answer true r s w = (err db_error, record w { store = s; queries = suc w.queries })
answer false (a, s') s w = (ok a, record w { store = s'; queries = suc w.queries })

-- One atomic statement on the store, at the time of the clock.
unfoldable pub query : {S Act A : Type 0} → Env S → (ℕ → S → A × S) → Task S Act DbError A
query env statement w =
    let s = env.meanwhile w.queries w.store in
    answer (env.fails w.queries) (statement (env.clock w.queries) s) s w

-- A task that goes on after a result that is known.
pub >>=-ok :
    {S Act E A B : Type 0} (m : Task S Act E A) (f : A → Task S Act E B) (w : World S Act) {a : A}
    {w' : World S Act}
    → m w ≡ (ok a, w')
    → (m >>= f) w ≡ f a w'
>>=-ok {S} {Act} m f w e = ap (λ x. ◌>>=◌ {S = S} {Act = Act} (λ _. x) f w) e
