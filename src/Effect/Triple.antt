-- ===== src/Effect/Triple.antt =====
-- What a task ensures of its result and the store after it, from what it may assume of the store.
use wa_rs.Common.{ℕ, Bool, true, false, Result, ok, err}
use wa_rs.Effect.{Env, World, Task, DbError, db_error, ◌>>=◌, query, answer}
use wa_rs.Effect.Keeps.{Keeps}

pub record Triple {S Act E A : Type 0} (P : S → Type 0) (m : Task S Act E A)
    (Q : Result E A → S → Type 0) : Type 0 where
  pub at : (w : World S Act) → P w.store → Q (m w).0 (m w).1.store

module _ {S Act : Type 0} where
  pub >>=-Triple :
      {E A B : Type 0} {P : S → Type 0} (Q : Result E A → S → Type 0) {R : Result E B → S → Type 0}
      (m : Task S Act E A) (f : A → Task S Act E B)
      → Triple P m Q
      → ((a : A) → Triple (Q (ok a)) (f a) R)
      → ((e : E) (s : S) → Q (err e) s → R (err e) s)
      → Triple P (m >>= f) R
  >>=-Triple {E} {A} {B} {P} Q {R} m f hm hf he = record { at = λ w p. go (m w) (hm.at w p) }
    where
      go :
          (x : Result E A × World S Act)
          → Q x.0 x.1.store
          → R
              (◌>>=◌ {S = S} {Act = Act} (λ _. x) f x.1).0
              (◌>>=◌ {S = S} {Act = Act} (λ _. x) f x.1).1.store
      go (ok a, w) q = (hf a).at w q
      go (err e, w) q = he e w.store q

  -- A task that moves the store along a relation keeps what the relation keeps.
  pub Keeps-Triple :
      {E A : Type 0} {R : S → S → Type 0} (P : S → Type 0) (Q : S → Type 0) (m : Task S Act E A)
      → Keeps R m
      → ((s t : S) → R s t → P s → Q t)
      → Triple P m (λ _. Q)
  Keeps-Triple P Q m k keep = record { at = λ w p. keep w.store (m w).1.store (k.at w) p }

  -- A query: `M` holds after what the other tasks do.
  pub query-Triple :
      {A : Type 0} (env : Env S) {P : S → Type 0} (M : S → Type 0)
      {Q : Result DbError A → S → Type 0} (statement : ℕ → S → A × S)
      → ((n : ℕ) (s : S) → P s → M (env.meanwhile n s))
      → ((s : S) → M s → Q (err db_error) s)
      → ((now : ℕ) (s : S) → M s → Q (ok (statement now s).0) (statement now s).1)
      → Triple P (query {Act = Act} env statement) Q
  unfolding query
  query-Triple {A} env {P} M {Q} statement others fault good = record {
    at = λ w p.
        go w (env.fails w.queries)
          (statement (env.clock w.queries) (env.meanwhile w.queries w.store))
          (env.meanwhile w.queries w.store) (others w.queries w.store p)
          (good (env.clock w.queries) (env.meanwhile w.queries w.store)
            (others w.queries w.store p));
  }
    where
      go :
          (w : World S Act) (b : Bool) (x : A × S) (s : S)
          → M s
          → Q (ok x.0) x.1
          → Q (answer b x s w).0 (answer b x s w).1.store
      go w true x s m q = fault s m
      go w false (a, t) s m q = q
