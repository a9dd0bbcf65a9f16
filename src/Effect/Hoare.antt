-- ===== src/Effect/Hoare.antt =====
-- What a task ensures of its result, the store and the log after it, from what it may assume of
-- the store and the log before.
use wa_rs.Common.{ℕ, Bool, true, false, List, ◌∷◌, Result, ok, err, map_err, if◌then◌else◌}
use wa_rs.Effect.{
  calm, Env, World, Task, DbError, db_error, ◌>>=◌, done, throw, lift, mapping, catch, emit, query,
  answer,
}

pub record Ensures {S Act E A : Type 0} (P : S → List Act → Type 0) (m : Task S Act E A)
    (Q : Result E A → S → List Act → Type 0) : Type 0 where
  pub at : (w : World S Act) → P w.store w.log → Q (m w).0 (m w).1.store (m w).1.log

-- An assertion that no result changes.
abbrev pub Always :
    {S Act E A : Type 0} → (S → List Act → Type 0) → Result E A → S → List Act → Type 0
Always P r = P

module _ {S Act : Type 0} where
  pub >>=-Ensures :
      {E A B : Type 0} {P : S → List Act → Type 0} (Q : Result E A → S → List Act → Type 0)
      {R : Result E B → S → List Act → Type 0} (m : Task S Act E A) (f : A → Task S Act E B)
      → Ensures P m Q
      → ((a : A) → Ensures (Q (ok a)) (f a) R)
      → ((e : E) (s : S) (l : List Act) → Q (err e) s l → R (err e) s l)
      → Ensures P (m >>= f) R
  >>=-Ensures {E} {A} {B} {P} Q {R} m f hm hf he = record { at = λ w p. go (m w) (hm.at w p) }
    where
      go :
          (x : Result E A × World S Act)
          → Q x.0 x.1.store x.1.log
          → R
              (◌>>=◌ {S = S} {Act = Act} (λ _. x) f x.1).0
              (◌>>=◌ {S = S} {Act = Act} (λ _. x) f x.1).1.store
              (◌>>=◌ {S = S} {Act = Act} (λ _. x) f x.1).1.log
      go (ok a, w) q = (hf a).at w q
      go (err e, w) q = he e w.store w.log q

  pub done-Ensures :
      {E A : Type 0} (P : S → List Act → Type 0) (a : A) → Ensures P (done {E = E} a) (Always P)
  done-Ensures P a = record { at = λ w p. p }

  pub throw-Ensures :
      {E A : Type 0} (P : S → List Act → Type 0) (e : E) → Ensures P (throw {A = A} e) (Always P)
  throw-Ensures P e = record { at = λ w p. p }

  pub lift-Ensures :
      {E A : Type 0} (P : S → List Act → Type 0) (r : Result E A) → Ensures P (lift r) (Always P)
  lift-Ensures P r = record { at = λ w p. p }

  pub mapping-Ensures :
      {E F A : Type 0} {P : S → List Act → Type 0} (Q : Result F A → S → List Act → Type 0)
      (f : E → F) (m : Task S Act E A)
      → Ensures P m (λ r. Q (map_err f r))
      → Ensures P (mapping f m) Q
  mapping-Ensures Q f m h = record { at = h.at }

  pub if-Ensures :
      {E A : Type 0} {P : S → List Act → Type 0} {Q : Result E A → S → List Act → Type 0} (b : Bool)
      (m k : Task S Act E A)
      → Ensures P m Q
      → Ensures P k Q
      → Ensures P (if b then m else k) Q
  if-Ensures true m k hm hk = hm
  if-Ensures false m k hm hk = hk

  pub catch-Ensures :
      {E A : Type 0} (F : Type 0) {P Q : S → List Act → Type 0} (m : Task S Act E A)
      → Ensures P m (Always Q)
      → Ensures P (catch {F = F} m) (Always Q)
  catch-Ensures F m h = record { at = h.at }

  pub emit-Ensures :
      {E : Type 0} {P Q : S → List Act → Type 0} (a : Act)
      → ((s : S) (l : List Act) → P s l → Q s (a ∷ l))
      → Ensures P (emit {E = E} a) (Always Q)
  emit-Ensures a h = record { at = λ w p. h w.store w.log p }

  -- A query: `M` holds after what the other tasks do.
  pub query-Ensures :
      {A : Type 0} (env : Env S) {P : S → List Act → Type 0} (M : S → List Act → Type 0)
      {Q : Result DbError A → S → List Act → Type 0} (statement : ℕ → S → A × S)
      → ((n : ℕ) (s : S) (l : List Act) → P s l → M (env.meanwhile n s) l)
      → ((s : S) (l : List Act) → M s l → Q (err db_error) s l)
      → ((now : ℕ) (s : S) (l : List Act)
          → M s l
          → Q (ok (statement now s).0) (statement now s).1 l)
      → Ensures P (query {Act = Act} env statement) Q
  unfolding query
  query-Ensures {A} env {P} M {Q} statement others fault good = record {
    at = λ w p.
        go w (env.fails w.queries)
          (statement (env.clock w.queries) (env.meanwhile w.queries w.store))
          (env.meanwhile w.queries w.store) (others w.queries w.store w.log p)
          (good (env.clock w.queries) (env.meanwhile w.queries w.store) w.log
            (others w.queries w.store w.log p));
  }
    where
      go :
          (w : World S Act) (b : Bool) (x : A × S) (s : S)
          → M s w.log
          → Q (ok x.0) x.1 w.log
          → Q (answer b x s w).0 (answer b x s w).1.store (answer b x s w).1.log
      go w true x s m q = fault s w.log m
      go w false (a, t) s m q = q

-- A statement about the answer of a task that makes no error.
abbrev pub Succeeds :
    {S Act E A : Type 0} → (A → S → List Act → Type 0) → Result E A → S → List Act → Type 0
Succeeds Q (ok a) s l = Q a s l
Succeeds Q (err e) s l = ⊥

module _ {S Act : Type 0} where
  pub then-Ensures :
      {E A B : Type 0} {P : S → List Act → Type 0} (Q : A → S → List Act → Type 0)
      {R : Result E B → S → List Act → Type 0} (m : Task S Act E A) (f : A → Task S Act E B)
      → Ensures P m (Succeeds Q)
      → ((a : A) → Ensures (Q a) (f a) R)
      → Ensures P (m >>= f) R
  then-Ensures Q m f hm hf = >>=-Ensures (Succeeds Q) m f hm hf (λ e s l q. absurd q)

  -- A query with no other task and no fault.
  pub calm-Ensures :
      {A : Type 0} (clock : ℕ → ℕ) {P : S → List Act → Type 0} (Q : A → S → List Act → Type 0)
      (statement : ℕ → S → A × S)
      → ((now : ℕ) (s : S) (l : List Act) → P s l → Q (statement now s).0 (statement now s).1 l)
      → Ensures P (query {Act = Act} (calm clock) statement) (Succeeds Q)
  unfolding query
  calm-Ensures clock Q statement h = record { at = λ w p. h (clock w.queries) w.store w.log p }

  -- A caught result comes back as it is.
  pub catching-Ensures :
      {E A : Type 0} (F : Type 0) {P : S → List Act → Type 0}
      (Q : Result E A → S → List Act → Type 0) (m : Task S Act E A)
      → Ensures P m Q
      → Ensures P (catch {F = F} m) (Succeeds Q)
  catching-Ensures F Q m h = record { at = h.at }
