-- ===== src/Effect/Keeps.antt =====
-- What a task does to the store, as a preorder between the store before and after: it holds of a
-- task if it holds of its queries and of what other tasks do meanwhile.
use wa_rs.Common.{ℕ, Bool, true, false, Result, ok, err, if◌then◌else◌}
use wa_rs.Effect.{
  Env, World, Task, ◌>>=◌, ◌>>◌, done, throw, lift, mapping, catch, emit, answer, query,
}

pub record Keeps {S Act E A : Type 0} (R : S → S → Type 0) (m : Task S Act E A) : Type 0 where
  pub at : (w : World S Act) → R w.store (m w).1.store

-- A preorder on stores that the other tasks respect.
pub record IsRespected {S : Type 0} (R : S → S → Type 0) (env : Env S) : Type 0 where
  pub reflexive : (s : S) → R s s
  pub transitive : (s t u : S) → R s t → R t u → R s u
  pub others : (n : ℕ) (s : S) → R s (env.meanwhile n s)

module _ {S Act : Type 0} {R : S → S → Type 0} {env : Env S} (r : IsRespected R env) where
  pub done-Keeps : {E A : Type 0} (a : A) → Keeps R (done {S = S} {Act = Act} {E = E} a)
  done-Keeps a = record { at = λ w. r.reflexive w.store }

  pub throw-Keeps : {E A : Type 0} (e : E) → Keeps R (throw {S = S} {Act = Act} {E = E} {A = A} e)
  throw-Keeps e = record { at = λ w. r.reflexive w.store }

  pub lift-Keeps : {E A : Type 0} (a : Result E A) → Keeps R (lift {S = S} {Act = Act} a)
  lift-Keeps a = record { at = λ w. r.reflexive w.store }

  pub emit-Keeps : {E : Type 0} (a : Act) → Keeps R (emit {S = S} {Act = Act} {E = E} a)
  emit-Keeps a = record { at = λ w. r.reflexive w.store }

  pub mapping-Keeps :
      {E F A : Type 0} (f : E → F) (m : Task S Act E A) → Keeps R m → Keeps R (mapping f m)
  mapping-Keeps f m h = record { at = h.at }

  pub catch-Keeps :
      {E A : Type 0} (F : Type 0) (m : Task S Act E A) → Keeps R m → Keeps R (catch {F = F} m)
  catch-Keeps F m h = record { at = h.at }

  pub >>=-Keeps :
      {E A B : Type 0} (m : Task S Act E A) (f : A → Task S Act E B)
      → Keeps R m
      → ((a : A) → Keeps R (f a))
      → Keeps R (m >>= f)
  >>=-Keeps {E} {A} {B} m f hm hf = record { at = λ w. go w (m w) (hm.at w) }
    where
      go :
          (w : World S Act) (x : Result E A × World S Act)
          → R w.store x.1.store
          → R w.store (◌>>=◌ {S = S} {Act = Act} (λ _. x) f w).1.store
      go w (ok a, w') h = r.transitive w.store w'.store _ h ((hf a).at w')
      go w (err e, w') h = h

  pub >>-Keeps :
      {E B : Type 0} (m : Task S Act E (Unit {0})) (k : Task S Act E B)
      → Keeps R m
      → Keeps R k
      → Keeps R (m >> k)
  >>-Keeps m k hm hk = >>=-Keeps m (λ _. k) hm (λ _. hk)

  pub if-Keeps :
      {E A : Type 0} (b : Bool) (m k : Task S Act E A)
      → Keeps R m
      → Keeps R k
      → Keeps R (if b then m else k)
  if-Keeps true m k hm hk = hm
  if-Keeps false m k hm hk = hk

  answer_kept :
      {A : Type 0} (b : Bool) (x : A × S) (s : S) (w : World S Act)
      → R w.store s
      → R s x.1
      → R w.store (answer b x s w).1.store
  answer_kept true x s w h k = h
  answer_kept false (a, s') s w h k = r.transitive w.store s s' h k

  pub query-Keeps :
      {A : Type 0} (statement : ℕ → S → A × S)
      → ((now : ℕ) (s : S) → R s (statement now s).1)
      → Keeps R (query {S = S} {Act = Act} env statement)
  unfolding query
  query-Keeps statement h = record {
    at = λ w.
        answer_kept (env.fails w.queries)
          (statement (env.clock w.queries) (env.meanwhile w.queries w.store))
          (env.meanwhile w.queries w.store) w (r.others w.queries w.store)
          (h (env.clock w.queries) (env.meanwhile w.queries w.store));
  }
