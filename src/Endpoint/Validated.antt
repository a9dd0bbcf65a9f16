-- ===== src/Endpoint/Validated.antt =====
-- `validate_body` at the creation of a job, and `dispatch` of the stored body later.
use wa_rs.Common.{ℕ, ◌≡◌, refl, true, String, ok, Bool-cases, inl, inr, ◌∙◌}
use wa_rs.Json.{Value}
use wa_rs.Endpoint.{Gateway, dispatch, validate_body, has_arm, dispatch_arms, validate_arms}

same_arms : (endpoint : String) → has_arm dispatch_arms endpoint ≡ has_arm validate_arms endpoint
unfolding dispatch_arms validate_arms
same_arms endpoint = refl

module _ (g : Gateway) where
  valid_arm :
      (endpoint : String) (body : Value)
      → validate_body g endpoint body ≡ ok tt
      → has_arm validate_arms endpoint ≡ true
  unfolding validate_body
  valid_arm endpoint body e = elim (Bool-cases (has_arm validate_arms endpoint)) [
    | inl known ↦ known
    | inr unknown ↦ cc
  ]

-- If the body of a blast is valid for its endpoint, then a stored text that the endpoint's reader
-- accepts is sent, as the request that it reads: a valid endpoint is never an unknown one later.
pub dispatch-validate_body :
    (g : Gateway) (n : ℕ) (session endpoint text : String) (body : Value) (request : g.Request)
    → validate_body g endpoint body ≡ ok tt
    → g.from_str endpoint text ≡ ok request
    → dispatch g n session endpoint text ≡ g.execute n session request
unfolding dispatch
dispatch-validate_body g n session endpoint text body request valid reads =
    rw (same_arms endpoint ∙ valid_arm g endpoint body valid) (rw reads refl)
