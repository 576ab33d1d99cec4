-- ===== src/Web/Policy.antt =====
-- pkg/ginx/middleware and pkg/ginx/wrap.go: what stands around the HTTP handlers.
use ework_runner.Prelude.{
  ℕ, ℤ, String, Bool, true, false, ◌≡◌, refl, ◌↔◌, not, Option, none, some, if◌then◌else◌, arith,
  Option-cases, inl, inr,
}
use ework_runner.Domain.Errors.{Error}

abbrev pub status_ok : ℕ
status_ok = 200

abbrev pub status_bad_request : ℕ
status_bad_request = 400

abbrev pub status_forbidden : ℕ
status_forbidden = 403

abbrev pub status_internal_server_error : ℕ
status_internal_server_error = 500

-- The request of the policy service.
pub record AuthorizeReq : Type 0 where
  pub user_id : String
  pub path : String
  pub method : String
  pub resource : String

-- What becomes of an HTTP request at the middleware.
pub data Verdict : Type 0 where
  aborted : ℕ → Verdict
  passes : Verdict

-- The session provider, the policy service and strconv.FormatInt; `none` is an error.
module _ {Req : Type 0} (session : Req → Option ℤ) (path method : Req → String)
    (authorize : AuthorizeReq → Option Bool) (format_int : ℤ → String) where
  abbrev pub policy_request : Req → ℤ → AuthorizeReq
  policy_request req uid = record {
    user_id = format_int uid;
    path = path req;
    method = method req;
    resource = "ALERT";
  }

  abbrev pub judged : Option Bool → Verdict
  judged none = aborted status_forbidden
  judged (some allowed) = if not allowed then aborted status_forbidden else passes

  abbrev pub check_session : Req → Option ℤ → Verdict
  check_session req none = aborted status_forbidden
  check_session req (some uid) = judged (authorize (policy_request req uid))

  -- The handler that CheckPolicyMiddlewareBuilder.Build returns
  unfoldable pub check_policy : Req → Verdict
  check_policy req = check_session req (session req)

  -- A request passes exactly if it has a session and the policy service answers, without an error,
  -- that its user may do this; any other is aborted with 403.
  pub check_policy_cases :
      (req : Req)
      → ((check_policy req ≡ passes) ↔ (
          (uid : ℤ) × (session req ≡ some uid) × (authorize (policy_request req uid) ≡ some true)))
        × ((check_policy req ≡ passes → ⊥) → check_policy req ≡ aborted status_forbidden)
  unfolding check_policy
  check_policy_cases req = elim (Option-cases (session req)) [
    | inl out ↦ rw out (((λ h. cc), λ (uid, h, _). cc), λ _. refl)
    | inr (uid, there) ↦ elim (Option-cases (authorize (policy_request req uid))) [
      | inl fails ↦
          rw (there, fails) (((λ h. cc), λ (x, same, h). ground (arith, same, h, fails)), λ _. refl)
      | inr (true, answered) ↦
          rw (there, answered) (((λ h. (uid, refl, answered)), λ _. refl), λ h. absurd (h refl))
      | inr (false, answered) ↦
          rw (there, answered)
            (((λ h. cc), λ (x, same, h). ground (arith, same, h, answered)), λ _. refl)
    ]
  ]

-- What a wrapped handler writes: a status and a body. WrapBody and Wrap differ in how they encode
-- the body, which is that of the library.
pub data Response (Body : Type 0) : Type 0 where
  response : ℕ → Body → Response Body
  bind_failed : ℕ → Response Body

module _ {Body : Type 0} where
  abbrev pub answered : Body × Option Error → Response Body
  answered (body, none) = response status_ok body
  answered (body, some e) = response status_internal_server_error body

  -- Wrap
  unfoldable pub wrap : {Ctx : Type 0} → (Ctx → Body × Option Error) → Ctx → Response Body
  wrap fn ctx = answered (fn ctx)

  abbrev pub bound : {Req : Type 0} → (Req → Body × Option Error) → Option Req → Response Body
  bound fn none = bind_failed status_bad_request
  bound fn (some req) = answered (fn req)

  -- WrapBody; an error of Bind answers 400 in the library, and the handler is not called.
  unfoldable pub wrap_body :
      {Ctx Req : Type 0} → (Ctx → Option Req) → (Req → Body × Option Error) → Ctx → Response Body
  wrap_body bind fn ctx = bound fn (bind ctx)
