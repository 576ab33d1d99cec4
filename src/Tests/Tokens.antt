-- ===== src/Tests/Tokens.antt =====
-- Calls with a token.
use ework_runner.Prelude.{
  ℤ, pos, ◌+ℤ◌, ◌==ℤ◌, ==ℤ_iff, String, Bool, true, false, ◌&&◌, none, some, List, [], ◌∷◌, ◌==ˢ◌,
  eq_iff, eq_refl, ◌≡◌, refl, ◌⊎◌, if◌then◌else◌, arith,
}
use ework_runner.Prelude.Table.{get, put, delete}
use ework_runner.Prelude.Text.{trim_prefix, cut_prefix}
use ework_runner.Action.{ok}
use ework_runner.Jwt.{
  hmac, key_func, Claim, number, text, other, MapClaims, valid_token, malformed, Library,
  InterceptorBuilder, Context, int64_value, new_jwt_auth, has_jwt_in_context, claims_of,
  merge_claims, jwt_auth_interceptor, decode, received, unary_client_interceptor,
}
use ework_runner.Jwt.Float.{float64, float_from, int64_of}
use ework_runner.Jwt.Passage.{
  IsLibrary, jwt_auth_interceptor-unary_client_interceptor, jwt_auth_interceptor-ok,
}

same_claim : Claim → Claim → Bool
same_claim (number m) (number n) = m ==ℤ n
same_claim (text s) (text t) = s ==ˢ t
same_claim other other = true
same_claim (number m) (text t) = false
same_claim (number m) other = false
same_claim (text s) (number n) = false
same_claim (text s) other = false
same_claim other (number n) = false
same_claim other (text t) = false

same_claim-eq : (c d : Claim) → same_claim c d ≡ true → c ≡ d
unfolding same_claim
same_claim-eq (number m) (number n) h = ground (arith, ==ℤ_iff m n)
same_claim-eq (text s) (text t) h = ground (arith, eq_iff s t)
same_claim-eq other other h = refl
same_claim-eq (number m) (text t) h = cc
same_claim-eq (number m) other h = cc
same_claim-eq (text s) (number n) h = cc
same_claim-eq (text s) other h = cc
same_claim-eq other (number n) h = cc
same_claim-eq other (text t) h = cc

same_claims : MapClaims → MapClaims → Bool
same_claims [] [] = true
same_claims [] (d ∷ ds) = false
same_claims (c ∷ cs) [] = false
same_claims (c ∷ cs) (d ∷ ds) = c.0 ==ˢ d.0 && same_claim c.1 d.1 && same_claims cs ds

same_claims-eq : (cs ds : MapClaims) → same_claims cs ds ≡ true → cs ≡ ds
unfolding same_claims
same_claims-eq [] [] h = refl
same_claims-eq [] (d ∷ ds) h = cc
same_claims-eq (c ∷ cs) [] h = cc
same_claims-eq (c ∷ cs) (d ∷ ds) h =
    ground (arith, eq_iff c.0 d.0, same_claim-eq c.1 d.1, same_claims-eq cs ds)

abbrev sent : ℤ
sent = pos 1000

abbrev signed_claims : MapClaims
signed_claims =
    ("exp", number (sent +ℤ pos 86400))
    ∷ ("biz_id", number (pos 42))
    ∷ ("iat", number sent)
    ∷ ("iss", text "ework-runner")
    ∷ []

-- A library that signs one list of claims.
abbrev library : Library
library = record {
  signed_string = λ key claims. if same_claims claims signed_claims then some "t" else none;
  parse = λ key_of now token.
      if token ==ˢ "t"
      then elim (key_of hmac) [ none ↦ malformed | some key ↦ valid_token signed_claims ]
      else malformed;
}

library-IsLibrary : IsLibrary library
library-IsLibrary = record {
  parse_law = λ key_of key token claims now iat exp known signed i e young valid.
      ground (arith, known, signed, same_claims-eq claims signed_claims, eq_refl token);
}

abbrev caller : Context
caller = record { biz_id = some (int64_value (pos 42)); outgoing = none; incoming = none }

abbrev server_side : InterceptorBuilder
server_side = record { key = "k"; issuer = "ework-runner"; exp = pos 86400 }

jwt_auth_interceptor-unary_client_interceptor_example :
    jwt_auth_interceptor library
      (pos 2000)
      (λ x. x)
      server_side
      (received (unary_client_interceptor library sent "k" caller))
    ≡ ok (record {
      biz_id = some (int64_value (pos 42));
      outgoing = none;
      incoming = some ("Bearer t" ∷ []);
    })
unfolding has_jwt_in_context claims_of merge_claims get put delete new_jwt_auth float64 float_from
    same_claims same_claim ◌==ℤ◌ ◌+ℤ◌
jwt_auth_interceptor-unary_client_interceptor_example =
    jwt_auth_interceptor-unary_client_interceptor library (pos 2000) (λ x. x) sent (pos 42) "k" "t"
      server_side caller library-IsLibrary refl refl refl (omega arith) (omega arith) refl
      (omega arith) (omega arith)

jwt_auth_interceptor-ok_example :
    let ctx = record caller { incoming = some ("Bearer t" ∷ []) } in
    (token : String) × (rest : List String) × (claims : MapClaims) × (ctx.incoming
      ≡ some (token ∷ rest))
    × (library.parse (key_func server_side) (pos 2000) (trim_prefix token "Bearer ")
        ≡ valid_token claims)
    × ((ctx.biz_id ≡ ctx.biz_id)
        ⊎ ((id : ℤ) × (get ◌==ˢ◌ "biz_id" claims ≡ some (number id))
            × (ctx.biz_id ≡ some (int64_value (int64_of (λ x. x) id)))))
unfolding jwt_auth_interceptor decode trim_prefix cut_prefix get int64_of
jwt_auth_interceptor-ok_example =
    jwt_auth_interceptor-ok library (pos 2000) (λ x. x) server_side
      (record caller { incoming = some ("Bearer t" ∷ []) })
      (record caller { incoming = some ("Bearer t" ∷ []) }) refl
