-- ===== src/Jwt/Passage.antt =====
-- A call through the client's interceptor and the server's.
use ework_runner.Prelude.{
  ℤ, pos, pos_part, neg_part, ◌+ℤ◌, ◌≤ℤ◌, ◌<ℤ◌, ◌<◌, ◌≡◌, refl, sym, ap, ◌⊎◌, inl, inr, String,
  false, Option, none, some, List, [], ◌∷◌, ◌==ˢ◌,
}
use Prim.Native.String.{◌++◌}
use ework_runner.Prelude.Table.{get, put, delete}
use ework_runner.Prelude.Text.{trim_prefix, trim_prefix-append}
use ework_runner.Action.{ok}
use ework_runner.Jwt.{
  Claim, number, text, other, MapClaims, Parsed, valid_token, expired, bad_signature, malformed,
  SigningMethod, hmac, key_func, Library, InterceptorBuilder, new_jwt_auth, Context, int64_value,
  has_jwt_in_context, biz_id_or, merge_claims, claims_of, encode, decode, decoded,
  unary_client_interceptor, inject_jwt_context, accept, with_biz_id, check_metadata,
  jwt_auth_interceptor, received,
}
use ework_runner.Jwt.Float.{float64, int64_of, int64_of-float64}

ok_inj : {A : Type 0} {a b : A} → ok a ≡ ok b → a ≡ b
ok_inj h = cc

-- What the JWT library documents: a token that was signed, with an HMAC, parses to its
-- claims if the key function answers an HMAC with the key of the signature, until it expires.
pub record IsLibrary (library : Library) : Type 0 where
  pub parse_law :
      (key_of : SigningMethod → Option String) (key token : String) (claims : MapClaims)
      (now iat exp : ℤ)
      → key_of hmac ≡ some key
      → library.signed_string key claims ≡ some token
      → get ◌==ˢ◌ "iat" claims ≡ some (number iat)
      → get ◌==ˢ◌ "exp" claims ≡ some (number exp)
      → iat ≤ℤ now
      → now <ℤ exp
      → library.parse key_of now token ≡ valid_token claims

module _ (library : Library) (now : ℤ) (out_of_range : ℤ → ℤ) where
  -- The claims that the client signs for a business id.
  abbrev pub client_claims : ℤ → String → ℤ → MapClaims
  client_claims sent key id =
      claims_of library sent (new_jwt_auth key []) (("biz_id", number (float64 id)) ∷ [])

  -- A call without a token goes through the two interceptors, with the same key and within a day,
  -- and its handler gets the business id of the caller, if that has at most 53 binary digits.
  pub jwt_auth_interceptor-unary_client_interceptor :
      (sent id : ℤ) (key token : String) (b : InterceptorBuilder) (ctx : Context)
      → IsLibrary library
      → b.key ≡ key
      → has_jwt_in_context ctx ≡ false
      → biz_id_or (pos 0) ctx.biz_id ≡ id
      → pos_part id < 9007199254740992
      → neg_part id < 9007199254740992
      → library.signed_string key (client_claims sent key id) ≡ some token
      → sent ≤ℤ now
      → now <ℤ (sent +ℤ pos 86400)
      → jwt_auth_interceptor library now out_of_range b
          (received (unary_client_interceptor library sent key ctx))
        ≡ ok (record {
          biz_id = some (int64_value id);
          outgoing = none;
          incoming = some (("Bearer " ++ token) ∷ []);
        })
  unfolding jwt_auth_interceptor unary_client_interceptor inject_jwt_context encode decode claims_of
      merge_claims new_jwt_auth get put delete
  jwt_auth_interceptor-unary_client_interceptor sent id key token b ctx laws same fresh mine low
        high signed young valid =
      let parsed =
        laws.parse_law (key_func b) key token (client_claims sent key id) now sent
          (sent +ℤ pos 86400) (ap some same) signed refl refl young valid in
      simp (
        fresh,
        mine,
        signed,
        trim_prefix-append "Bearer " token,
        parsed,
        int64_of-float64 out_of_range id low high,
      )

  -- A handler is called only if the first token of the call is valid under the server's key function, and
  -- its context has no business id but the caller's or one of a numeric claim.
  pub jwt_auth_interceptor-ok :
      (b : InterceptorBuilder) (ctx ctx' : Context)
      → jwt_auth_interceptor library now out_of_range b ctx ≡ ok ctx'
      → (token : String) × (rest : List String) × (claims : MapClaims) × (ctx.incoming
          ≡ some (token ∷ rest))
        × (library.parse (key_func b) now (trim_prefix token "Bearer ") ≡ valid_token claims)
        × ((ctx'.biz_id ≡ ctx.biz_id)
            ⊎ ((id : ℤ) × (get ◌==ˢ◌ "biz_id" claims ≡ some (number id))
                × (ctx'.biz_id ≡ some (int64_value (int64_of out_of_range id)))))
  unfolding jwt_auth_interceptor decode
  jwt_auth_interceptor-ok b ctx ctx' = headers ctx.incoming
    where
      business :
          (claims : MapClaims) (c : Option Claim)
          → get ◌==ˢ◌ "biz_id" claims ≡ c
          → with_biz_id library now out_of_range c ctx ≡ ctx'
          → (ctx'.biz_id ≡ ctx.biz_id)
            ⊎ ((id : ℤ) × (get ◌==ˢ◌ "biz_id" claims ≡ some (number id))
                × (ctx'.biz_id ≡ some (int64_value (int64_of out_of_range id))))
      business claims none at e = inl (ap (λ c. c.biz_id) (sym e))
      business claims (some (number id)) at e = inr (id, at, ap (λ c. c.biz_id) (sym e))
      business claims (some (text t)) at e = inl (ap (λ c. c.biz_id) (sym e))
      business claims (some other) at e = inl (ap (λ c. c.biz_id) (sym e))

      claims_in :
          (p : Parsed)
          → accept library now out_of_range (decoded library now p) ctx ≡ ok ctx'
          → (claims : MapClaims) × (p ≡ valid_token claims)
            × ((ctx'.biz_id ≡ ctx.biz_id)
                ⊎ ((id : ℤ) × (get ◌==ˢ◌ "biz_id" claims ≡ some (number id))
                    × (ctx'.biz_id ≡ some (int64_value (int64_of out_of_range id)))))
      claims_in (valid_token claims) h =
          (claims, refl, business claims (get ◌==ˢ◌ "biz_id" claims) refl (ok_inj h))
      claims_in expired h = absurd (cc h)
      claims_in bad_signature h = absurd (cc h)
      claims_in malformed h = absurd (cc h)

      headers :
          (incoming : Option (List String))
          → check_metadata library now out_of_range b incoming ctx ≡ ok ctx'
          → (token : String) × (rest : List String) × (claims : MapClaims) × (incoming
              ≡ some (token ∷ rest))
            × (library.parse (key_func b) now (trim_prefix token "Bearer ") ≡ valid_token claims)
            × ((ctx'.biz_id ≡ ctx.biz_id)
                ⊎ ((id : ℤ) × (get ◌==ˢ◌ "biz_id" claims ≡ some (number id))
                    × (ctx'.biz_id ≡ some (int64_value (int64_of out_of_range id)))))
      headers none h = absurd (cc h)
      headers (some []) h = absurd (cc h)
      headers (some (token ∷ rest)) h =
          let (claims, parsed, id) =
            claims_in (library.parse (key_func b) now (trim_prefix token "Bearer ")) h in
          (token, rest, claims, refl, parsed, id)
