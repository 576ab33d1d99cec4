-- ===== src/Jwt.antt =====
-- pkg/grpc/interceptors/jwt: the token that carries the business id of a call.
pub mod Float
pub mod Passage
use ework_runner.Prelude.{
  ℕ, ℤ, pos, ◌+ℤ◌, String, Bool, true, false, Option, none, some, List, [], ◌∷◌, ◌==ˢ◌, ◌==◌,
  if◌then◌else◌,
}
use ework_runner.Prelude.Table.{get, put}
use Prim.Native.String.{◌++◌}
use ework_runner.Prelude.Text.{trim_prefix}
use ework_runner.Domain.Errors.{
  Error, json_failed, missing_metadata, missing_token, invalid_token, token_expired,
  invalid_signature,
}
use ework_runner.Action.{Result, ok, err, panic}
use ework_runner.Jwt.Float.{float64, int64_of}

-- A claim of jwt.MapClaims. A float64 is the integer that it is: the code makes no other.
pub data Claim : Type 0 where
  number : ℤ → Claim
  text : String → Claim
  other : Claim

abbrev pub MapClaims : Type 0
MapClaims = List (String × Claim)

-- jwt.Parse: the claims, or the kind of its error.
pub data Parsed : Type 0 where
  valid_token : MapClaims → Parsed
  expired : Parsed
  bad_signature : Parsed
  malformed : Parsed

-- The method that the header of a token names.
pub data SigningMethod : Type 0 where
  hmac : SigningMethod
  other_method : SigningMethod

-- The JWT library: signing with HS256, and parsing at a time in seconds, with the function that gives
-- the key for a method, or an error.
pub record Library : Type 0 where
  pub signed_string : String → MapClaims → Option String
  pub parse : (SigningMethod → Option String) → ℤ → String → Parsed

pub record InterceptorBuilder : Type 0 where
  pub key : String
  pub issuer : String
  pub exp : ℤ  -- seconds

abbrev pub apply :
    List (InterceptorBuilder → InterceptorBuilder) → InterceptorBuilder → InterceptorBuilder
apply [] b = b
apply (opt ∷ opts) b = apply opts (opt b)

abbrev pub with_issuer : String → InterceptorBuilder → InterceptorBuilder
with_issuer issuer b = record b { issuer = issuer }

abbrev pub with_expiration : ℤ → InterceptorBuilder → InterceptorBuilder
with_expiration exp b = record b { exp = exp }

unfoldable pub new_jwt_auth :
    String → List (InterceptorBuilder → InterceptorBuilder) → InterceptorBuilder
new_jwt_auth key opts = apply opts (record { key = key; issuer = "ework-runner"; exp = pos 86400 })

-- A value of a Go context: the code asks whether it is an int64.
pub data ContextValue : Type 0 where
  int64_value : ℤ → ContextValue
  other_value : ContextValue

-- A context: the value of "biz_id", and the values of Authorization in the outgoing and in the incoming
-- metadata; `none` is a context without metadata.
pub record Context : Type 0 where
  pub biz_id : Option ContextValue
  pub outgoing : Option (List String)
  pub incoming : Option (List String)

-- metadata.New, and metadata.NewOutgoingContext, which replaces the metadata that was there.
abbrev pub with_authorization : String → Context → Context
with_authorization token ctx = record ctx { outgoing = some (token ∷ []) }

abbrev pub has_value : Option (List String) → Bool
has_value none = false
has_value (some []) = false
has_value (some (h ∷ hs)) = true

unfoldable pub has_jwt_in_context : Context → Bool
has_jwt_in_context ctx = has_value ctx.outgoing

-- The business id of a context, or a default.
abbrev pub biz_id_or : ℤ → Option ContextValue → ℤ
biz_id_or default none = default
biz_id_or default (some (int64_value id)) = id
biz_id_or default (some other_value) = default

-- The loop of Encode over the custom claims.
unfoldable pub merge_claims : MapClaims → MapClaims → MapClaims
merge_claims [] claims = claims
merge_claims (c ∷ custom) claims = merge_claims custom (put ◌==ˢ◌ c.0 c.1 claims)

abbrev pub add_exp : Option Claim → ℤ → MapClaims → MapClaims
add_exp none expiry claims = put ◌==ˢ◌ "exp" (number expiry) claims
add_exp (some _) expiry claims = claims

-- The key function of Decode.
abbrev pub key_func : InterceptorBuilder → SigningMethod → Option String
key_func b hmac = some b.key
key_func b other_method = none

-- `now` is time.Now().Unix(); `out_of_range` is what int64 makes of a float64 beyond it.
module _ (library : Library) (now : ℤ) where
  unfoldable pub claims_of : InterceptorBuilder → MapClaims → MapClaims
  claims_of b custom =
      let claims = merge_claims custom (("iat", number now) ∷ ("iss", text b.issuer) ∷ []) in
      add_exp (get ◌==ˢ◌ "exp" claims) (now +ℤ b.exp) claims

  -- Encode; `none` is the error of SignedString.
  unfoldable pub encode : InterceptorBuilder → MapClaims → Option String
  encode b custom = library.signed_string b.key (claims_of b custom)

  abbrev pub decoded : Parsed → Result MapClaims
  decoded (valid_token claims) = ok claims
  decoded expired = err token_expired
  decoded bad_signature = err invalid_signature
  decoded malformed = err invalid_token

  -- Decode, with the error that the interceptor answers for each kind.
  unfoldable pub decode : InterceptorBuilder → String → Result MapClaims
  decode b token = decoded (library.parse (key_func b) now (trim_prefix token "Bearer "))

  abbrev pub with_token : Option String → Context → Context
  with_token none ctx = ctx
  with_token (some token) ctx = with_authorization ("Bearer " ++ token) ctx

  unfoldable pub context_with_jwt : Context → String → ℤ → Context
  context_with_jwt ctx key default_biz_id =
      with_token
        (encode (new_jwt_auth key [])
          (("biz_id", number (float64 (biz_id_or default_biz_id ctx.biz_id))) ∷ []))
        ctx

  unfoldable pub inject_jwt_context : String → Context → Context
  inject_jwt_context jwt_key ctx =
      with_token
        (encode (new_jwt_auth jwt_key [])
          (("biz_id", number (float64 (biz_id_or (pos 0) ctx.biz_id))) ∷ []))
        ctx

  -- The context that the invoker is called with.
  unfoldable pub unary_client_interceptor : String → Context → Context
  unary_client_interceptor jwt_key ctx =
      if has_jwt_in_context ctx then ctx else inject_jwt_context jwt_key ctx

  module _ (out_of_range : ℤ → ℤ) where
    abbrev pub with_biz_id : Option Claim → Context → Context
    with_biz_id none ctx = ctx
    with_biz_id (some (number id)) ctx = record ctx {
      biz_id = some (int64_value (int64_of out_of_range id));
    }
    with_biz_id (some (text _)) ctx = ctx
    with_biz_id (some other) ctx = ctx

    abbrev pub accept : Result MapClaims → Context → Result Context
    accept (ok claims) ctx = ok (with_biz_id (get ◌==ˢ◌ "biz_id" claims) ctx)
    accept (err e) ctx = err e
    accept panic ctx = panic

    abbrev pub check_metadata : InterceptorBuilder → Option (List String) → Context → Result Context
    check_metadata b none ctx = err missing_metadata
    check_metadata b (some []) ctx = err missing_token
    check_metadata b (some (token ∷ _)) ctx = accept (decode b token) ctx

    -- The context that the handler is called with, or the error that the interceptor answers.
    unfoldable pub jwt_auth_interceptor : InterceptorBuilder → Context → Result Context
    jwt_auth_interceptor b ctx = check_metadata b ctx.incoming ctx

-- gRPC hands the outgoing metadata of the client to the server as its incoming metadata.
abbrev pub received : Context → Context
received ctx = record { biz_id = none; outgoing = none; incoming = ctx.outgoing }
