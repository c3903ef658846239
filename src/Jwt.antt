-- ===== src/Jwt.antt =====
-- backend/src/auth/service-jwt-verifier.service.ts: which tokens of another service are accepted.
pub mod Cache
pub mod Claims
pub mod Keys
use social_promotion_automat.Base.{
  ℕ, zero, suc, ◌+◌, ◌-◌, String, Bool, true, false, not, ◌&&◌, ◌||◌, Option, none, some, List, [],
  ◌∷◌, ◌===◌, if◌then◌else◌, leb, ltb, ◌==◌, find, any, all, length, is_none, is_some, truthy,
}
use social_promotion_automat.Result.{Error, Result, ok, raised, ◌>>=◌, ◌>>◌, raise_if}

-- `ServiceJwtAlgorithm`
pub data Algorithm : Type 0 where
  rs256 es256 : Algorithm

abbrev pub same_algorithm : Algorithm → Algorithm → Bool
same_algorithm Algorithm.rs256 Algorithm.rs256 = true
same_algorithm Algorithm.es256 Algorithm.es256 = true
same_algorithm _ _ = false

-- `JwtConfiguration`; times are in milliseconds.
pub record JwtConfiguration : Type 0 where
  pub algorithm : Algorithm
  pub audience : String
  pub issuer : String
  pub jwks_cache_ttl_ms : ℕ

-- `ServiceJwtHeader`, as far as it is read: `alg` where it names an algorithm, `kid` where it is a text, `typ` where it
-- is given, and whether that is `JWT`.
pub record JwtHeader : Type 0 where
  pub alg : Option Algorithm
  pub kid : Option String
  pub typ_ok : Bool

-- The `aud` of a token: a text, a list, or something else.
pub data Audience : Type 0 where
  one : String → Audience
  many : List String → Audience
  other : Audience

-- A claim that should be a number.
pub data Instant : Type 0 where
  missing : Instant
  finite : ℕ → Instant
  malformed : Instant

-- `ServiceJwtPayload`; `roles` is the value of the roles claim: texts, or nothing that could be read as such.
pub record JwtPayload : Type 0 where
  pub sub : Option String
  pub iss : Option String
  pub aud : Audience
  pub exp : Instant
  pub nbf : Instant
  pub roles : List String

-- A key of the document, as far as it is read.
pub record JwkCandidate (Key : Type 0) : Type 0 where
  pub is_record : Bool
  pub use_enc : Bool
  pub alg : Option (Option Algorithm)
  pub kid : Option String
  pub has_private : Bool
  pub is_rsa : Bool
  pub is_p256 : Bool
  pub key : Option Key

-- `JwksCache`
pub record JwksCache (Key : Type 0) : Type 0 where
  pub expires_at : ℕ
  pub keys : List (String × Key)
  pub last_unknown_kid_refresh_at : ℕ

-- `MAX_JWT_SEGMENT_LENGTH`, `MAX_JWKS_KEYS`, `UNKNOWN_KID_REFRESH_COOLDOWN_MS`
abbrev pub max_jwt_segment_length : ℕ
max_jwt_segment_length = 8192

abbrev pub max_jwks_keys : ℕ
max_jwks_keys = 100

abbrev pub unknown_kid_refresh_cooldown_ms : ℕ
unknown_kid_refresh_cooldown_ms = 30000

-- `invalidToken`
abbrev pub invalid_token : Error
invalid_token = Error.unauthorized "A valid service access token is required."

-- The verifier's state: the cache, and how often the keys were fetched.
pub record Verifier (Key : Type 0) : Type 0 where
  pub cache : Option (JwksCache Key)
  pub fetches : ℕ

-- `hasExpectedAudience`
unfoldable pub has_expected_audience : JwtConfiguration → Audience → Bool
has_expected_audience c (one a) = a === c.audience
has_expected_audience c (many list) = any (λ a. a === c.audience) list
has_expected_audience c other = false

abbrev pub same_text? : Option String → String → Bool
same_text? none t = false
same_text? (some s) t = s === t

-- `typeof payload.exp !== 'number' || !Number.isFinite(payload.exp) || payload.exp <= now`
abbrev pub is_expired : Instant → ℕ → Bool
is_expired (finite t) now = leb t now
is_expired _ now = true

-- `payload.nbf !== undefined && (... || payload.nbf > now)`
abbrev pub is_early : Instant → ℕ → Bool
is_early missing now = false
is_early (finite t) now = ltb now t
is_early malformed now = true

-- `validateRegisteredClaims`, at the second `now`
unfoldable pub validate_registered_claims : JwtConfiguration → JwtPayload → ℕ → Result (Unit {0})
validate_registered_claims c p now = do
  raise_if (not (same_text? p.iss c.issuer) || not (has_expected_audience c p.aud)) invalid_token
  raise_if (is_expired p.exp now) invalid_token
  raise_if (is_early p.nbf now) invalid_token

-- The rest of `verify` on a payload whose signature is good; `is_blank` says that `trim` leaves nothing, `is_role` is the
-- pattern of a role.
unfoldable pub checked_subject : (String → Bool) → JwtPayload → Result String
checked_subject is_blank p = elim p.sub [
  | none ↦ raised invalid_token
  | some sub ↦ raise_if (is_blank sub) invalid_token >> ok sub
]

unfoldable pub checked_roles : (String → Bool) → JwtPayload → Result (List String)
checked_roles is_role p =
    raise_if
      (elim p.roles [ [] ↦ true | r ∷ rs ↦ false ]
        || (ltb 20 (length p.roles) || not (all is_role p.roles)))
      invalid_token
    >> ok p.roles

-- `AuthenticatedUser`
pub record AuthenticatedUser : Type 0 where
  pub id : String
  pub roles : Option (List String)

-- The end of `verify`; `rbac` is `SERVICE_RBAC_ENABLED`, and `claim_ok` that the roles claim is configured.
unfoldable pub authenticated :
    (String → Bool) → Bool → Bool → JwtPayload → String → Result AuthenticatedUser
authenticated is_role false claim_ok p sub = ok (record { id = sub; roles = none })
authenticated is_role true claim_ok p sub = do
  raise_if (not claim_ok) invalid_token
  roles ← checked_roles is_role p
  ok (record { id = sub; roles = some roles })

-- `verify` from the claims on.
unfoldable pub accept :
    (String → Bool)
    → (String → Bool)
    → Bool
    → Bool
    → JwtConfiguration
    → JwtPayload
    → ℕ
    → Result AuthenticatedUser
accept is_blank is_role rbac claim_ok c p now = do
  validate_registered_claims c p now
  sub ← checked_subject is_blank p
  authenticated is_role rbac claim_ok p sub

-- `candidate.alg !== undefined && candidate.alg !== this.configuration.algorithm`
abbrev pub wrong_alg : JwtConfiguration → Option (Option Algorithm) → Bool
wrong_alg c none = false
wrong_alg c (some none) = true
wrong_alg c (some (some a)) = not (same_algorithm a c.algorithm)
