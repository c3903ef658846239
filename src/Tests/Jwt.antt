-- ===== src/Tests/Jwt.antt =====
-- Examples for backend/src/auth/service-jwt-verifier.service.ts.
use social_promotion_automat.Base.{
  ℕ, suc, ◌<◌, String, Bool, true, false, Option, none, some, List, [], ◌∷◌, ◌≡◌, refl, arith,
}
use social_promotion_automat.Result.{ok, raised}
use social_promotion_automat.Jwt.{
  Algorithm, JwtConfiguration, JwtPayload, one, missing, finite, AuthenticatedUser, JwkCandidate,
  JwksCache, Verifier, invalid_token, has_expected_audience, is_early, validate_registered_claims,
  checked_subject, authenticated, accept,
}
use social_promotion_automat.Jwt.Keys.{refresh_for, get_verification_key}
use social_promotion_automat.Jwt.Claims.{accept_sound}
use social_promotion_automat.Jwt.Cache.{unknown_kid_cools_down, refresh_marks}

abbrev sample_configuration : JwtConfiguration
sample_configuration = record {
  algorithm = Algorithm.es256;
  audience = "api";
  issuer = "idp";
  jwks_cache_ttl_ms = 300000;
}

abbrev sample_payload : JwtPayload
sample_payload = record {
  sub = some "u1";
  iss = some "idp";
  aud = one "api";
  exp = finite 900;
  nbf = missing;
  roles = [];
}

abbrev blank : String → Bool
blank s = false

abbrev user : AuthenticatedUser
user = record { id = "u1"; roles = none }

accepted : accept blank blank false false sample_configuration sample_payload 800 ≡ ok user
unfolding accept validate_registered_claims has_expected_audience checked_subject authenticated
accepted = refl

accept_sound_example :
    (sample_payload.iss ≡ some "idp")
    × (has_expected_audience sample_configuration sample_payload.aud ≡ true)
    × ((t : ℕ) × (sample_payload.exp ≡ finite t) × (800 < t))
    × (is_early sample_payload.nbf 800 ≡ false)
    × (sample_payload.sub ≡ some "u1")
    × (blank "u1" ≡ false)
accept_sound_example =
    accept_sound blank blank false false sample_configuration sample_payload 800 user accepted

abbrev length_of : String → ℕ
length_of s = 4

abbrev offline : ℕ → Option (List (JwkCandidate ℕ))
offline n = none

abbrev sample_cache : JwksCache ℕ
sample_cache = record {
  expires_at = 300000;
  keys = ("k1", 7) ∷ [];
  last_unknown_kid_refresh_at = 90000;
}

abbrev sample_verifier : Verifier ℕ
sample_verifier = record { cache = some sample_cache; fetches = 1 }

unknown_kid_cools_down_example :
    get_verification_key length_of sample_configuration offline "k2" 100000 sample_verifier
    ≡ (raised invalid_token, sample_verifier)
unknown_kid_cools_down_example =
    unknown_kid_cools_down length_of sample_configuration offline "k2" 100000 sample_verifier
      sample_cache refl (omega arith) refl (omega arith)

refresh_marks_example :
    let v' =
      (refresh_for length_of sample_configuration offline "k2" 130000 sample_cache
        sample_verifier).1 in
    (b : JwksCache ℕ) × (v'.cache ≡ some b)
    × (b.last_unknown_kid_refresh_at ≡ 130000)
    × (v'.fetches ≡ suc 1)
refresh_marks_example =
    refresh_marks length_of sample_configuration offline "k2" 130000 sample_cache sample_verifier
