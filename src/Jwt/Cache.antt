-- ===== src/Jwt/Cache.antt =====
-- The key cache of backend/src/auth/service-jwt-verifier.service.ts: when keys are fetched.
use social_promotion_automat.Base.{
  ℕ, suc, ◌+◌, ◌<◌, String, true, false, not, ◌&&◌, Option, none, some, List, ◌≡◌, refl, ap, arith,
  if◌then◌else◌, leb, ltb,
}
use social_promotion_automat.Result.{Result, ok, raised}
use social_promotion_automat.Jwt.{
  JwtConfiguration, JwkCandidate, JwksCache, Verifier, unknown_kid_refresh_cooldown_ms,
  invalid_token,
}
use social_promotion_automat.Jwt.Keys.{
  fetch_jwks, load_jwks, key_or_invalid, stamp, refresh_for, key_from, get_verification_key, lookup,
  parse_jwks,
}

module _ {Key : Type 0} (text_length : String → ℕ) (c : JwtConfiguration)
    (fetch : ℕ → Option (List (JwkCandidate Key))) where
  live_load :
      (now : ℕ) (v : Verifier Key) (cache : JwksCache Key)
      → v.cache ≡ some cache
      → now < cache.expires_at
      → load_jwks text_length c fetch false now v ≡ (ok cache, v)
  unfolding load_jwks
  live_load now v cache held live = go v.cache held
    where
      go :
          (o : Option (JwksCache Key))
          → o ≡ some cache
          → (elim o as (λ x. Result (JwksCache Key) × Verifier Key) [
            | none ↦ fetch_jwks text_length c fetch now v
            | some x ↦
                if not false && ltb now x.expires_at
                then (ok x, v)
                else fetch_jwks text_length c fetch now v
          ])
            ≡ (ok cache, v)
      go o e = let fresh : ltb now cache.expires_at ≡ true = ground arith in rw e (rw fresh refl)

  -- A live cache that holds the id answers without a fetch, and is left as it is.
  pub known_kid_cached :
      (kid : String) (now : ℕ) (v : Verifier Key) (cache : JwksCache Key) (key : Key)
      → v.cache ≡ some cache
      → now < cache.expires_at
      → lookup kid cache.keys ≡ some key
      → get_verification_key text_length c fetch kid now v ≡ (ok key, v)
  unfolding get_verification_key key_from
  known_kid_cached kid now v cache key held live found =
      rw (live_load now v cache held live, get_verification_key)
        (rw (found, key_from) (ap (λ r. (ok key, r.1)) (live_load now v cache held live)))

  -- While the cached keys have not expired, an unknown id within thirty seconds of the last refresh for an unknown id is
  -- refused without a fetch.
  pub unknown_kid_cools_down :
      (kid : String) (now : ℕ) (v : Verifier Key) (cache : JwksCache Key)
      → v.cache ≡ some cache
      → now < cache.expires_at
      → lookup kid cache.keys ≡ none
      → now < cache.last_unknown_kid_refresh_at + 30000
      → get_verification_key text_length c fetch kid now v ≡ (raised invalid_token, v)
  unfolding get_verification_key key_from
  unknown_kid_cools_down kid now v cache held live lost early =
      let cool : leb (cache.last_unknown_kid_refresh_at + unknown_kid_refresh_cooldown_ms) now
          ≡ false =
        ground arith in
      rw (live_load now v cache held live, get_verification_key)
        (rw (lost, key_from)
          (rw (cool, key_from)
            (ap (λ r. (raised invalid_token, r.1)) (live_load now v cache held live))))

  -- A fetch counts once; one that fails leaves the cache alone, and one that answers replaces it.
  abbrev Fetched : Verifier Key → Result (JwksCache Key) × Verifier Key → Type 0
  Fetched w (raised e, w') = (w'.fetches ≡ suc w.fetches) × (w'.cache ≡ w.cache)
  Fetched w (ok b, w') = (w'.fetches ≡ suc w.fetches) × (w'.cache ≡ some b)

  fetch_jwks-Fetched :
      (now : ℕ) (w : Verifier Key) → Fetched w (fetch_jwks text_length c fetch now w)
  unfolding fetch_jwks
  fetch_jwks-Fetched now w = go (fetch w.fetches)
    where
      w1 : Verifier Key
      w1 = record w { fetches = suc w.fetches }

      parsed :
          (m : Result (JwksCache Key))
          → Fetched w (elim m as (λ x. Result (JwksCache Key) × Verifier Key) [
            | raised e ↦ (raised invalid_token, w1)
            | ok cache ↦ (ok cache, record w1 { cache = some cache })
          ])
      parsed (raised e) = (refl, refl)
      parsed (ok b) = (refl, refl)

      go :
          (o : Option (List (JwkCandidate Key)))
          → Fetched w (elim o as (λ x. Result (JwksCache Key) × Verifier Key) [
            | none ↦ (raised invalid_token, w1)
            | some document ↦
                elim (parse_jwks text_length c document now)
                  as (λ x. Result (JwksCache Key) × Verifier Key) [
                    | raised e ↦ (raised invalid_token, w1)
                    | ok cache ↦ (ok cache, record w1 { cache = some cache })
                  ]
          ])
      go none = (refl, refl)
      go (some document) = parsed (parse_jwks text_length c document now)

  -- A refresh for an unknown id marks the cache with its time, whether the fetch failed or not and whether the id was
  -- found or not; it makes one fetch.
  pub refresh_marks :
      (kid : String) (now : ℕ) (cache : JwksCache Key) (v : Verifier Key)
      → let v' = (refresh_for text_length c fetch kid now cache v).1 in
        (b : JwksCache Key) × (v'.cache ≡ some b)
        × (b.last_unknown_kid_refresh_at ≡ now)
        × (v'.fetches ≡ suc v.fetches)
  unfolding refresh_for load_jwks
  refresh_marks kid now cache v =
      let w = record v { cache = some (stamp text_length c fetch now cache) } in
      go (fetch_jwks text_length c fetch now w) (fetch_jwks-Fetched now w)
    where
      go :
          (r : Result (JwksCache Key) × Verifier Key)
          → Fetched (record v { cache = some (stamp text_length c fetch now cache) }) r
          → let v' =
              (elim r.0 as (λ x. Result Key × Verifier Key) [
                | raised e ↦ (raised e, r.1)
                | ok fresh ↦ (
                  key_or_invalid text_length c fetch (lookup kid fresh.keys),
                  record r.1 { cache = some (stamp text_length c fetch now fresh) },
                )
              ]).1 in
            (b : JwksCache Key) × (v'.cache ≡ some b)
            × (b.last_unknown_kid_refresh_at ≡ now)
            × (v'.fetches ≡ suc v.fetches)
      go (raised e, w') h = (stamp text_length c fetch now cache, h.1, refl, h.0)
      go (ok b, w') h = (stamp text_length c fetch now b, refl, refl, h.0)
