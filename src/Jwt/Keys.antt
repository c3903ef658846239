-- ===== src/Jwt/Keys.antt =====
-- The keys of backend/src/auth/service-jwt-verifier.service.ts: the document that lists them, and their cache.
use social_promotion_automat.Base.{
  ℕ, suc, ◌+◌, String, Bool, true, false, not, ◌&&◌, ◌||◌, Option, none, some, List, [], ◌∷◌, ◌===◌,
  if◌then◌else◌, leb, ltb, ◌==◌, all, length, is_some, truthy,
}
use social_promotion_automat.Result.{Result, ok, raised, ◌>>=◌, ◌>>◌, raise_if}
use social_promotion_automat.Jwt.{
  Algorithm, Algorithm, same_algorithm, JwtConfiguration, JwtConfiguration, JwtHeader, JwtHeader,
  JwkCandidate, JwksCache, max_jwt_segment_length, max_jwks_keys, unknown_kid_refresh_cooldown_ms,
  invalid_token, Verifier, wrong_alg,
}

module _ {Key : Type 0} where
  abbrev pub lookup : String → List (String × Key) → Option Key
  lookup kid [] = none
  lookup kid ((k, key) ∷ keys) = if k === kid then some key else lookup kid keys

  -- `isExpectedJwkType`
  unfoldable pub is_expected_jwk_type : JwtConfiguration → JwkCandidate Key → Bool
  is_expected_jwk_type c k = elim c.algorithm [
    | Algorithm.rs256 ↦ k.is_rsa
    | Algorithm.es256 ↦ k.is_p256
  ]

  -- The id of a candidate that the loop does not skip; `text_length` is the length of a text.
  unfoldable pub usable_kid : (String → ℕ) → JwtConfiguration → JwkCandidate Key → Option String
  usable_kid text_length c k = elim k.kid [
    | none ↦ none
    | some kid ↦
        if not k.is_record
          || (k.use_enc
              || (wrong_alg c k.alg
                  || (not (truthy kid)
                      || (ltb 256 (text_length kid)
                          || (k.has_private || not (is_expected_jwk_type c k))))))
        then none
        else some kid
  ]

  -- The loop of `parseJwks`: a key that cannot be made, or an id that is there, refuses the document.
  unfoldable pub collect_keys :
      (String → ℕ)
      → JwtConfiguration
      → List (JwkCandidate Key)
      → List (String × Key)
      → Result (List (String × Key))
  collect_keys text_length c [] keys = ok keys
  collect_keys text_length c (k ∷ ks) keys = elim (usable_kid text_length c k) [
    | none ↦ collect_keys text_length c ks keys
    | some kid ↦ elim k.key [
      | none ↦ raised invalid_token
      | some key ↦
          let rest = collect_keys text_length c ks ((kid, key) ∷ keys) in
          if is_some (lookup kid keys) then raised invalid_token else rest
    ]
  ]

  -- `parseJwks` of a document with these keys, at the time `now`
  unfoldable pub parse_jwks :
      (String → ℕ) → JwtConfiguration → List (JwkCandidate Key) → ℕ → Result (JwksCache Key)
  parse_jwks text_length c document now = do
    raise_if (length document == 0 || ltb max_jwks_keys (length document)) invalid_token
    keys ← collect_keys text_length c document []
    raise_if (elim keys [ [] ↦ true | k ∷ ks ↦ false ]) invalid_token
    ok (record {
      expires_at = now + c.jwks_cache_ttl_ms;
      keys = keys;
      last_unknown_kid_refresh_at = 0;
    })

  -- `fetchJwks`: the n-th fetch answers `fetch n`, which is none where it fails.
  module _ (text_length : String → ℕ) (c : JwtConfiguration)
      (fetch : ℕ → Option (List (JwkCandidate Key))) where
    unfoldable pub fetch_jwks : ℕ → Verifier Key → Result (JwksCache Key) × Verifier Key
    fetch_jwks now v =
        let v' = record v { fetches = suc v.fetches } in
        elim (fetch v.fetches) [
          | none ↦ (raised invalid_token, v')
          | some document ↦ elim (parse_jwks text_length c document now) [
            | raised e ↦ (raised invalid_token, v')
            | ok cache ↦ (ok cache, record v' { cache = some cache })
          ]
        ]

    -- `loadJwks`, of one request at a time
    unfoldable pub load_jwks : Bool → ℕ → Verifier Key → Result (JwksCache Key) × Verifier Key
    load_jwks force now v = elim v.cache [
      | none ↦ fetch_jwks now v
      | some cache ↦
          if not force && ltb now cache.expires_at then (ok cache, v) else fetch_jwks now v
    ]

    abbrev pub key_or_invalid : Option Key → Result Key
    key_or_invalid none = raised invalid_token
    key_or_invalid (some key) = ok key

    -- `cache.lastUnknownKidRefreshAt = now` on the object that the verifier holds.
    abbrev pub stamp : ℕ → JwksCache Key → JwksCache Key
    stamp now cache = record cache { last_unknown_kid_refresh_at = now }

    -- The forced refresh for an unknown id.
    unfoldable pub refresh_for :
        String → ℕ → JwksCache Key → Verifier Key → Result Key × Verifier Key
    refresh_for kid now cache v =
        let (r, v') = load_jwks true now (record v { cache = some (stamp now cache) }) in
        elim r [
          | raised e ↦ (raised e, v')
          | ok fresh ↦
              (key_or_invalid (lookup kid fresh.keys), record v' { cache = some (stamp now fresh) })
        ]

    -- `getVerificationKey` on the cache that was loaded; `now` is `Date.now()`.
    unfoldable pub key_from : String → ℕ → JwksCache Key → Verifier Key → Result Key × Verifier Key
    key_from kid now cache v = elim (lookup kid cache.keys) [
      | some key ↦ (ok key, v)
      | none ↦
          if leb (cache.last_unknown_kid_refresh_at + unknown_kid_refresh_cooldown_ms) now
          then refresh_for kid now cache v
          else (raised invalid_token, v)
    ]

    -- `getVerificationKey`
    unfoldable pub get_verification_key : String → ℕ → Verifier Key → Result Key × Verifier Key
    get_verification_key kid now v =
        let (r, v') = load_jwks false now v in
        elim r [ raised e ↦ (raised e, v') | ok cache ↦ key_from kid now cache v' ]

    -- `isBase64UrlSegment`, with the pattern
    unfoldable pub is_base64_url_segment : (String → Bool) → String → Bool
    is_base64_url_segment pattern segment =
        leb (text_length segment) max_jwt_segment_length && pattern segment

    -- The header's conditions
    unfoldable pub checked_kid : JwtHeader → Result String
    checked_kid h = elim h.kid [
      | none ↦ raised invalid_token
      | some kid ↦
          raise_if
            (elim h.alg [ none ↦ true | some a ↦ not (same_algorithm a c.algorithm) ]
              || (not (truthy kid) || (ltb 256 (text_length kid) || not h.typ_ok)))
            invalid_token
          >> ok kid
    ]

    -- `verify` up to the claims, on the parts of a token: what splitting and parsing gave, and `signed`, what the platform's
    -- `verify` says of the signature under a key.
    unfoldable pub verified_key :
        (String → Bool)
        → List String
        → Option JwtHeader
        → (Key → Bool)
        → ℕ
        → Verifier Key
        → Result Key × Verifier Key
    verified_key pattern segments header signed now v =
        if not (length segments == 3) || not (all (is_base64_url_segment pattern) segments)
        then (raised invalid_token, v)
        else elim header [
          | none ↦ (raised invalid_token, v)
          | some h ↦ elim (checked_kid h) [
            | raised e ↦ (raised e, v)
            | ok kid ↦
                let (r, v') = get_verification_key kid now v in
                (r >>= λ key. raise_if (not (signed key)) invalid_token >> ok key, v')
          ]
        ]
