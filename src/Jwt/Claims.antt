-- ===== src/Jwt/Claims.antt =====
-- The claims that backend/src/auth/service-jwt-verifier.service.ts accepts.
use social_promotion_automat.Base.{
  ℕ, ◌<◌, String, Bool, true, false, not, ◌||◌, Option, none, some, ◌≡◌, refl, sym, ap, ◌∙◌, arith,
  eq_iff, inl, inr, Option-cases,
}
use social_promotion_automat.Result.{ok, bind_ok, raise_if_ok, ok-injective, raise_if}
use social_promotion_automat.Jwt.{
  JwtConfiguration, JwtPayload, Instant, missing, finite, malformed, AuthenticatedUser,
  has_expected_audience, is_expired, is_early, same_text?, validate_registered_claims,
  checked_subject, checked_roles, authenticated, accept, invalid_token,
}

expires : (i : Instant) (now : ℕ) → is_expired i now ≡ false → (t : ℕ) × (i ≡ finite t) × (now < t)
expires missing now h = absurd (ground arith)
expires (finite t) now h = (t, refl, ground arith)
expires malformed now h = absurd (ground arith)

authenticated_id :
    (is_role : String → Bool) (rbac claim_ok : Bool) (p : JwtPayload) (sub : String)
    (u : AuthenticatedUser)
    → authenticated is_role rbac claim_ok p sub ≡ ok u
    → u.id ≡ sub
unfolding authenticated
authenticated_id is_role false claim_ok p sub u h =
    ap (λ (x : AuthenticatedUser). x.id) (sym (ok-injective h))
authenticated_id is_role true claim_ok p sub u h =
    let (_, _, h1) = bind_ok (raise_if (not claim_ok) invalid_token) _ u h in
    let (_, _, h2) = bind_ok (checked_roles is_role p) _ u h1 in
    ap (λ (x : AuthenticatedUser). x.id) (sym (ok-injective h2))

subject_of :
    (is_blank : String → Bool) (p : JwtPayload) (sub : String)
    → checked_subject is_blank p ≡ ok sub
    → (p.sub ≡ some sub) × (is_blank sub ≡ false)
unfolding checked_subject
subject_of is_blank p sub h = elim (Option-cases p.sub) [
  | inl lost ↦ absurd (ground arith)
  | inr (s, e) ↦
      let (u, given, same) =
        bind_ok (raise_if (is_blank s) invalid_token) _ sub (rw (e, checked_subject) at h) in
      let s_eq : s ≡ sub = ok-injective same in
      (e ∙ ap some s_eq, rw (← s_eq) (raise_if_ok (is_blank s) invalid_token u given))
]

claims_of :
    (c : JwtConfiguration) (p : JwtPayload) (now : ℕ) (u : Unit {0})
    → validate_registered_claims c p now ≡ ok u
    → (p.iss ≡ some c.issuer)
      × (has_expected_audience c p.aud ≡ true)
      × (is_expired p.exp now ≡ false)
      × (is_early p.nbf now ≡ false)
unfolding validate_registered_claims
claims_of c p now u h =
    let (a, named, h1) =
      bind_ok
        (raise_if (not (same_text? p.iss c.issuer) || not (has_expected_audience c p.aud))
          invalid_token)
        _ u h in
    let (b, live, h2) = bind_ok (raise_if (is_expired p.exp now) invalid_token) _ u h1 in
    let ours : (not (same_text? p.iss c.issuer) || not (has_expected_audience c p.aud)) ≡ false =
      raise_if_ok _ invalid_token a named in
    (
      issuer p.iss (ground arith),
      ground arith,
      raise_if_ok _ invalid_token b live,
      raise_if_ok _ invalid_token u h2,
    )
  where
    issuer : (o : Option String) → same_text? o c.issuer ≡ true → o ≡ some c.issuer
    issuer none e = absurd (ground arith)
    issuer (some s) e = ap some (ground (arith, eq_iff s c.issuer))

-- A token is accepted only if it was issued by the configured issuer for the configured audience, expires later than
-- now, is not for a later time, and names a subject that is not blank: the user's id.
pub accept_sound :
    (is_blank is_role : String → Bool) (rbac claim_ok : Bool) (c : JwtConfiguration)
    (p : JwtPayload) (now : ℕ) (u : AuthenticatedUser)
    → accept is_blank is_role rbac claim_ok c p now ≡ ok u
    → (p.iss ≡ some c.issuer)
      × (has_expected_audience c p.aud ≡ true)
      × ((t : ℕ) × (p.exp ≡ finite t) × (now < t))
      × (is_early p.nbf now ≡ false)
      × (p.sub ≡ some u.id)
      × (is_blank u.id ≡ false)
unfolding accept
accept_sound is_blank is_role rbac claim_ok c p now u h =
    let (a, claims, h1) = bind_ok (validate_registered_claims c p now) _ u h in
    let (sub, subject, h2) = bind_ok (checked_subject is_blank p) _ u h1 in
    let (iss, aud, exp, nbf) = claims_of c p now a claims in
    let (named, given) = subject_of is_blank p sub subject in
    let same : u.id ≡ sub = authenticated_id is_role rbac claim_ok p sub u h2 in
    (iss, aud, expires p.exp now exp, nbf, named ∙ ap some (sym same), rw same given)
