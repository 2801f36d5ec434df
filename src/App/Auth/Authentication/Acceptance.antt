-- ===== src/App/Auth/Authentication/Acceptance.antt =====
-- Who `AuthenticationService::authenticate` accepts, and how it refuses the others.
use mathlib.Core.Path.{◌≡◌, refl, sym, subst, ◌∙◌}
use mathlib.Core.Logic.{◌↔◌, inl, inr}
use mathlib.Core.Bool.{Bool, true, false, not, ◌&&◌}
use mathlib.Core.Option.{Option, none, some}
use native.Mathlib.Omega.{arith}
use aircraft_api_r.Prelude.{if◌then◌else◌, Result, ok, err, ok_inj, err_ne_ok, Bool-cases}
use aircraft_api_r.App.Persistence.{PersistenceError}
use aircraft_api_r.App.Auth.Credential.{Digests, CredentialCandidate, verifier_eq}
use aircraft_api_r.App.Auth.Authentication.{
  CredentialLookupRecord, AuthenticatedPrincipal, rejected, principal_of, judge, after_lookup,
  authenticate, stored_verifier,
}

-- A live credential of an enabled principal, with the candidate's digest.
abbrev pub Accepts : {Uuid : Type 0} → CredentialCandidate Uuid → CredentialLookupRecord → Type 0
Accepts c r = (c.verifier.digest ≡ r.verifier.digest) × (r.revoked ≡ false) × (r.disabled ≡ false)

-- No row, or one that is not accepted.
abbrev pub Refuses :
    {Uuid : Type 0} → CredentialCandidate Uuid → Option CredentialLookupRecord → Type 0
Refuses c none = Unit
Refuses c (some r) = ¬ Accepts c r

module _ {Uuid : Type 0} (digests : Digests) (c : CredentialCandidate Uuid) where
  abbrev test : CredentialLookupRecord → Bool
  test r = verifier_eq digests c.verifier r.verifier && not r.revoked && not r.disabled

  test_iff : (r : CredentialLookupRecord) → (test r ≡ true) ↔ Accepts c r
  unfolding verifier_eq
  test_iff r = ground (arith, digests.ct_eq_iff c.verifier.digest r.verifier.digest)

  judge-Accepts :
      (r : CredentialLookupRecord)
      → Accepts c r
      → judge (verifier_eq digests c.verifier r.verifier) (some r) ≡ ok (principal_of r)
  unfolding judge
  judge-Accepts r a = rw ((test_iff r).1 a) refl

  judge-ok :
      (r : CredentialLookupRecord) (p : AuthenticatedPrincipal)
      → judge (verifier_eq digests c.verifier r.verifier) (some r) ≡ ok p
      → Accepts c r × (p ≡ principal_of r)
  unfolding judge
  judge-ok r p h = elim (Bool-cases (test r)) [
    | inl accepted ↦ (
      (test_iff r).0 accepted,
      sym (
          ok_inj
            (subst (λ b. (if b then ok (principal_of r) else err rejected) ≡ ok p) accepted h)),
    )
    | inr refused ↦ absurd (
        err_ne_ok (subst (λ b. (if b then ok (principal_of r) else err rejected) ≡ ok p) refused h))
  ]

  judge_rejected_iff :
      (row : Option CredentialLookupRecord)
      → (judge (verifier_eq digests c.verifier (stored_verifier row)) row ≡ err rejected)
        ↔ Refuses c row
  unfolding judge
  judge_rejected_iff none = (λ h. tt, λ h. refl)
  judge_rejected_iff (some r) = elim (Bool-cases (test r)) [
    | inl accepted ↦ (
      λ h. absurd (err_ne_ok (sym h ∙ judge-Accepts r ((test_iff r).0 accepted))),
      λ h. absurd (h ((test_iff r).0 accepted)),
    )
    | inr refused ↦ (λ h a. absurd (ground (arith, (test_iff r).1 a)), λ h. rw refused refl)
  ]

module _ {Uuid : Type 0} (digests : Digests)
    (resolve : Uuid → Result PersistenceError (Option CredentialLookupRecord))
    (c : CredentialCandidate Uuid) where
  after_lookup-ok :
      (answer : Result PersistenceError (Option CredentialLookupRecord))
      (p : AuthenticatedPrincipal)
      → after_lookup digests c answer ≡ ok p
      → (r : CredentialLookupRecord) × (answer ≡ ok (some r)) × Accepts c r × (p ≡ principal_of r)
  unfolding after_lookup judge
  after_lookup-ok (err e) p h = absurd (cc)
  after_lookup-ok (ok none) p h = absurd (cc)
  after_lookup-ok (ok (some r)) p h = let j = judge-ok digests c r p h in (r, refl, j.0, j.1)

  after_lookup-rejected :
      (answer : Result PersistenceError (Option CredentialLookupRecord))
      → after_lookup digests c answer ≡ err rejected
      → (row : Option CredentialLookupRecord) × (answer ≡ ok row) × Refuses c row
  unfolding after_lookup
  after_lookup-rejected (err e) h = absurd (cc)
  after_lookup-rejected (ok row) h = (row, refl, (judge_rejected_iff digests c row).0 h)

  -- A candidate is accepted as a principal exactly when the lookup finds a record with the
  -- candidate's digest, neither revoked nor disabled, and the principal is that record's.
  pub authenticate_ok_iff :
      (p : AuthenticatedPrincipal)
      → (authenticate digests resolve c ≡ ok p) ↔ (
          (r : CredentialLookupRecord) × (resolve c.key_id ≡ ok (some r))
          × Accepts c r
          × (p ≡ principal_of r))
  unfolding authenticate after_lookup
  authenticate_ok_iff p = (
    after_lookup-ok (resolve c.key_id) p,
    λ (r, found, a, same). rw (found, after_lookup, judge-Accepts digests c r a, same) refl,
  )

  -- A candidate is rejected exactly when the lookup answered, and found no record or one that is
  -- revoked, disabled or has another digest.
  pub authenticate_rejected_iff :
      (authenticate digests resolve c ≡ err rejected)
      ↔ ((row : Option CredentialLookupRecord) × (resolve c.key_id ≡ ok row) × Refuses c row)
  unfolding authenticate after_lookup
  authenticate_rejected_iff = (
    after_lookup-rejected (resolve c.key_id),
    λ (row, found, refuses).
        rw (found, after_lookup) ((judge_rejected_iff digests c row).1 refuses),
  )
