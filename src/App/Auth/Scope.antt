-- ===== src/App/Auth/Scope.antt =====
-- The scope vocabulary: `Scope` of crates/aircraft_app/src/services/authentication.rs.
use mathlib.Core.Path.{◌≡◌, refl}
use mathlib.Core.Logic.{◌↔◌, inl, inr}
use mathlib.Core.Bool.{Bool, true, false}
use mathlib.Core.List.{List, [], ◌∷◌}
use native.Mathlib.Omega.{arith}
use aircraft_api_r.Prelude.{Result, ok, ok_or, Option-cases, find, find-some, any}
use aircraft_api_r.Prelude.Text.{Text, codes, text_eq, text_eq_iff}

pub data Scope : Type 0 where
  catalog_read : Scope
  military_read : Scope
  curation_read : Scope
  curation_write : Scope
  admin : Scope

abbrev pub all_scopes : List Scope
all_scopes = catalog_read ∷ military_read ∷ curation_read ∷ curation_write ∷ admin ∷ []

abbrev pub code : Scope → Text
code catalog_read = codes "CATALOG_READ"
code military_read = codes "MILITARY_READ"
code curation_read = codes "CURATION_READ"
code curation_write = codes "CURATION_WRITE"
code admin = codes "ADMIN"

pub data UnknownScope : Type 0 where
  unknown_scope : UnknownScope

unfoldable pub scope_try_from : Text → Result UnknownScope Scope
scope_try_from t = ok_or (find (λ scope. text_eq (code scope) t) all_scopes) unknown_scope

-- The derived equality.
unfoldable pub scope_eq : Scope → Scope → Bool
scope_eq catalog_read catalog_read = true
scope_eq military_read military_read = true
scope_eq curation_read curation_read = true
scope_eq curation_write curation_write = true
scope_eq admin admin = true
scope_eq _ _ = false

scope_eq_refl : (s : Scope) → scope_eq s s ≡ true
unfolding scope_eq
scope_eq_refl catalog_read = refl
scope_eq_refl military_read = refl
scope_eq_refl curation_read = refl
scope_eq_refl curation_write = refl
scope_eq_refl admin = refl

scope_try_from-code : (s : Scope) → scope_try_from (code s) ≡ ok s
unfolding scope_try_from find text_eq
scope_try_from-code catalog_read = refl
scope_try_from-code military_read = refl
scope_try_from-code curation_read = refl
scope_try_from-code curation_write = refl
scope_try_from-code admin = refl

scope_try_from-ok : (t : Text) (s : Scope) → scope_try_from t ≡ ok s → t ≡ code s
unfolding scope_try_from
scope_try_from-ok t s e = elim (Option-cases (find (λ scope. text_eq (code scope) t) all_scopes)) [
  | inl none_found ↦ absurd (ground arith)
  | inr (found, e') ↦
      let m = find-some (λ scope. text_eq (code scope) t) all_scopes found e' in
      let eq = (text_eq_iff (code found) t).0 m in grind (arith, eq, e', e)
]

-- A code is read as a scope exactly when it is that scope's spelling.
pub scope_try_from_iff : (t : Text) (s : Scope) → (scope_try_from t ≡ ok s) ↔ (t ≡ code s)
scope_try_from_iff t s = (scope_try_from-ok t s, λ e. rw e (scope_try_from-code s))

-- `[Scope]::contains`
abbrev pub has_scope : Scope → List Scope → Bool
has_scope required scopes = any (scope_eq required) scopes
