-- ===== src/App/Auth/Issuance/Input.antt =====
-- What `IssueCredential::new` accepts.
use Prim.Native.Nat.{◌≤◌, ◌<◌}
use mathlib.Core.Path.{◌≡◌}
use mathlib.Core.Logic.{◌↔◌}
use mathlib.Core.Bool.{true, not}
use native.Mathlib.Omega.{arith}
use aircraft_api_r.Prelude.{ok, length, any}
use aircraft_api_r.Prelude.Text.{Text, is_whitespace}
use aircraft_api_r.Prelude.Integers.{ℤ, pos, negsuc}
use aircraft_api_r.App.Auth.Issuance.{IssueCredential, issue_credential_new, max_label_chars}

abbrev pub IsPositive : ℤ → Type 0
IsPositive (pos n) = 0 < n
IsPositive (negsuc n) = ⊥

-- A request for a credential is accepted, unchanged, exactly when the principal's identifier is
-- positive and the label has a character that is not white space and at most 200 characters.
pub issue_credential_new_iff :
    (principal_id : ℤ) (label : Text) (r : IssueCredential)
    → (issue_credential_new principal_id label ≡ ok r) ↔ (
        IsPositive principal_id
        × (any (λ c. not (is_whitespace c)) label ≡ true)
        × (length label ≤ max_label_chars)
        × (r ≡ record { principal_id = principal_id; label = label }))
unfolding issue_credential_new
issue_credential_new_iff (pos n) label r = ground arith
issue_credential_new_iff (negsuc n) label r = ground arith
