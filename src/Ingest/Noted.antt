-- ===== src/Ingest/Noted.antt =====
-- A value with the issues that were raised on the way to it. The source pushes to one list that it
-- hands to every helper; a helper only adds to its end.
use mathlib.Core.Path.{◌≡◌, refl, ◌∙◌}
use mathlib.Core.Bool.{Bool, true, false, ◌||◌}
use mathlib.Core.Option.{Option, none, some}
use mathlib.Core.List.{List, [], ◌∷◌, ◌++◌}
use native.Mathlib.Omega.{arith}
use aircraft_api_r.Prelude.{any}
use aircraft_api_r.App.Ingestion.Record.{IngestIssue}
use aircraft_api_r.App.Ingestion.Service.{is_error}

abbrev pub Noted {ℓ} : Type ℓ → Type ℓ
Noted A = A × List IngestIssue

abbrev pub pure {ℓ} : {A : Type ℓ} → A → Noted A
pure a = (a, [])

infixl 5 ◌>>=◌ ◌>>◌
unfoldable pub ◌>>=◌ {ℓ κ} : {A : Type ℓ} {B : Type κ} → Noted A → (A → Noted B) → Noted B
(a, raised) >>= next = let (b, more) = next a in (b, raised ++ more)

abbrev pub ◌>>◌ {ℓ} : {B : Type ℓ} → Noted (Unit {0}) → Noted B → Noted B
first >> second = first >>= λ done. second

abbrev pub note : IngestIssue → Noted (Unit {0})
note i = (tt, i ∷ [])

abbrev pub note_if : Bool → IngestIssue → Noted (Unit {0})
note_if true i = note i
note_if false i = pure tt

-- An absent value, and the issue that says why.
abbrev pub absent {ℓ} : {A : Type ℓ} → IngestIssue → Noted (Option A)
absent i = (none, i ∷ [])

-- `value?`, and the rest of the function on what is there.
abbrev pub when_some {ℓ κ} :
    {A : Type ℓ} {B : Type κ} → Option A → (A → Noted (Option B)) → Noted (Option B)
when_some none next = pure none
when_some (some a) next = next a

-- No issue that was raised is an error.
pub record IsQuiet {ℓ} {A : Type ℓ} (m : Noted A) : Type 0 where
  pub quiet : any is_error m.1 ≡ false

any-append :
    (xs ys : List IngestIssue) → any is_error (xs ++ ys) ≡ (any is_error xs || any is_error ys)
any-append [] ys = refl
any-append (x ∷ xs) ys = ground (arith, any-append xs ys)

pub IsQuiet-pure {ℓ} : {A : Type ℓ} (a : A) → IsQuiet (pure a)
IsQuiet-pure a = record { quiet = refl }

-- After quiet work the errors are those of what follows.
pub errors->>= {ℓ κ} :
    {A : Type ℓ} {B : Type κ} (m : Noted A) (next : A → Noted B)
    → IsQuiet m
    → any is_error (m >>= next).1 ≡ any is_error (next m.0).1
unfolding ◌>>=◌
errors->>= (a, raised) next q = rw (any-append raised (next a).1, q.quiet) refl

pub IsQuiet->>= {ℓ κ} :
    {A : Type ℓ} {B : Type κ} (m : Noted A) (next : A → Noted B)
    → IsQuiet m
    → ((a : A) → IsQuiet (next a))
    → IsQuiet (m >>= next)
IsQuiet->>= m next q k = record { quiet = errors->>= m next q ∙ (k m.0).quiet }

pub IsQuiet-note_if : (b : Bool) (i : IngestIssue) → is_error i ≡ false → IsQuiet (note_if b i)
IsQuiet-note_if true i h = record { quiet = rw h refl }
IsQuiet-note_if false i h = record { quiet = refl }

pub IsQuiet-absent {ℓ} :
    {A : Type ℓ} (i : IngestIssue) → is_error i ≡ false → IsQuiet (absent {A = A} i)
IsQuiet-absent i h = record { quiet = rw h refl }

pub IsQuiet-when_some {ℓ κ} :
    {A : Type ℓ} {B : Type κ} (o : Option A) (next : A → Noted (Option B))
    → ((a : A) → IsQuiet (next a))
    → IsQuiet (when_some o next)
IsQuiet-when_some none next k = record { quiet = refl }
IsQuiet-when_some (some a) next k = k a

-- The errors of either of two steps.
pub errors-or {ℓ κ} :
    {A : Type ℓ} {B : Type κ} (m : Noted A) (next : A → Noted B)
    → any is_error (m >>= next).1 ≡ (any is_error m.1 || any is_error (next m.0).1)
unfolding ◌>>=◌
errors-or (a, raised) next = any-append raised (next a).1

pub value->>= {ℓ κ} :
    {A : Type ℓ} {B : Type κ} (m : Noted A) (next : A → Noted B) → (m >>= next).0 ≡ (next m.0).0
unfolding ◌>>=◌
value->>= (a, raised) next = refl

-- The rules for a `do` block.
pub ruleset quiet_steps =
    (IsQuiet->>=, IsQuiet-pure, IsQuiet-note_if, IsQuiet-absent, IsQuiet-when_some, refl)
