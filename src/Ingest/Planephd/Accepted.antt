-- ===== src/Ingest/Planephd/Accepted.antt =====
-- Which documents the preflight of crates/aircraft_ingest/src/planephd.rs accepts, and its errors.
use Prim.Native.Nat.{ℕ, zero, suc, ◌+◌, ◌-◌, ◌≤◌, ◌<◌}
use mathlib.Core.Path.{◌≡◌, refl, sym, subst, ◌∙◌}
use mathlib.Core.Bool.{Bool, true, false, ◌&&◌}
use mathlib.Core.Logic.{◌↔◌, inl, inr}
use mathlib.Core.List.{List, [], ◌∷◌, ◌++◌, append_assoc, append-nil}
use aircraft_api_r.Prelude.{
  arith, ltb, length, length-append, length-take, take, any, All, All-append, Bool-cases,
}
use aircraft_api_r.Prelude.Text.{Text, text_eq}
use aircraft_api_r.App.Ingestion.Record.{IngestIssue, PreparedAircraftRecord}
use aircraft_api_r.App.Ingestion.Service.{is_error}
use aircraft_api_r.Ingest.Planephd.{
  Tally, tally, tally_loop, only, warnings_of, with_errors, with_duplicate, duplicate_key, is_known,
}

abbrev pub total_warnings : List PreparedAircraftRecord → ℕ
total_warnings [] = 0
total_warnings (r ∷ records) = warnings_of r + total_warnings records

-- Every key and a zero.
abbrev pub key_bytes : List PreparedAircraftRecord → Text
key_bytes [] = []
key_bytes (r ∷ records) = (r.source_record_key ++ 0 ∷ []) ++ key_bytes records

abbrev pub NoErrors : PreparedAircraftRecord → Type 0
NoErrors r = any is_error r.issues ≡ false

-- No two records have one key.
abbrev pub DistinctRecords : List PreparedAircraftRecord → Type 0
DistinctRecords [] = Unit
DistinctRecords (r ∷ records) =
    All (λ other. text_eq other.source_record_key r.source_record_key ≡ false) records
    × DistinctRecords records

-- The keys are none of these.
abbrev pub AreNew : List Text → List PreparedAircraftRecord → Type 0
AreNew seen = All (λ r. any (text_eq r.source_record_key) seen ≡ false)

pub tally_loop-counts :
    (t : Tally) (records : List PreparedAircraftRecord)
    → ((tally_loop t records).record_count ≡ t.record_count + length records)
      × ((tally_loop t records).warning_count ≡ t.warning_count + total_warnings records)
      × ((tally_loop t records).record_keys ≡ t.record_keys ++ key_bytes records)
unfolding tally_loop tally
tally_loop-counts t [] = (omega arith, omega arith, sym (append-nil t.record_keys))
tally_loop-counts t (r ∷ records) =
    let ih = tally_loop-counts (tally t r) records in
    (
      omega (arith, ih.0),
      omega (arith, ih.1),
      ih.2 ∙ append_assoc t.record_keys (r.source_record_key ++ 0 ∷ []) (key_bytes records),
    )

only-nil_iff :
    (p : IngestIssue → Bool) (issues : List IngestIssue)
    → (only p issues ≡ []) ↔ (any p issues ≡ false)
only-nil_iff p [] = ground arith
only-nil_iff p (i ∷ issues) = ground (arith, only-nil_iff p issues)

take-nil_iff : (n : ℕ) (issues : List IngestIssue) → 0 < n → (take n issues ≡ []) ↔ (issues ≡ [])
take-nil_iff zero issues h = absurd (omega arith)
take-nil_iff (suc n) [] h = ground arith
take-nil_iff (suc n) (i ∷ issues) h = ground arith

with_errors-nil_iff :
    (errors issues : List IngestIssue)
    → (with_errors errors issues ≡ []) ↔ ((errors ≡ []) × (any is_error issues ≡ false))
unfolding with_errors
with_errors-nil_iff [] issues =
    let shown = take-nil_iff (100 - 0) (only is_error issues) (omega arith) in
    let none_found = only-nil_iff is_error issues in
    ((λ h. (refl, none_found.0 (shown.0 h))), λ h. shown.1 (none_found.1 h.1))
with_errors-nil_iff (e ∷ errors) issues = ground arith

with_duplicate-nil_iff :
    (known : Bool) (key : Text) (errors : List IngestIssue)
    → (with_duplicate known key errors ≡ []) ↔ ((errors ≡ []) × (known ≡ false))
unfolding with_duplicate
with_duplicate-nil_iff known key [] = ground arith
with_duplicate-nil_iff known key (e ∷ errors) = ground arith

All-AreNew_iff :
    (key : Text) (seen : List Text) (records : List PreparedAircraftRecord)
    → AreNew (key ∷ seen) records
      ↔ (All (λ other. text_eq other.source_record_key key ≡ false) records × AreNew seen records)
All-AreNew_iff key seen [] = ground arith
All-AreNew_iff key seen (r ∷ records) = ground (arith, All-AreNew_iff key seen records)

tally-errors_iff :
    (t : Tally) (r : PreparedAircraftRecord)
    → ((tally t r).errors ≡ [])
      ↔ ((t.errors ≡ []) × NoErrors r × (is_known t r.source_record_key ≡ false))
unfolding tally
tally-errors_iff t r =
    let shown = with_errors-nil_iff t.errors r.issues in
    let fresh =
      with_duplicate-nil_iff (is_known t r.source_record_key) r.source_record_key
        (with_errors t.errors r.issues) in
    (
      (λ h. let f = fresh.0 h in let s = shown.0 f.0 in (s.0, s.1, f.1)),
      λ h. fresh.1 (shown.1 (h.0, h.1), h.2),
    )

tally-source_keys :
    (t : Tally) (r : PreparedAircraftRecord)
    → is_known t r.source_record_key ≡ false
    → (tally t r).source_keys ≡ r.source_record_key ∷ t.source_keys
unfolding tally
tally-source_keys t r h = rw h refl

-- The preflight of the records finds no error exactly when there is none and their keys are new
-- and distinct.
pub tally_loop-errors_iff :
    (t : Tally) (records : List PreparedAircraftRecord)
    → ((tally_loop t records).errors ≡ []) ↔ (
        (t.errors ≡ [])
        × All NoErrors records
        × AreNew t.source_keys records
        × DistinctRecords records)
unfolding tally_loop
tally_loop-errors_iff t [] = ground arith
tally_loop-errors_iff t (r ∷ records) =
    let ih = tally_loop-errors_iff (tally t r) records in
    let step = tally-errors_iff t r in
    let keys = All-AreNew_iff r.source_record_key t.source_keys records in
    (
      (λ h.
          let (none_yet, sound, fresh, distinct) = ih.0 h in
          let (before, good, new_key) = step.0 none_yet in
          let (apart, others) =
            keys.0 (subst (λ seen. AreNew seen records) (tally-source_keys t r new_key) fresh) in
          (before, (good, sound), (new_key, others), (apart, distinct))),
      λ (before, (good, sound), (new_key, others), (apart, distinct)). ih.1 (
        step.1 (before, good, new_key),
        sound,
        subst (λ seen. AreNew seen records) (sym (tally-source_keys t r new_key))
            (keys.1 (apart, others)),
        distinct,
      ),
    )

-- At most a hundred errors are kept, and all of them are errors.
abbrev pub Reported : List IngestIssue → Type 0
Reported errors = (length errors ≤ 100) × All (λ i. is_error i ≡ true) errors

All-only : (issues : List IngestIssue) → All (λ i. is_error i ≡ true) (only is_error issues)
All-only [] = tt
All-only (i ∷ issues) = elim (Bool-cases (is_error i)) [
  | inl severe ↦ rw severe (severe, All-only issues)
  | inr mild ↦ rw mild (All-only issues)
]

All-take :
    (n : ℕ) (issues : List IngestIssue)
    → All (λ i. is_error i ≡ true) issues
    → All (λ i. is_error i ≡ true) (take n issues)
All-take zero issues h = tt
All-take (suc n) [] h = tt
All-take (suc n) (i ∷ issues) (severe, h) = (severe, All-take n issues h)

with_errors-Reported :
    (errors issues : List IngestIssue) → Reported errors → Reported (with_errors errors issues)
unfolding with_errors
with_errors-Reported errors issues (short, severe) =
    let more = take (100 - length errors) (only is_error issues) in
    (
      ground (
        arith,
        length-append errors more,
        length-take (100 - length errors) (only is_error issues),
      ),
      All-append (λ i. is_error i ≡ true) errors more severe
          (All-take (100 - length errors) (only is_error issues) (All-only issues)),
    )

with_duplicate-Reported :
    (known : Bool) (key : Text) (errors : List IngestIssue)
    → Reported errors
    → Reported (with_duplicate known key errors)
unfolding with_duplicate duplicate_key
with_duplicate-Reported known key errors (short, severe) =
    elim (Bool-cases (known && ltb (length errors) 100)) [
      | inl added ↦ rw added (
        ground (arith, added, length-append errors (duplicate_key key ∷ [])),
        All-append (λ i. is_error i ≡ true) errors (duplicate_key key ∷ []) severe (refl, tt),
      )
      | inr left ↦ rw left (short, severe)
    ]

pub tally_loop-Reported :
    (t : Tally) (records : List PreparedAircraftRecord)
    → Reported t.errors
    → Reported (tally_loop t records).errors
unfolding tally_loop tally
tally_loop-Reported t [] h = h
tally_loop-Reported t (r ∷ records) h = tally_loop-Reported (tally t r) records (
    with_duplicate-Reported (is_known t r.source_record_key) r.source_record_key
      (with_errors t.errors r.issues) (with_errors-Reported t.errors r.issues h))
