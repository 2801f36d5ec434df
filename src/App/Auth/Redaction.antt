-- ===== src/App/Auth/Redaction.antt =====
-- `redact_digest_runs` and `redact_persistence_error` of
-- crates/aircraft_app/src/services/credential_issuance.rs.
use Prim.Native.Nat.{ℕ, suc, ◌+◌, ◌≤◌, ◌<◌}
use mathlib.Core.Path.{◌≡◌, refl, subst, ◌∙◌, ap}
use mathlib.Core.Logic.{inl, inr}
use mathlib.Core.Bool.{true, false}
use mathlib.Core.Option.{Option, none, some}
use mathlib.Core.List.{[], ◌∷◌, ◌++◌, append_assoc, append-nil}
use native.Mathlib.Omega.{arith}
use aircraft_api_r.Prelude.{
  leb, ltb, if◌then◌else◌, leb→le, Bool-cases, length, length-append, All-append,
}
use aircraft_api_r.Prelude.Text.{Text, codes, len, is_ascii_hexdigit}
use aircraft_api_r.App.Persistence.{PersistenceError, database, invariant, IsHex, len_hex}

abbrev pub redacted_hex_run : ℕ
redacted_hex_run = 32

abbrev pub redacted : Text
redacted = codes "[REDACTED]"

-- The closure `flush`, which leaves the run empty.
unfoldable pub flush : Text → Text → Text
flush run output = output ++ (if leb redacted_hex_run (len run) then redacted else run)

-- The loop, with the run and the output so far.
unfoldable pub redact_loop : Text → Text → Text → Text
redact_loop run output [] = flush run output
redact_loop run output (c ∷ rest) = elim (is_ascii_hexdigit c) [
  | true ↦ redact_loop (run ++ c ∷ []) output rest
  | false ↦ redact_loop [] (flush run output ++ c ∷ []) rest
]

unfoldable pub redact_digest_runs : Text → Text
redact_digest_runs message = redact_loop [] [] message

unfoldable pub redact_persistence_error : PersistenceError → PersistenceError
redact_persistence_error (database code message) = database code (redact_digest_runs message)
redact_persistence_error (invariant message) = invariant (redact_digest_runs message)

-- The length of the run at the end of a text that follows a run of `k`, unless some run reaches
-- the limit.
scan : ℕ → Text → Option ℕ
scan k [] = if ltb k redacted_hex_run then some k else none
scan k (c ∷ s) =
    let longer = scan (suc k) s in
    let fresh = scan 0 s in
    if ltb k redacted_hex_run then (if is_ascii_hexdigit c then longer else fresh) else none

scan-append : (k j : ℕ) (s t : Text) → scan k s ≡ some j → scan k (s ++ t) ≡ scan j t
unfolding scan
scan-append k j [] t e = ground arith
scan-append k j (c ∷ s) t e = ground (arith, scan-append (suc k) j s t, scan-append 0 j s t)

scan_hex :
    (k : ℕ) (run : Text)
    → IsHex run
    → k + length run < redacted_hex_run
    → scan k run ≡ some (k + length run)
unfolding scan
scan_hex k [] h lt = ground arith
scan_hex k (c ∷ run) (hex, h) lt = ground (arith, scan_hex (suc k) run h)

scan_long :
    (k : ℕ) (run rest : Text)
    → IsHex run
    → redacted_hex_run ≤ k + length run
    → scan k (run ++ rest) ≡ none
unfolding scan
scan_long k [] [] h le = ground arith
scan_long k [] (c ∷ rest) h le = ground arith
scan_long k (c ∷ run) rest (hex, h) le = ground (arith, scan_long (suc k) run rest h)

scan-prefix : (k j : ℕ) (s t : Text) → scan k (s ++ t) ≡ some j → (i : ℕ) × (scan k s ≡ some i)
unfolding scan
scan-prefix k j [] [] e = (k, ground arith)
scan-prefix k j [] (c ∷ t) e = (k, ground arith)
scan-prefix k j (c ∷ s) t e = elim (Bool-cases (is_ascii_hexdigit c)) [
  | inl hex ↦ let r = scan-prefix (suc k) j s t (ground arith) in (r.0, ground (arith, r.1))
  | inr not_hex ↦ let r = scan-prefix 0 j s t (ground arith) in (r.0, ground (arith, r.1))
]

scan-redacted : (k : ℕ) → k < redacted_hex_run → scan k redacted ≡ some 0
unfolding scan
scan-redacted k h = ground arith

scan-flush :
    (run output : Text)
    → IsHex run
    → scan 0 output ≡ some 0
    → (j : ℕ) × (scan 0 (flush run output) ≡ some j)
unfolding flush
scan-flush run output h e = elim (Bool-cases (leb redacted_hex_run (len run))) [
  | inl long ↦ (0, rw (long, scan-append 0 0 output redacted e) (scan-redacted 0 (omega arith)))
  | inr short ↦ (
    length run,
    rw (short, scan-append 0 0 output run e)
        (scan_hex 0 run h (ground (arith, len_hex run h)) ∙ ap some (omega arith)),
  )
]

scan-lt : (k j : ℕ) (s : Text) → scan k s ≡ some j → j < redacted_hex_run
unfolding scan
scan-lt k j [] e = ground arith
scan-lt k j (c ∷ s) e = ground (arith, scan-lt (suc k) j s, scan-lt 0 j s)

scan-close :
    (j c : ℕ) (s : Text)
    → scan 0 s ≡ some j
    → is_ascii_hexdigit c ≡ false
    → scan 0 (s ++ c ∷ []) ≡ some 0
unfolding scan
scan-close j c s e not_hex = rw (scan-append 0 j s (c ∷ []) e) (ground (arith, scan-lt 0 j s e))

redact_loop_hex :
    (run output rest : Text) (c : ℕ)
    → is_ascii_hexdigit c ≡ true
    → redact_loop run output (c ∷ rest) ≡ redact_loop (run ++ c ∷ []) output rest
unfolding redact_loop
redact_loop_hex run output rest c hex = rw (redact_loop, hex) refl

redact_loop_close :
    (run output rest : Text) (c : ℕ)
    → is_ascii_hexdigit c ≡ false
    → redact_loop run output (c ∷ rest) ≡ redact_loop [] (flush run output ++ c ∷ []) rest
unfolding redact_loop
redact_loop_close run output rest c not_hex = rw (redact_loop, not_hex) refl

IsHex-snoc : (run : Text) (c : ℕ) → IsHex run → is_ascii_hexdigit c ≡ true → IsHex (run ++ c ∷ [])
IsHex-snoc run c h hex = All-append (λ x. is_ascii_hexdigit x ≡ true) run (c ∷ []) h (hex, tt)

scan-redact_loop :
    (run output message : Text)
    → IsHex run
    → scan 0 output ≡ some 0
    → (j : ℕ) × (scan 0 (redact_loop run output message) ≡ some j)
unfolding redact_loop
scan-redact_loop run output [] h e = scan-flush run output h e
scan-redact_loop run output (c ∷ rest) h e = elim (Bool-cases (is_ascii_hexdigit c)) [
  | inl hex ↦
      rw (redact_loop_hex run output rest c hex)
        (scan-redact_loop (run ++ c ∷ []) output rest (IsHex-snoc run c h hex) e)
  | inr not_hex ↦
      let f = scan-flush run output h e in
      rw (redact_loop_close run output rest c not_hex) (
        scan-redact_loop [] (flush run output ++ c ∷ []) rest tt
          (scan-close f.0 c (flush run output) f.1 not_hex))
]

-- In a redacted message every run of hexadecimal digits is shorter than 32.
pub redact_digest_runs-run_lt :
    (message before run after : Text)
    → IsHex run
    → redact_digest_runs message ≡ before ++ (run ++ after)
    → length run < redacted_hex_run
unfolding redact_digest_runs scan
redact_digest_runs-run_lt message before run after h e = elim (Bool-cases (leb 32 (length run))) [
  | inl long ↦
      let r = scan-redact_loop [] [] message tt refl in
      let p = scan-prefix 0 r.0 before (run ++ after) (subst (λ x. scan 0 x ≡ some r.0) e r.1) in
      absurd (
        grind (
          arith,
          r.1,
          scan-append 0 p.0 before (run ++ after) p.1,
          scan_long p.0 run after h (omega (arith, leb→le 32 (length run) long)),
          e,
        ))
  | inr short ↦ ground arith
]

flush_short :
    (run output : Text)
    → IsHex run
    → length run < redacted_hex_run
    → flush run output ≡ output ++ run
unfolding flush
flush_short run output h lt = ground (arith, len_hex run h)

redact_loop-keeps :
    (run output message : Text) (j : ℕ)
    → IsHex run
    → scan (length run) message ≡ some j
    → redact_loop run output message ≡ output ++ (run ++ message)
unfolding redact_loop scan
redact_loop-keeps run output [] j h e =
    rw (redact_loop, append-nil) (flush_short run output h (ground arith))
redact_loop-keeps run output (c ∷ rest) j h e = elim (Bool-cases (is_ascii_hexdigit c)) [
  | inl hex ↦
      rw
        (
          redact_loop_hex run output rest c hex,
          redact_loop-keeps (run ++ c ∷ []) output rest j (IsHex-snoc run c h hex)
              (ground (arith, length-append run (c ∷ []))),
        )
        (ap (λ x. output ++ x) (append_assoc run (c ∷ []) rest))
  | inr not_hex ↦
      rw
        (
          redact_loop_close run output rest c not_hex,
          redact_loop-keeps [] (flush run output ++ c ∷ []) rest j tt (ground arith),
          flush_short run output h (ground arith),
        )
        (append_assoc (output ++ run) (c ∷ []) rest ∙ append_assoc output run (c ∷ rest))
]

-- Redacting a redacted message again changes nothing.
pub redact_digest_runs_idem :
    (message : Text) → redact_digest_runs (redact_digest_runs message) ≡ redact_digest_runs message
unfolding redact_digest_runs scan
redact_digest_runs_idem message =
    let r = scan-redact_loop [] [] message tt refl in
    redact_loop-keeps [] [] (redact_loop [] [] message) r.0 tt r.1
