-- ===== src/Api/Shutdown/Latched.antt =====
-- What holds of the shutdown state of crates/aircraft_api/src/shutdown.rs along any run.
use Prim.Native.Nat.{ℕ, suc, ◌≤◌, ◌<◌, ◌^◌}
use mathlib.Core.Path.{◌≡◌, refl}
use mathlib.Core.Logic.{inl, inr}
use mathlib.Core.Bool.{true}
use aircraft_api_r.Prelude.{arith, ltb, Bool-cases}
use aircraft_api_r.Api.Shutdown.{
  Phase, draining, cancelled, rank, ShutdownState, initial, advance_to, begin_draining, cancel,
  has_reached, enter, leave,
}

-- One operation, with the number of guards that are alive before and after it. A guard is dropped
-- once, and there are fewer guards than a `usize` counts.
pub data Step : ShutdownState → ℕ → ShutdownState → ℕ → Type 0 where
  entering : {s : ShutdownState} {n : ℕ} → suc n < 2 ^ 64 → Step s n (enter s) (suc n)
  leaving : {s : ShutdownState} {n : ℕ} → Step s (suc n) (leave s) n
  signalled : {s : ShutdownState} {n : ℕ} → Step s n (begin_draining s) n
  expired : {s : ShutdownState} {n : ℕ} → Step s n (cancel s) n

pub data Steps (s : ShutdownState) (n : ℕ) : ShutdownState → ℕ → Type 0 where
  done : Steps s n s n
  further : {t u : ShutdownState} {m k : ℕ} → Steps s n t m → Step t m u k → Steps s n u k

-- The count is that of the guards, which a `usize` holds.
abbrev pub IsCounted : ShutdownState → ℕ → Type 0
IsCounted s n = (s.in_flight ≡ n) × (n < 2 ^ 64)

enter-IsCounted :
    (s : ShutdownState) (n : ℕ) → suc n < 2 ^ 64 → IsCounted s n → IsCounted (enter s) (suc n)
unfolding enter
enter-IsCounted s n h (e, lt) = (omega (arith, h, e), h)

leave-IsCounted : (s : ShutdownState) (n : ℕ) → IsCounted s (suc n) → IsCounted (leave s) n
unfolding leave
leave-IsCounted s n (e, lt) = (omega (arith, e, lt), omega (arith, lt))

advance_to-IsCounted :
    (p : Phase) (s : ShutdownState) (n : ℕ) → IsCounted s n → IsCounted (advance_to p s) n
unfolding advance_to
advance_to-IsCounted p s n h = elim (Bool-cases (ltb (rank s.phase) (rank p))) [
  | inl later ↦ rw later h
  | inr not_later ↦ rw not_later h
]

advance_to-rank :
    (p : Phase) (s : ShutdownState)
    → (rank s.phase ≤ rank (advance_to p s).phase) × (rank p ≤ rank (advance_to p s).phase)
unfolding advance_to
advance_to-rank p s = elim (Bool-cases (ltb (rank s.phase) (rank p))) [
  | inl later ↦ rw later (ground (arith, later), omega arith)
  | inr not_later ↦ rw not_later (omega arith, ground (arith, not_later))
]

Step-IsCounted : {s t : ShutdownState} {n m : ℕ} → Step s n t m → IsCounted s n → IsCounted t m
unfolding begin_draining cancel
Step-IsCounted (entering {s} {n} h) k = enter-IsCounted s n h k
Step-IsCounted (leaving {s} {n}) k = leave-IsCounted s n k
Step-IsCounted (signalled {s} {n}) k = advance_to-IsCounted draining s n k
Step-IsCounted (expired {s} {n}) k = advance_to-IsCounted cancelled s n k

Step-rank : {s t : ShutdownState} {n m : ℕ} → Step s n t m → rank s.phase ≤ rank t.phase
unfolding enter leave begin_draining cancel
Step-rank (entering h) = omega arith
Step-rank leaving = omega arith
Step-rank (signalled {s} {n}) = (advance_to-rank draining s).0
Step-rank (expired {s} {n}) = (advance_to-rank cancelled s).0

Steps-IsCounted :
    {s : ShutdownState} {n : ℕ} {t : ShutdownState} {m : ℕ}
    → Steps s n t m
    → IsCounted s n
    → IsCounted t m × (rank s.phase ≤ rank t.phase)
Steps-IsCounted done h = (h, omega arith)
Steps-IsCounted (further steps step) h =
    let ih = Steps-IsCounted steps h in
    (Step-IsCounted step ih.0, omega (arith, ih.1, Step-rank step))

-- In any run of the shutdown state from its start, in which guards are dropped once and are fewer
-- than a `usize` counts, a phase that was once signalled is reached at every later point,
-- whatever else happens, and the count of requests is that of the guards that are alive.
pub advance_to-has_reached :
    (p : Phase) {s t : ShutdownState} {n m : ℕ}
    → Steps initial 0 s n
    → Steps (advance_to p s) n t m
    → (has_reached p t ≡ true) × (t.in_flight ≡ m)
unfolding has_reached
advance_to-has_reached p {s = s} {n = n} before after =
    let start = (Steps-IsCounted before (refl, omega arith)).0 in
    let end = Steps-IsCounted after (advance_to-IsCounted p s n start) in
    let reached = (advance_to-rank p s).1 in (ground (arith, reached, end.1), end.0.0)
