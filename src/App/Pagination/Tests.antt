-- ===== src/App/Pagination/Tests.antt =====
-- Paging through three rows, and the theorems at concrete inputs.
use Prim.Native.Nat.{ℕ, ◌≤◌}
use mathlib.Core.Path.{◌≡◌, refl, ap, subst}
use mathlib.Core.Option.{Option, none, some}
use mathlib.Core.List.{List, [], ◌∷◌, ◌++◌}
use native.Mathlib.Omega.{arith}
use aircraft_api_r.Prelude.{length, take, drop}
use aircraft_api_r.App.Pagination.Scan.{Keyset, scan, scan_complete}

-- The rows, each its own key: its position.
abbrev rows : List ℕ
rows = 1 ∷ 2 ∷ 3 ∷ []

abbrev fetch : Option ℕ → ℕ → List ℕ
fetch none n = take n rows
fetch (some k) n = take n (drop k rows)

head_eq : (a b : ℕ) (s t : List ℕ) → Path (List ℕ) (a ∷ s) (b ∷ t) → (a ≡ b) × (s ≡ t)
head_eq a b s t e = (cc, cc)

rest_of : (earlier later : List ℕ) (x : ℕ) → rows ≡ earlier ++ x ∷ later → drop x rows ≡ later
rest_of [] later x e =
    let h = head_eq 1 x (2 ∷ 3 ∷ []) later e in subst (λ k. drop k rows ≡ later) h.0 h.1
rest_of (a ∷ []) later x e =
    let h = head_eq 2 x (3 ∷ []) later (head_eq 1 a (2 ∷ 3 ∷ []) (x ∷ later) e).1 in
    subst (λ k. drop k rows ≡ later) h.0 h.1
rest_of (a ∷ b ∷ []) later x e =
    let t = (head_eq 1 a (2 ∷ 3 ∷ []) (b ∷ x ∷ later) e).1 in
    let h = head_eq 3 x [] later (head_eq 2 b (3 ∷ []) (x ∷ later) t).1 in
    subst (λ k. drop k rows ≡ later) h.0 h.1
rest_of (a ∷ b ∷ c ∷ earlier) later x e =
    absurd (ground (arith, length-append_three earlier later x, ap length e))
  where
    length-append_three : (s t : List ℕ) (x : ℕ) → 1 ≤ length (s ++ x ∷ t)
    length-append_three [] t x = omega arith
    length-append_three (y ∷ s) t x = omega arith

keyset : Keyset (λ (x : ℕ). x) (record { get = 1 }) rows fetch
keyset = record {
  start = λ n. refl;
  resume = λ earlier later x n e. ap (take n) (rest_of earlier later x e);
}

scan_complete_example : scan (λ (x : ℕ). x) (record { get = 1 }) fetch 4 none ≡ rows
scan_complete_example =
    scan_complete (λ x. x) (record { get = 1 }) (omega arith) (omega arith) rows fetch 4 keyset
      (omega arith)
