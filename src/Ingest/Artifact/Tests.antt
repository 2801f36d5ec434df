-- ===== src/Ingest/Artifact/Tests.antt =====
-- A capture into a file that is the list of its bytes, and the theorem at a concrete input.
use mathlib.Core.Path.{◌≡◌, refl}
use mathlib.Core.List.{List, [], ◌∷◌, ◌++◌, append_assoc, append-nil}
use Prim.Native.Nat.{ℕ}
use aircraft_api_r.Prelude.{arith, ok}
use aircraft_api_r.Prelude.Text.{codes}
use aircraft_api_r.Ingest.Artifact.{Disk, capture}
use aircraft_api_r.Ingest.Artifact.Capture.{reads_of, held, capture-within}

abbrev disk : Disk (List ℕ)
disk = record {
  tempfile = ok [];
  write_all = λ file bytes. ok (file ++ bytes);
  flush = λ file. ok file;
  reopen = λ file. ok file;
  sha256 = λ bytes. bytes;
  now = 7;
}

abbrev chunks : List (List ℕ)
chunks = (1 ∷ 2 ∷ []) ∷ (3 ∷ []) ∷ []

capture-within_example :
    capture disk (reads_of chunks) (codes "f.json") 3
    ≡ ok (held disk (λ file bytes. file ++ bytes) chunks (codes "f.json") [])
capture-within_example =
    capture-within disk (λ file bytes. file ++ bytes) chunks (codes "f.json") 3 [] (omega arith)
      (refl, (refl, tt)) ((λ file bytes. refl), append-nil, λ file a b. append_assoc file a b) refl
      (λ file. refl)
