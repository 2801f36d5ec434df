-- ===== src/Ingest/Artifact/Capture.antt =====
-- What `InputArtifact::capture` holds, however the reads split the input.
use Prim.Native.Nat.{ℕ, zero, suc, ◌+◌, ◌/◌, ◌%◌, ◌^◌, ◌<◌, ◌≤◌}
use native.Mathlib.Nat.{add_assoc}
use mathlib.Core.Path.{◌≡◌, refl, ap, ◌∙◌}
use mathlib.Core.Bool.{Bool, true, false, ◌&&◌}
use mathlib.Core.Logic.{inl, inr}
use mathlib.Core.List.{List, [], ◌∷◌, ◌++◌, append_assoc, append-nil}
use aircraft_api_r.Prelude.{
  arith, Result, ok, err, leb, if◌then◌else◌, length, length-append, Bool-cases, leb→le, ◌==◌,
  ==_iff, All, map,
}
use aircraft_api_r.Prelude.Text.{Text, is_empty, text_eq, text_eq_iff}
use aircraft_api_r.App.Persistence
use aircraft_api_r.App.Persistence.{IsBytes}
use aircraft_api_r.Ingest.Artifact.{
  Disk, InputArtifact, ArtifactError, input_too_large, capture_loop, counted, written, checked_add,
  flushed, captured_in, capture, hex_digest, hex_char, sanitize_locator,
}

-- The bytes of all reads.
abbrev pub joined : List (List ℕ) → List ℕ
joined [] = []
joined (chunk ∷ chunks) = chunk ++ joined chunks

-- Reads that yield these bytes, none of them empty.
abbrev pub reads_of : List (List ℕ) → List (Result Text (List ℕ))
reads_of chunks = map (λ chunk. ok chunk) chunks

abbrev pub AreReads : List (List ℕ) → Type 0
AreReads = All (λ chunk. is_empty chunk ≡ false)

abbrev all_below : (ℕ → Bool) → ℕ → Bool
all_below p zero = true
all_below p (suc n) = p n && all_below p n

all_below_lem : (p : ℕ → Bool) (k n : ℕ) → all_below p k ≡ true → n < k → p n ≡ true
all_below_lem p zero n h lt = absurd (omega arith)
all_below_lem p (suc k) n h lt = elim (Bool-cases (n == k)) [
  | inl last ↦ let same = (==_iff n k).0 last in rw same (ground (arith, h))
  | inr less ↦ all_below_lem p k n (ground (arith, h)) (ground (arith, less))
]

abbrev prints_alike : ℕ → Bool
prints_alike n = text_eq (hex_char n) (Persistence.hex_digit n ∷ [])

halves-all_below : all_below prints_alike 16 ≡ true
unfolding hex_char text_eq
halves-all_below = refl

hex_char-hex_digit : (n : ℕ) → n < 16 → hex_char n ≡ Persistence.hex_digit n ∷ []
hex_char-hex_digit n h =
    (text_eq_iff (hex_char n) (Persistence.hex_digit n ∷ [])).0
      (all_below_lem prints_alike 16 n halves-all_below h)

-- The two functions that print a digest agree.
pub hex_digest-hex_digest :
    (bytes : List ℕ) → IsBytes bytes → hex_digest bytes ≡ Persistence.hex_digest bytes
unfolding hex_digest Persistence.hex_digest
hex_digest-hex_digest [] h = refl
hex_digest-hex_digest (byte ∷ bytes) (lt, h) =
    rw
      (
        hex_char-hex_digit (byte / 16) (omega arith),
        hex_char-hex_digit (byte % 16) (omega arith),
        hex_digest-hex_digest bytes h,
      )
      refl

module _ {F : Type 0} (disk : Disk F) (append : F → List ℕ → F) where
  -- A write puts the bytes at the end of the file.
  abbrev pub Appends : Type 0
  Appends =
      ((f : F) (bytes : List ℕ) → disk.write_all f bytes ≡ ok (append f bytes))
      × ((f : F) → append f [] ≡ f)
      × ((f : F) (a b : List ℕ) → append (append f a) b ≡ append f (a ++ b))

  abbrev pub within {ℓ} : {A : Type ℓ} → ℕ → ℕ → A → Result ArtifactError A
  within max_bytes total a = if leb total max_bytes then ok a else err (input_too_large max_bytes)

  -- The artifact that holds these bytes.
  abbrev pub held : List (List ℕ) → Text → F → InputArtifact F
  held chunks locator empty = record {
    descriptor = record {
      content_sha256 = hex_digest (disk.sha256 (joined chunks));
      byte_length = length (joined chunks);
      display_locator = sanitize_locator locator;
      captured_at = disk.now;
    };
    file = append empty (joined chunks);
  }

  counted_step :
      (max_bytes : ℕ) (bytes : List ℕ) (total : ℕ) (hashed : List ℕ) (file : F)
      → max_bytes < 2 ^ 64
      → Appends
      → counted disk max_bytes bytes (total, hashed, file) (checked_add total (length bytes))
        ≡ within max_bytes
            (total + length bytes)
            (total + length bytes, hashed ++ bytes, append file bytes)
  unfolding counted checked_add written
  counted_step max_bytes bytes total hashed file h laws =
      let write = laws.0 file bytes in ground (arith, write)

  capture_loop-within :
      (max_bytes : ℕ) (chunks : List (List ℕ)) (total : ℕ) (hashed : List ℕ) (file : F)
      → max_bytes < 2 ^ 64
      → total ≤ max_bytes
      → AreReads chunks
      → Appends
      → capture_loop disk max_bytes (reads_of chunks) (total, hashed, file)
        ≡ within max_bytes
            (total + length (joined chunks))
            (total + length (joined chunks), hashed ++ joined chunks, append file (joined chunks))
  unfolding capture_loop
  capture_loop-within max_bytes [] total hashed file h le reads laws =
      let none_left = laws.1 file in ground (arith, none_left, append-nil hashed)
  capture_loop-within max_bytes ([] ∷ chunks) total hashed file h le (empty, reads) laws =
      absurd (ground (arith, empty))
  capture_loop-within max_bytes ((b ∷ bytes) ∷ chunks) total hashed file h le (filled, reads) laws =
      let chunk = b ∷ bytes in
      let step = counted_step max_bytes chunk total hashed file h laws in
      let size = length-append chunk (joined chunks) in
      elim (Bool-cases (leb (total + length chunk) max_bytes)) [
        | inl fits ↦
            rw (step, fits)
              (capture_loop-within max_bytes chunks (total + length chunk) (hashed ++ chunk)
                  (append file chunk) h (leb→le (total + length chunk) max_bytes fits) reads laws
                ∙ rw
                    (
                      append_assoc hashed chunk (joined chunks),
                      laws.2 file chunk (joined chunks),
                      size,
                      add_assoc total (length chunk) (length (joined chunks)),
                    )
                    refl)
        | inr beyond ↦ rw (step, beyond) (ground (arith, size, beyond))
      ]

  captured_in-within :
      (chunks : List (List ℕ)) (locator : Text) (max_bytes : ℕ) (empty : F)
      → max_bytes < 2 ^ 64
      → AreReads chunks
      → Appends
      → ((f : F) → disk.flush f ≡ ok f)
      → captured_in disk (reads_of chunks) locator max_bytes (ok empty)
        ≡ within max_bytes (length (joined chunks)) (held chunks locator empty)
  unfolding captured_in flushed
  captured_in-within chunks locator max_bytes empty h reads laws flushes =
      let nothing : 0 + length (joined chunks) ≡ length (joined chunks) = omega arith in
      rw (capture_loop-within max_bytes chunks 0 [] empty h (omega arith) reads laws, nothing)
        (elim (Bool-cases (leb (length (joined chunks)) max_bytes)) [
          | inl fits ↦ rw fits (
              ap (flushed disk locator (length (joined chunks)) (joined chunks))
                (flushes (append empty (joined chunks))))
          | inr beyond ↦ rw beyond refl
        ])

  -- However its reads split an input into pieces that are not empty, the capture is refused as
  -- too large exactly when the bytes are more than the limit, and else holds their number, the
  -- digest and the bytes of all: provided the limit is a `u64`, the reads do not fail, writing
  -- appends, and the file is made and flushed.
  pub capture-within :
      (chunks : List (List ℕ)) (locator : Text) (max_bytes : ℕ) (empty : F)
      → max_bytes < 2 ^ 64
      → AreReads chunks
      → Appends
      → disk.tempfile ≡ ok empty
      → ((f : F) → disk.flush f ≡ ok f)
      → capture disk (reads_of chunks) locator max_bytes
        ≡ within max_bytes (length (joined chunks)) (held chunks locator empty)
  unfolding capture
  capture-within chunks locator max_bytes empty h reads laws made flushes =
      ap (captured_in disk (reads_of chunks) locator max_bytes) made
      ∙ captured_in-within chunks locator max_bytes empty h reads laws flushes
