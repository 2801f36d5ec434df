-- ===== src/Ingest/Artifact.antt =====
-- `InputArtifact` of crates/aircraft_ingest/src/artifact.rs: the capture of an input into a temporary
-- file, with its length and its digest. An I/O error is the text that it prints as.
pub mod Capture
mod Tests
use Prim.Native.Nat.{ℕ, ◌+◌, ◌*◌, ◌/◌, ◌%◌, ◌^◌}
use mathlib.Core.Bool.{Bool, true, false, not}
use mathlib.Core.Option.{Option, none, some}
use mathlib.Core.List.{List, [], ◌∷◌, ◌++◌}
use aircraft_api_r.Prelude.{Result, ok, err, ltb, if◌then◌else◌, length, take, drop, ◌>>=◌}
use aircraft_api_r.Prelude.Text.{Text, codes}
use aircraft_api_r.Prelude.Text.Decimal.{decimal}
use aircraft_api_r.App.Ingestion.Service.{keep_visible}
use aircraft_api_r.App.Ingestion.Types.{ArtifactDescriptor}

abbrev pub default_max_input_bytes : ℕ
default_max_input_bytes = 512 * 1024 * 1024

pub data ArtifactError : Type 0 where
  open_failed : (locator source : Text) → ArtifactError
  read_failed : Text → ArtifactError
  temporary_file : Text → ArtifactError
  input_too_large : (max_bytes : ℕ) → ArtifactError

unfoldable pub artifact_error_text : ArtifactError → Text
artifact_error_text (open_failed locator source) =
    codes "could not open input " ++ (locator ++ (codes ": " ++ source))
artifact_error_text (read_failed e) = codes "could not read input: " ++ e
artifact_error_text (temporary_file e) =
    codes "could not create or write the secure temporary artifact: " ++ e
artifact_error_text (input_too_large max_bytes) =
    codes "input exceeds configured limit of " ++ (decimal max_bytes ++ codes " bytes")

abbrev hex : Text
hex = codes "0123456789abcdef"

-- An index into the table; a half of a byte is in range.
unfoldable pub hex_char : ℕ → Text
hex_char i = take 1 (drop i hex)

unfoldable pub hex_digest : List ℕ → Text
hex_digest [] = []
hex_digest (byte ∷ bytes) = hex_char (byte / 16) ++ (hex_char (byte % 16) ++ hex_digest bytes)

unfoldable pub sanitize_locator : Text → Text
sanitize_locator locator = take 255 (keep_visible locator)

-- The length as a `u64`.
unfoldable pub checked_add : ℕ → ℕ → Option ℕ
checked_add a b = if ltb (a + b) (2 ^ 64) then some (a + b) else none

-- The descriptor and the temporary file.
pub record InputArtifact (F : Type 0) : Type 0 where
  pub descriptor : ArtifactDescriptor
  pub file : F

-- The temporary files of the system, and the digest of bytes.
pub record Disk (F : Type 0) : Type 0 where
  pub tempfile : Result Text F
  pub write_all : F → List ℕ → Result Text F
  pub flush : F → Result Text F
  pub reopen : F → Result Text (List ℕ)
  pub sha256 : List ℕ → List ℕ
  pub now : ℕ

module _ {F : Type 0} (disk : Disk F) where
  -- The length, the bytes that are hashed and the file.
  abbrev pub Captured : Type 0
  Captured = ℕ × List ℕ × F

  unfoldable pub written : ℕ → List ℕ → Result Text F → Result ArtifactError Captured
  written byte_length hashed (err e) = err (temporary_file e)
  written byte_length hashed (ok file) = ok (byte_length, hashed, file)

  unfoldable pub counted : ℕ → List ℕ → Captured → Option ℕ → Result ArtifactError Captured
  counted max_bytes bytes (byte_length, hashed, file) none = err (input_too_large max_bytes)
  counted max_bytes bytes (byte_length, hashed, file) (some total) =
      if ltb max_bytes total
      then err (input_too_large max_bytes)
      else written total (hashed ++ bytes) (disk.write_all file bytes)

  -- The loop over what the reads yield, which ends with an empty read.
  unfoldable pub capture_loop :
      ℕ → List (Result Text (List ℕ)) → Captured → Result ArtifactError Captured
  capture_loop max_bytes [] state = ok state
  capture_loop max_bytes (err e ∷ reads) state = err (read_failed e)
  capture_loop max_bytes (ok [] ∷ reads) state = ok state
  capture_loop max_bytes (ok (b ∷ bytes) ∷ reads) state =
      counted max_bytes (b ∷ bytes) state (checked_add state.0 (length (b ∷ bytes)))
      >>= capture_loop max_bytes reads

  unfoldable pub flushed :
      Text → ℕ → List ℕ → Result Text F → Result ArtifactError (InputArtifact F)
  flushed locator byte_length hashed (err e) = err (temporary_file e)
  flushed locator byte_length hashed (ok file) = ok (record {
    descriptor = record {
      content_sha256 = hex_digest (disk.sha256 hashed);
      byte_length = byte_length;
      display_locator = sanitize_locator locator;
      captured_at = disk.now;
    };
    file = file;
  })

  unfoldable pub captured_in :
      List (Result Text (List ℕ))
      → Text
      → ℕ
      → Result Text F
      → Result ArtifactError (InputArtifact F)
  captured_in reads locator max_bytes (err e) = err (temporary_file e)
  captured_in reads locator max_bytes (ok file) =
      capture_loop max_bytes reads (0, [], file) >>= λ (byte_length, hashed, f).
      flushed locator byte_length hashed (disk.flush f)

  unfoldable pub capture :
      List (Result Text (List ℕ)) → Text → ℕ → Result ArtifactError (InputArtifact F)
  capture reads locator max_bytes = captured_in reads locator max_bytes disk.tempfile

  unfoldable pub capture_stdin :
      List (Result Text (List ℕ)) → ℕ → Result ArtifactError (InputArtifact F)
  capture_stdin reads max_bytes = capture reads (codes "<stdin>") max_bytes

  abbrev pub locator_of : Option Text → Text
  locator_of none = codes "<file>"
  locator_of (some name) = sanitize_locator name

  -- With the name of the file, and what opening it and reading it yields.
  unfoldable pub capture_path :
      Option Text
      → Result Text (List (Result Text (List ℕ)))
      → ℕ
      → Result ArtifactError (InputArtifact F)
  capture_path name (err source) max_bytes = err (open_failed (locator_of name) source)
  capture_path name (ok reads) max_bytes = capture reads (locator_of name) max_bytes

  unfoldable pub reopened : Result Text (List ℕ) → Result ArtifactError (List ℕ)
  reopened (err e) = err (temporary_file e)
  reopened (ok bytes) = ok bytes

  unfoldable pub reopen : InputArtifact F → Result ArtifactError (List ℕ)
  reopen artifact = reopened (disk.reopen artifact.file)
