-- ===== src/Ingest/Fields/Quiet.antt =====
-- The readers of fields raise no errors.
use mathlib.Core.Path.{◌≡◌, refl}
use mathlib.Core.Bool.{false}
use mathlib.Core.Option.{Option, none, some}
use aircraft_api_r.Prelude.Dict.{lookup}
use aircraft_api_r.Prelude.Text.{Text, Text-Eq}
use aircraft_api_r.Prelude.Integers.{ℤ}
use aircraft_api_r.Prelude.Json.{Value, null, bool, string}
use aircraft_api_r.App.Ingestion.Record.{IngestIssue}
use aircraft_api_r.App.Ingestion.Service.{is_error}
use aircraft_api_r.Ingest.Noted.{IsQuiet, IsQuiet-absent, quiet_steps}
use aircraft_api_r.Ingest.Fields.{
  Object, scalar, nested, nested_value, or_note, integer, numeric, numeric_integer, boolean,
  boolean_value,
}

module _ (json_text : Value → Text) where
  pub IsQuiet-scalar : (v : Option Value) (field : Text) → IsQuiet (scalar json_text v field)
  unfolding scalar
  IsQuiet-scalar none field = record { quiet = refl }
  IsQuiet-scalar (some null) field = record { quiet = refl }
  IsQuiet-scalar (some _) field = record { quiet = refl }

  pub IsQuiet-or_note :
      {A : Type 0} (o : Option A) (i : IngestIssue)
      → is_error i ≡ false
      → IsQuiet (or_note json_text o i)
  unfolding or_note
  IsQuiet-or_note none i h = IsQuiet-absent i h
  IsQuiet-or_note (some a) i h = record { quiet = refl }

  IsQuiet-nested_value :
      (field : Text) (v : Option Value) → IsQuiet (nested_value json_text field v)
  unfolding nested_value
  IsQuiet-nested_value field none = record { quiet = refl }
  IsQuiet-nested_value field (some null) = record { quiet = refl }
  IsQuiet-nested_value field (some _) = record { quiet = refl }

  pub IsQuiet-nested : (fields : Object) (field : Text) → IsQuiet (nested json_text fields field)
  unfolding nested
  IsQuiet-nested fields field = IsQuiet-nested_value field (lookup field fields)

  ruleset reads = (quiet_steps, IsQuiet-scalar, IsQuiet-or_note)

  pub IsQuiet-integer :
      (parse : Text → Option ℤ) (fields : Object) (field : Text)
      → IsQuiet (integer json_text parse fields field)
  unfolding integer
  IsQuiet-integer parse fields field = search (reads)

  pub IsQuiet-numeric : (v : Option Value) (field : Text) → IsQuiet (numeric json_text v field)
  unfolding numeric
  IsQuiet-numeric v field = search (reads)

  pub IsQuiet-numeric_integer :
      (parse : Text → Option ℤ) (v : Option Value) (field : Text)
      → IsQuiet (numeric_integer json_text parse v field)
  unfolding numeric_integer
  IsQuiet-numeric_integer parse v field = search (reads, IsQuiet-numeric)

  IsQuiet-boolean_value :
      (field : Text) (v : Option Value) → IsQuiet (boolean_value json_text field v)
  unfolding boolean_value
  IsQuiet-boolean_value field none = search (reads)
  IsQuiet-boolean_value field (some (bool b)) = search (reads)
  IsQuiet-boolean_value field (some (string v)) = search (reads)
  IsQuiet-boolean_value field (some _) = search (reads)

  pub IsQuiet-boolean : (fields : Object) (field : Text) → IsQuiet (boolean json_text fields field)
  unfolding boolean
  IsQuiet-boolean fields field = IsQuiet-boolean_value field (lookup field fields)
