-- ===== src/Ingest/Vocabulary/Tables.antt =====
-- The vocabularies of crates/aircraft_ingest/src/normalization.rs fit each other.
use mathlib.Core.Path.{◌≡◌, refl, sym, ap, subst, ◌∙◌}
use mathlib.Core.Bool.{Bool, true, false, not}
use mathlib.Core.Logic.{inl, inr}
use mathlib.Core.Option.{some}
use mathlib.Core.List.{List, [], ◌∷◌}
use aircraft_api_r.Prelude.{arith, all, any, is_some, Bool-cases, Option-cases}
use aircraft_api_r.Prelude.Dict.{Dict, lookup}
use aircraft_api_r.Prelude.Text.{Text, Text-Eq, text_eq}
use aircraft_api_r.Ingest.Vocabulary.{
  Dimension, dimension_eq, unit_codes, unit_code, perf_codes, perf_code, weight_codes, weight_code,
  unit_dimension, metric_dimensions, unit_fits_metric, fits, admits,
}

-- The unit measures one of the dimensions of the metric.
abbrev pub Measures : Text → Text → Type 0
Measures metric unit =
    (d : Dimension) × (unit_dimension unit ≡ some d)
    × (any (dimension_eq d) (metric_dimensions metric) ≡ true)

abbrev are_none : List Dimension → Bool
are_none [] = true
are_none (d ∷ ds) = false

abbrev pub is_classified : Text → Bool
is_classified metric = not (are_none (metric_dimensions metric))

-- What holds of every entry holds of what is found.
lookup-all :
    (p : Text → Bool) (k v : Text) (table : Dict Text Text)
    → all (λ entry. p entry.1) table ≡ true
    → lookup k table ≡ some v
    → p v ≡ true
unfolding lookup
lookup-all p k v [] h e = absurd (cc)
lookup-all p k v ((j, w) ∷ table) h e = elim (Bool-cases (text_eq j k)) [
  | inl here ↦
      let same : w ≡ v = ground (arith, here, e) in subst (λ x. p x ≡ true) same (ground (arith, h))
  | inr other ↦ lookup-all p k v table (ground (arith, h)) (ground (arith, other, e))
]

units-all : all (λ entry. is_some (unit_dimension entry.1)) unit_codes ≡ true
unfolding unit_dimension lookup text_eq
units-all = refl

performance-all : all (λ entry. is_classified entry.1) perf_codes ≡ true
unfolding metric_dimensions lookup text_eq
performance-all = refl

weights-all : all (λ entry. is_classified entry.1) weight_codes ≡ true
unfolding metric_dimensions lookup text_eq
weights-all = refl

-- Every unit has a dimension.
pub unit_code-is_some :
    (raw unit : Text) → unit_code raw ≡ some unit → is_some (unit_dimension unit) ≡ true
unfolding unit_code
unit_code-is_some raw unit e =
    lookup-all (λ u. is_some (unit_dimension u)) raw unit unit_codes units-all e

-- Every metric is classified.
pub perf_code-is_classified :
    (raw metric : Text) → perf_code raw ≡ some metric → is_classified metric ≡ true
unfolding perf_code
perf_code-is_classified raw metric e =
    lookup-all is_classified raw metric perf_codes performance-all e

pub weight_code-is_classified :
    (raw metric : Text) → weight_code raw ≡ some metric → is_classified metric ≡ true
unfolding weight_code
weight_code-is_classified raw metric e =
    lookup-all is_classified raw metric weight_codes weights-all e

admits-any :
    (ds : List Dimension) (d : Dimension)
    → not (are_none ds) ≡ true
    → admits ds d ≡ true
    → any (dimension_eq d) ds ≡ true
admits-any [] d h k = absurd (cc)
admits-any (e ∷ ds) d h k = k

-- Where both are known, the test of the unit is the measuring of the metric.
pub unit_fits_metric-Measures :
    (metric unit : Text)
    → is_classified metric ≡ true
    → is_some (unit_dimension unit) ≡ true
    → unit_fits_metric metric unit ≡ true
    → Measures metric unit
unfolding unit_fits_metric
unit_fits_metric-Measures metric unit known h fitting = elim (Option-cases (unit_dimension unit)) [
  | inl missing ↦ absurd (ground (arith, missing, h))
  | inr (d, found) ↦ (
    d,
    found,
    admits-any (metric_dimensions metric) d known
        (ap (fits (metric_dimensions metric)) (sym found) ∙ fitting),
  )
]
