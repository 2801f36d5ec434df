-- ===== src/Domain/Reference.antt =====
-- The reference catalogs of crates/aircraft_domain/src/reference.rs.
use aircraft_api_r.Prelude.{
  ◌≡◌, refl, sym, ◌↔◌, List, [], ◌∷◌, find, find-some, Result, ok, ok_or, arith,
}
use aircraft_api_r.Prelude.Text.{Text, codes, text_eq, text_eq_iff, split}
use aircraft_api_r.Domain.Catalog.{slug_try_from, is_slug_part}

pub data Catalog : Type 0 where
  unit_categories measurement_units aircraft_roles : Catalog
  service_statuses variant_types landing_gear_types : Catalog
  propulsion_categories fuel_types dimension_metric_types : Catalog
  weight_metric_types performance_metric_types certification_authorities : Catalog
  airworthiness_categories pilot_certificate_types operating_approval_types : Catalog
  military_mission_types weapon_categories hardpoint_position_types : Catalog
  stores_types currencies cost_item_types : Catalog
  aircraft_condition_grades ad_types sb_compliance_statuses : Catalog
  availability_grades source_types source_reliability_grades : Catalog
  curation_flag_statuses curation_entity_types assertion_statuses : Catalog
  mission_profile_types comparison_criterion_types organization_types : Catalog
  org_relationship_types systems_categories equipment_provision_types : Catalog

pub data UnknownCatalog : Type 0 where
  unknown_catalog : UnknownCatalog

abbrev pub catalog_all : List Catalog
catalog_all =
    unit_categories ∷ measurement_units ∷ aircraft_roles ∷ service_statuses ∷ variant_types
    ∷ landing_gear_types ∷ propulsion_categories ∷ fuel_types ∷ dimension_metric_types
    ∷ weight_metric_types ∷ performance_metric_types ∷ certification_authorities
    ∷ airworthiness_categories ∷ pilot_certificate_types ∷ operating_approval_types
    ∷ military_mission_types ∷ weapon_categories ∷ hardpoint_position_types ∷ stores_types
    ∷ currencies ∷ cost_item_types ∷ aircraft_condition_grades ∷ ad_types ∷ sb_compliance_statuses
    ∷ availability_grades ∷ source_types ∷ source_reliability_grades ∷ curation_flag_statuses
    ∷ curation_entity_types ∷ assertion_statuses ∷ mission_profile_types
    ∷ comparison_criterion_types ∷ organization_types ∷ org_relationship_types ∷ systems_categories
    ∷ equipment_provision_types ∷ []

unfoldable pub catalog_slug : Catalog → Text
catalog_slug unit_categories = codes "unit-categories"
catalog_slug measurement_units = codes "measurement-units"
catalog_slug aircraft_roles = codes "aircraft-roles"
catalog_slug service_statuses = codes "service-statuses"
catalog_slug variant_types = codes "variant-types"
catalog_slug landing_gear_types = codes "landing-gear-types"
catalog_slug propulsion_categories = codes "propulsion-categories"
catalog_slug fuel_types = codes "fuel-types"
catalog_slug dimension_metric_types = codes "dimension-metric-types"
catalog_slug weight_metric_types = codes "weight-metric-types"
catalog_slug performance_metric_types = codes "performance-metric-types"
catalog_slug certification_authorities = codes "certification-authorities"
catalog_slug airworthiness_categories = codes "airworthiness-categories"
catalog_slug pilot_certificate_types = codes "pilot-certificate-types"
catalog_slug operating_approval_types = codes "operating-approval-types"
catalog_slug military_mission_types = codes "military-mission-types"
catalog_slug weapon_categories = codes "weapon-categories"
catalog_slug hardpoint_position_types = codes "hardpoint-position-types"
catalog_slug stores_types = codes "stores-types"
catalog_slug currencies = codes "currencies"
catalog_slug cost_item_types = codes "cost-item-types"
catalog_slug aircraft_condition_grades = codes "aircraft-condition-grades"
catalog_slug ad_types = codes "ad-types"
catalog_slug sb_compliance_statuses = codes "sb-compliance-statuses"
catalog_slug availability_grades = codes "availability-grades"
catalog_slug source_types = codes "source-types"
catalog_slug source_reliability_grades = codes "source-reliability-grades"
catalog_slug curation_flag_statuses = codes "curation-flag-statuses"
catalog_slug curation_entity_types = codes "curation-entity-types"
catalog_slug assertion_statuses = codes "assertion-statuses"
catalog_slug mission_profile_types = codes "mission-profile-types"
catalog_slug comparison_criterion_types = codes "comparison-criterion-types"
catalog_slug organization_types = codes "organization-types"
catalog_slug org_relationship_types = codes "org-relationship-types"
catalog_slug systems_categories = codes "systems-categories"
catalog_slug equipment_provision_types = codes "equipment-provision-types"

unfoldable pub catalog_try_from : Text → Result UnknownCatalog Catalog
catalog_try_from slug =
    ok_or (find (λ catalog. text_eq (catalog_slug catalog) slug) catalog_all) unknown_catalog

catalog_round : (c : Catalog) → catalog_try_from (catalog_slug c) ≡ ok c
unfolding catalog_try_from catalog_slug find text_eq
catalog_round unit_categories = refl
catalog_round _ = refl

slug_accepted :
    (c : Catalog) → slug_try_from (catalog_slug c) ≡ ok (record { value = catalog_slug c })
unfolding slug_try_from catalog_slug split is_slug_part
slug_accepted unit_categories = refl
slug_accepted _ = refl

found-slug : (slug : Text) (c : Catalog) → catalog_try_from slug ≡ ok c → slug ≡ catalog_slug c
unfolding catalog_try_from
found-slug slug c e = sym (
    (text_eq_iff (catalog_slug c) slug).0
      (find-some (λ x. text_eq (catalog_slug x) slug) catalog_all c (ground arith)))

-- A path segment names a catalogue exactly when it is that catalogue's slug, and that text is a
-- slug.
pub catalog_try_from_iff :
    (slug : Text) (c : Catalog)
    → ((catalog_try_from slug ≡ ok c) ↔ (slug ≡ catalog_slug c))
      × (slug_try_from (catalog_slug c) ≡ ok (record { value = catalog_slug c }))
catalog_try_from_iff slug c = ((found-slug slug c, λ e. rw e (catalog_round c)), slug_accepted c)
