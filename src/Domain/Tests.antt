-- ===== src/Domain/Tests.antt =====
-- Production years at concrete inputs.
use mathlib.Core.Path.{refl}
use mathlib.Core.List.{[], ◌∷◌}
use aircraft_api_r.Prelude.Text.{codes}
use aircraft_api_r.Domain.Catalog.{slug_try_from}
use aircraft_api_r.Domain.Catalog.Words.{slug_try_from_iff}
use aircraft_api_r.Domain.Reference.{
  catalog_try_from, catalog_slug, currencies, catalog_try_from_iff,
}
use Prim.Native.Nat.{◌≤◌, ◌^◌}
use mathlib.Core.Logic.{◌⊎◌}
use native.Mathlib.Omega.{arith}
use aircraft_api_r.Domain.Confidence.{scraped_source, float_one, confidence_new}
use aircraft_api_r.Domain.Confidence.Accepted.{confidence_new_iff}
use mathlib.Core.Path.{◌≡◌}
use mathlib.Core.Logic.{◌↔◌}
use mathlib.Core.Option.{some}
use aircraft_api_r.Prelude.{ok}
use aircraft_api_r.Prelude.Integers.{pos}
use aircraft_api_r.Domain.ProductionYears.{ProductionYears, production_years_new}
use aircraft_api_r.Domain.ProductionYears.Accepted.{IsYear, InOrder, production_years_new_iff}

abbrev run : ProductionYears
run = record { start = some (pos 1956); end = some (pos 1986) }

production_years_new_iff_example :
    (production_years_new (some (pos 1956)) (some (pos 1986)) ≡ ok run) ↔ (
      IsYear (some (pos 1956))
      × IsYear (some (pos 1986))
      × InOrder (some (pos 1956)) (some (pos 1986))
      × (run.start ≡ some (pos 1956))
      × (run.end ≡ some (pos 1986)))
production_years_new_iff_example = production_years_new_iff (some (pos 1956)) (some (pos 1986)) run

confidence_new_iff_example :
    (confidence_new scraped_source ≡ ok (record { value = scraped_source })) ↔ (
      (scraped_source ≡ scraped_source)
      × ((scraped_source ≤ float_one) ⊎ (scraped_source ≡ 2 ^ 31)))
confidence_new_iff_example =
    confidence_new_iff scraped_source (record { value = scraped_source }) (omega arith)

slug_try_from_iff_example :
    slug_try_from (codes "cessna-172s") ≡ ok (record { value = codes "cessna-172s" })
slug_try_from_iff_example =
    (slug_try_from_iff (codes "cessna-172s") (record { value = codes "cessna-172s" })).1 (
      refl,
      (
        codes "cessna",
        codes "172s" ∷ [],
        refl,
        (((λ e. cc), omega arith), (((λ e. cc), omega arith), tt)),
      ),
    )

catalog_try_from_iff_example :
    ((catalog_try_from (codes "currencies") ≡ ok currencies)
      ↔ (codes "currencies" ≡ catalog_slug currencies))
    × (slug_try_from (catalog_slug currencies) ≡ ok (record { value = catalog_slug currencies }))
catalog_try_from_iff_example = catalog_try_from_iff (codes "currencies") currencies
