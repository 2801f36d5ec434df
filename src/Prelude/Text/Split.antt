-- ===== src/Prelude/Text/Split.antt =====
-- `str::split` at one character, and putting the parts together again.
use Prim.Native.Nat.{ℕ}
use mathlib.Core.Path.{◌≡◌, refl, ap, sym, ◌∙◌}
use mathlib.Core.Logic.{inl, inr}
use mathlib.Core.List.{List, [], ◌∷◌, ◌++◌}
use aircraft_api_r.Prelude.Tests.{◌==◌, ==_iff, Bool-cases}
use aircraft_api_r.Prelude.Lists.{All}
use aircraft_api_r.Prelude.Text.{Text, split, join, Lacks}

join-head :
    (sep c : ℕ) (part : Text) (parts : List Text)
    → join sep ((c ∷ part) ∷ parts) ≡ c ∷ join sep (part ∷ parts)
join-head sep c part [] = refl
join-head sep c part (next ∷ parts) = refl

-- The parts, put together again.
pub split-parts :
    (sep : ℕ) (s : Text)
    → (part : Text) × (parts : List Text) × (split sep s ≡ part ∷ parts)
      × (join sep (part ∷ parts) ≡ s)
unfolding split
split-parts sep [] = ([], [], refl, refl)
split-parts sep (c ∷ s) =
    let (part, parts, e, j) = split-parts sep s in
    elim (Bool-cases (c == sep)) [
      | inl here ↦ (
        [],
        part ∷ parts,
        rw (e, here) refl,
        ap (λ x. sep ∷ x) j ∙ ap (λ x. x ∷ s) (sym ((==_iff c sep).0 here)),
      )
      | inr other ↦
          (c ∷ part, parts, rw (e, other) refl, join-head sep c part parts ∙ ap (λ x. c ∷ x) j)
    ]

split-Lacks : (sep : ℕ) (s : Text) → Lacks sep s → split sep s ≡ s ∷ []
unfolding split
split-Lacks sep [] h = refl
split-Lacks sep (c ∷ s) (other, h) = rw (split-Lacks sep s h, other) refl

split-append : (sep : ℕ) (s t : Text) → Lacks sep s → split sep (s ++ sep ∷ t) ≡ s ∷ split sep t
unfolding split
split-append sep [] t h =
    let (part, parts, e, j) = split-parts sep t in
    let here = (==_iff sep sep).1 refl in rw (e, here) refl
split-append sep (c ∷ s) t (other, h) = rw (split-append sep s t h, other) refl

-- Parts without the separator are found again.
pub split-join :
    (sep : ℕ) (part : Text) (parts : List Text)
    → All (Lacks sep) (part ∷ parts)
    → split sep (join sep (part ∷ parts)) ≡ part ∷ parts
split-join sep part [] (h, k) = split-Lacks sep part h
split-join sep part (next ∷ parts) (h, k) =
    split-append sep part (join sep (next ∷ parts)) h
    ∙ ap (λ x. part ∷ x) (split-join sep next parts k)
