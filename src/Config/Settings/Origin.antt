-- ===== src/Config/Settings/Origin.antt =====
-- What the checks of an allowed origin, in crates/aircraft_config/src/settings/structs.rs, say of
-- the URL that it names.
use mathlib.Core.Path.{◌≡◌, refl, ap, sym, ◌∙◌}
use mathlib.Core.Bool.{true, false}
use mathlib.Core.Logic.{◌≢◌, ◌↔◌, ◌⊎◌, inl, inr}
use mathlib.Core.Option.{Option, none, some, some_inj}
use mathlib.Core.List.{[], ◌∷◌, ◌++◌}
use aircraft_api_r.Prelude.{arith, All, Bool-cases, Option-cases, is_some}
use aircraft_api_r.Prelude.Text.{Text, codes, is_empty, is_whitespace, text_eq_iff}
use aircraft_api_r.Prelude.Text.Search.{trim, strip_suffix}
use aircraft_api_r.Prelude.Text.Trimmed.{StripsTo, strip_suffix-append, trim-nothing, trim-blank}
use aircraft_api_r.Config.Settings.{Url, names_nothing, has_more, without_slash_of}

-- A scheme, a host and perhaps a port, and nothing else.
abbrev pub HasNothingElse : Url → Type 0
HasNothingElse url =
    (url.path ≡ codes "/")
    × (url.query ≡ none)
    × (url.fragment ≡ none)
    × (url.username ≡ [])
    × (url.password ≡ none)

abbrev pub NamesHost : Url → Type 0
NamesHost url = (host : Text) × (url.host_str ≡ some host) × (host ≢ [])

-- The text of a URL, or that text without the slash it ends with.
abbrev pub IsSpelling : Text → Text → Type 0
IsSpelling text origin =
    (text ≡ origin ++ b'/' ∷ [])
    ⊎ ((text ≡ origin) × ((before : Text) → text ≢ before ++ b'/' ∷ []))

abbrev pub IsBlank : Text → Type 0
IsBlank = All (λ c. is_whitespace c ≡ true)

nothing_iff : (o : Option Text) → (is_some o ≡ false) ↔ (o ≡ none)
nothing_iff none = (λ h. refl, λ h. refl)
nothing_iff (some t) = (λ h. cc, λ h. cc)

empty_iff : (t : Text) → (is_empty t ≡ true) ↔ (t ≡ [])
empty_iff [] = (λ h. refl, λ h. refl)
empty_iff (c ∷ t) = (λ h. cc, λ h. cc)

pub has_more_iff :
    (parse_url : Text → Option Url) (debug_text : Text → Text) (url : Url)
    → (has_more parse_url debug_text url ≡ false) ↔ HasNothingElse url
has_more_iff parse_url debug_text url = ground (
  arith,
  text_eq_iff url.path (codes "/"),
  nothing_iff url.query,
  nothing_iff url.fragment,
  empty_iff url.username,
  nothing_iff url.password,
)

pub named_host_iff : (url : Url) → (names_nothing url.host_str ≡ false) ↔ NamesHost url
named_host_iff url = elim (Option-cases url.host_str) [
  | inl missing ↦ ((λ h. absurd (ground (arith, h, missing))), λ (host, e, ne). absurd (cc))
  | inr (host, e) ↦ (
    (λ h. (host, e, λ blank. ground (arith, h, e, blank))),
    λ (other, same, ne). nonempty other ne same,
  )
]
  where
    nonempty :
        (host : Text) → host ≢ [] → url.host_str ≡ some host → names_nothing url.host_str ≡ false
    nonempty [] ne same = absurd (ne refl)
    nonempty (c ∷ host) ne same = ap names_nothing same

pub spelling :
    (text origin : Text) (o : Option Text)
    → StripsTo b'/' text o
    → (without_slash_of text o ≡ origin) ↔ IsSpelling text origin
spelling text origin none h =
    ((λ e. inr (e, h)), λ s. elim s [ inl e ↦ absurd (h origin e) | inr (e, k) ↦ e ])
spelling text origin (some before) h = (
  (λ e. inl (h ∙ ap (λ b. b ++ b'/' ∷ []) e)),
  λ s. elim s [
    | inl e ↦ some_inj.0 (
        sym (strip_suffix-append b'/' before)
        ∙ ap (strip_suffix b'/') (sym h ∙ e)
        ∙ strip_suffix-append b'/' origin)
    | inr (e, k) ↦ absurd (k before h)
  ],
)

pub IsBlank-iff : (s : Text) → (is_empty (trim s) ≡ false) ↔ (¬ IsBlank s)
IsBlank-iff s =
    let nothing = trim-nothing s in
    let blank = trim-blank s in
    (
      (λ h b. let e = blank b in ground (arith, h, e)),
      λ h. elim (Bool-cases (is_empty (trim s))) [ inl e ↦ absurd (h (nothing e)) | inr e ↦ e ],
    )
