-- ===== src/Prelude/Text/Trimmed.antt =====
-- What trimming and searching find in a text that was put together.
use Prim.Native.Nat.{ℕ}
use mathlib.Core.Path.{◌≡◌, refl, ap, sym, subst, ◌∙◌}
use mathlib.Core.Bool.{true, false}
use mathlib.Core.Logic.{◌≢◌, inl, inr}
use mathlib.Core.Option.{Option, none, some, some_inj}
use mathlib.Core.List.{[], ◌∷◌, ◌++◌, append_assoc}
use native.Mathlib.Omega.{arith}
use aircraft_api_r.Prelude.Tests.{==_iff, map_option, Bool-cases, Option-cases, if◌then◌else◌}
use aircraft_api_r.Prelude.Lists.{All}
use aircraft_api_r.Prelude.Text.{Text, is_empty, is_whitespace, Lacks}
use aircraft_api_r.Prelude.Text.Search.{
  trim_start_matches, trim_end_matches, trim, trim_end, strip_suffix, after_last,
}

-- A text that is not empty and has no white space.
abbrev pub IsWord : Text → Type 0
IsWord s = All (λ c. is_whitespace c ≡ false) s × (is_empty s ≡ false)

trim_end-word : (s : Text) → All (λ c. is_whitespace c ≡ false) s → trim_end s ≡ s
unfolding trim_end_matches
trim_end-word [] h = refl
trim_end-word (c ∷ s) (visible, h) = rw (trim_end-word s h) (ground (arith, visible))

is_empty-append : (a b : Text) → is_empty b ≡ false → is_empty (a ++ b) ≡ false
is_empty-append [] b h = h
is_empty-append (c ∷ a) b h = refl

pub trim_end-append : (a b : Text) → IsWord b → trim_end (a ++ b) ≡ a ++ b
unfolding trim_end_matches
trim_end-append [] b h = trim_end-word b h.0
trim_end-append (c ∷ a) b h = rw (trim_end-append a b h, is_empty-append a b h.1) refl

pub trim_start-append : (a b : Text) → IsWord a → trim_start_matches is_whitespace (a ++ b) ≡ a ++ b
unfolding trim_start_matches
trim_start-append [] b h = absurd (let e = h.1 in cc)
trim_start-append (c ∷ a) b ((visible, h), e) = rw visible refl

-- One space after a word goes, and one before it.
trim_end-space : (s : Text) → All (λ c. is_whitespace c ≡ false) s → trim_end (s ++ b' ' ∷ []) ≡ s
unfolding trim_end_matches
trim_end-space [] h = refl
trim_end-space (c ∷ s) (visible, h) = rw (trim_end-space s h) (ground (arith, visible))

pub trim-space_after : (s : Text) → IsWord s → trim (s ++ b' ' ∷ []) ≡ s
trim-space_after s h = ap trim_end (trim_start-append s (b' ' ∷ []) h) ∙ trim_end-space s h.0

pub trim-space_before : (s : Text) → IsWord s → trim (b' ' ∷ s) ≡ s
unfolding trim_start_matches
trim-space_before [] h = absurd (let e = h.1 in cc)
trim-space_before (c ∷ s) ((visible, h), e) = rw visible (trim_end-word (c ∷ s) (visible, h))

-- Between two words all stays.
pub trim-words :
    (a between b : Text) → IsWord a → IsWord b → trim (a ++ (between ++ b)) ≡ a ++ (between ++ b)
trim-words a between b h k =
    ap trim_end (trim_start-append a (between ++ b) h)
    ∙ ap trim_end (sym (append_assoc a between b))
    ∙ trim_end-append (a ++ between) b k
    ∙ append_assoc a between b

pub strip_suffix-append : (p : ℕ) (s : Text) → strip_suffix p (s ++ p ∷ []) ≡ some s
unfolding strip_suffix
strip_suffix-append p [] = ground (arith, ==_iff p p)
strip_suffix-append p (c ∷ []) = ground (arith, ==_iff p p)
strip_suffix-append p (c ∷ d ∷ s) = ap (map_option (λ r. c ∷ r)) (strip_suffix-append p (d ∷ s))

strip_suffix_sound : (p : ℕ) (t s : Text) → strip_suffix p t ≡ some s → t ≡ s ++ p ∷ []
unfolding strip_suffix
strip_suffix_sound p [] s h = cc
strip_suffix_sound p (c ∷ []) s h = ground (arith, ==_iff c p, h)
strip_suffix_sound p (c ∷ d ∷ t) s h = elim (Option-cases (strip_suffix p (d ∷ t))) [
  | inl missing ↦ absurd (ground (arith, h, missing))
  | inr (r, e) ↦
      let cut : some (c ∷ r) ≡ some s = sym (ap (map_option (λ r. c ∷ r)) e) ∙ h in
      ap (λ r. c ∷ r) (strip_suffix_sound p (d ∷ t) r e) ∙ ap (λ x. x ++ p ∷ []) (some_inj.0 cut)
]

-- What taking one character off the end says of the text.
abbrev pub StripsTo : ℕ → Text → Option Text → Type 0
StripsTo p t none = (s : Text) → t ≢ s ++ p ∷ []
StripsTo p t (some s) = t ≡ s ++ p ∷ []

pub strip_suffix-StripsTo : (p : ℕ) (t : Text) → StripsTo p t (strip_suffix p t)
strip_suffix-StripsTo p t = unstripped (strip_suffix p t) refl
  where
    unstripped : (o : Option Text) → strip_suffix p t ≡ o → StripsTo p t o
    unstripped none e =
        λ s same. absurd (ground (arith, e, ap (strip_suffix p) same, strip_suffix-append p s))
    unstripped (some s) e = strip_suffix_sound p t s e

-- A text that trims to nothing has white space alone.
pub trim-nothing : (s : Text) → is_empty (trim s) ≡ true → All (λ c. is_whitespace c ≡ true) s
unfolding trim_start_matches trim_end_matches
trim-nothing [] h = tt
trim-nothing (c ∷ s) h = elim (Bool-cases (is_whitespace c)) [
  | inl blank ↦ (
    blank,
    trim-nothing s (
        subst
          (λ b.
            is_empty (trim_end (if b then trim_start_matches is_whitespace s else c ∷ s)) ≡ true)
          blank h),
  )
  | inr visible ↦ absurd (ground (arith, h, visible))
]

pub trim-blank : (s : Text) → All (λ c. is_whitespace c ≡ true) s → is_empty (trim s) ≡ true
unfolding trim_start_matches trim_end_matches
trim-blank [] h = refl
trim-blank (c ∷ s) (blank, h) = rw blank (trim-blank s h)

after_last-Lacks : (sep : ℕ) (s : Text) → Lacks sep s → after_last sep s ≡ none
unfolding after_last
after_last-Lacks sep [] h = refl
after_last-Lacks sep (c ∷ s) (other, h) = rw (after_last-Lacks sep s h, other) refl

pub after_last-append :
    (sep : ℕ) (before after : Text)
    → Lacks sep after
    → after_last sep (before ++ sep ∷ after) ≡ some after
unfolding after_last
after_last-append sep [] after h =
    rw (after_last-Lacks sep after h) (ground (arith, ==_iff sep sep))
after_last-append sep (c ∷ before) after h = rw (after_last-append sep before after h) refl
