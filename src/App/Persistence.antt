-- ===== src/App/Persistence.antt =====
-- `PersistenceError` and `hex_digest` of crates/aircraft_app/src/services/ingestion.rs, which the
-- other services share.
use Prim.Native.Nat.{ℕ, ◌+◌, ◌-◌, ◌*◌, ◌/◌, ◌%◌, ◌<◌}
use mathlib.Core.Path.{◌≡◌, refl}
use mathlib.Core.Bool.{true}
use mathlib.Core.List.{List, [], ◌∷◌}
use native.Mathlib.Omega.{arith}
use aircraft_api_r.Prelude.{ltb, if◌then◌else◌, length, All}
use aircraft_api_r.Prelude.Text.{Text, codes, len, is_ascii_hexdigit}

pub data PersistenceError : Type 0 where
  database : (code message : Text) → PersistenceError
  invariant : Text → PersistenceError

unfoldable pub persistence_code : PersistenceError → Text
persistence_code (database code message) = code
persistence_code (invariant message) = codes "PERSISTENCE_INVARIANT"

-- A digit of the format `x`.
abbrev pub hex_digit : ℕ → ℕ
hex_digit n = if ltb n 10 then b'0' + n else b'a' - 10 + n

unfoldable pub hex_digest : List ℕ → Text
hex_digest [] = []
hex_digest (byte ∷ bytes) = hex_digit (byte / 16) ∷ hex_digit (byte % 16) ∷ hex_digest bytes

abbrev pub IsBytes : List ℕ → Type 0
IsBytes = All (λ b. b < 256)

abbrev pub IsHex : Text → Type 0
IsHex = All (λ c. is_ascii_hexdigit c ≡ true)

hex_digit-is_hex : (n : ℕ) → n < 16 → is_ascii_hexdigit (hex_digit n) ≡ true
hex_digit-is_hex n h = ground arith

pub hex_digest-IsHex : (bytes : List ℕ) → IsBytes bytes → IsHex (hex_digest bytes)
unfolding hex_digest
hex_digest-IsHex [] h = tt
hex_digest-IsHex (b ∷ bytes) (lt, h) = (
  hex_digit-is_hex (b / 16) (omega arith),
  (hex_digit-is_hex (b % 16) (omega arith), hex_digest-IsHex bytes h),
)

pub length-hex_digest : (bytes : List ℕ) → length (hex_digest bytes) ≡ 2 * length bytes
unfolding hex_digest
length-hex_digest [] = omega arith
length-hex_digest (b ∷ bytes) = omega (arith, length-hex_digest bytes)

pub len_hex : (s : Text) → IsHex s → len s ≡ length s
unfolding len
len_hex [] h = omega arith
len_hex (c ∷ s) (hex, h) = ground (arith, len_hex s h)

hex_digit_inj : (a b : ℕ) → a < 16 → b < 16 → hex_digit a ≡ hex_digit b → a ≡ b
hex_digit_inj a b h k e = ground arith

-- Different digests have different texts.
pub hex_digest_inj : (a b : List ℕ) → IsBytes a → IsBytes b → hex_digest a ≡ hex_digest b → a ≡ b
unfolding hex_digest
hex_digest_inj [] [] h k e = refl
hex_digest_inj [] (y ∷ b) h k e = absurd (cc)
hex_digest_inj (x ∷ a) [] h k e = absurd (cc)
hex_digest_inj (x ∷ a) (y ∷ b) (lt, h) (lt', k) e = grind (
  arith,
  hex_digit_inj (x / 16) (y / 16),
  hex_digit_inj (x % 16) (y % 16),
  hex_digest_inj a b h k,
)
