-- ===== src/Api/Cursor/Tests.antt =====
-- A wire format that puts a length before each text, and the theorem at a concrete input.
use Prim.Native.Nat.{ℕ}
use mathlib.Core.Path.{◌≡◌, refl, ap}
use mathlib.Core.Option.{Option, none, some}
use mathlib.Core.List.{[], ◌∷◌, ◌++◌}
use aircraft_api_r.Prelude.{arith, ok, length, take, drop, map_option}
use aircraft_api_r.Prelude.Text.{Text, codes, len, text_eq}
use aircraft_api_r.Prelude.Text.Search.{and_then}
use aircraft_api_r.Api.Cursor.{
  Wire, CursorToken, CursorPosition, FilterFingerprint, encode, decode, to_hex,
}
use aircraft_api_r.Api.Cursor.RoundTrip.{ReadsBack, decode-encode}

abbrev framed : Text → Text → Text
framed s rest = length s ∷ (s ++ rest)

-- A text and what follows it.
abbrev unframed : Text → Option (Text × Text)
unframed [] = none
unframed (n ∷ rest) = some (take n rest, drop n rest)

take-append : (s t : Text) → take (length s) (s ++ t) ≡ s
take-append [] t = refl
take-append (c ∷ s) t = ap (λ x. c ∷ x) (take-append s t)

drop-append : (s t : Text) → drop (length s) (s ++ t) ≡ t
drop-append [] t = refl
drop-append (c ∷ s) t = drop-append s t

unframed-framed : (s t : Text) → unframed (framed s t) ≡ some (s, t)
unframed-framed s t = λ i. some (take-append s t i, drop-append s t i)

abbrev texts : Text → Option (Text × Text × Text × Text)
texts bytes = and_then (unframed bytes) (λ a.
    and_then (unframed a.1)
      (λ b. and_then (unframed b.1) (λ c. map_option (λ d. (a.0, b.0, c.0, d.0)) (unframed c.1))))

abbrev token_of : ℕ → Text × Text × Text × Text → CursorToken
token_of version (sort, last_value, tiebreaker, filter) = record {
  version = version;
  sort = sort;
  last_value = last_value;
  tiebreaker = tiebreaker;
  filter = filter;
}

abbrev body : CursorToken → Text
body t = framed t.sort (framed t.last_value (framed t.tiebreaker (framed t.filter [])))

abbrev version_of : Text → Option ℕ
version_of [] = none
version_of (n ∷ rest) = some n

abbrev from_slice : Text → Option CursorToken
from_slice [] = none
from_slice (n ∷ rest) = map_option (token_of n) (texts rest)

abbrev wire : Wire Text
wire = record {
  base64_encode = λ bytes. bytes;
  base64_decode = λ t. some t;
  to_vec = λ t. some (t.version ∷ body t);
  no_bytes = [];
  version_of = version_of;
  from_slice = from_slice;
}

texts-body :
    (t : CursorToken) → texts (body t) ≡ some (t.sort, t.last_value, t.tiebreaker, t.filter)
texts-body t =
    let c = framed t.filter [] in
    let b = framed t.tiebreaker c in
    let a = framed t.last_value b in
    rw
      (
        take-append t.sort a,
        drop-append t.sort a,
        take-append t.last_value b,
        drop-append t.last_value b,
        take-append t.tiebreaker c,
        drop-append t.tiebreaker c,
        take-append t.filter [],
      )
      refl

wire-ReadsBack : ReadsBack wire
wire-ReadsBack = (
  λ bytes. refl,
  λ t. (t.version ∷ body t, refl, refl, ap (map_option (token_of t.version)) (texts-body t)),
)

abbrev position : CursorPosition
position = record { sort = codes "NAME"; last_value = codes "172"; tiebreaker = codes "9" }

abbrev filters : FilterFingerprint
filters = record { bytes = 7 ∷ 250 ∷ [] }

decode-encode_example : decode wire (encode wire position filters) filters ≡ ok position
unfolding encode len to_hex text_eq
decode-encode_example =
    decode-encode wire position filters filters wire-ReadsBack (omega arith, (omega arith, tt))
      (omega arith, (omega arith, tt)) (omega arith)
