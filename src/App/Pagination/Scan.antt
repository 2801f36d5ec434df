-- ===== src/App/Pagination/Scan.antt =====
-- A client that follows the resume keys reads every row once, in order.
use mathlib.Core.List.{append_assoc, append-nil}
use aircraft_api_r.Prelude.{
  ℕ, zero, suc, ◌+◌, ◌≤◌, ◌<◌, ◌≡◌, refl, sym, ap, ◌∙◌, arith, min, Option, none, some, List, [],
  ◌∷◌, ◌++◌, length, take, drop, take-append-drop, take_all, take-take-suc, length-drop,
  length-take, get_last?, Bool-cases, inl, inr, ltb, ltb→lt,
}
use aircraft_api_r.App.Pagination.{PageLimit, from_overfetched, query_size, u16_max}

module _ {ℓ κ} {T : Type ℓ} {K : Type κ} (key_of : T → K) (limit : PageLimit) where
  -- The scan: one page, then the pages after its resume key. The fuel bounds the requests.
  abbrev continue : (Option K → List T) → Option K → List T
  continue rest none = []
  continue rest (some k) = rest (some k)

  unfoldable pub scan : (Option K → ℕ → List T) → ℕ → Option K → List T
  scan fetch zero after = []
  scan fetch (suc fuel) after =
      let page = from_overfetched (fetch after (query_size limit)) limit key_of in
      page.items ++ continue (scan fetch fuel) page.next

  -- The database's side: rows in a fixed order, read from the start or after the row of a key.
  pub record Keyset (rows : List T) (fetch : Option K → ℕ → List T) : Type (ℓ ⊔ κ) where
    pub start : (n : ℕ) → fetch none n ≡ take n rows
    pub resume :
        (earlier later : List T) (x : T) (n : ℕ)
        → rows ≡ earlier ++ x ∷ later
        → fetch (some (key_of x)) n ≡ take n later

  take_pos :
      (n : ℕ) (xs : List T) → 0 < n → 0 < length xs → (y : T) × (ys : List T) × (take n xs ≡ y ∷ ys)
  take_pos zero xs h k = absurd (omega arith)
  take_pos (suc n) [] h k = absurd (omega arith)
  take_pos (suc n) (x ∷ xs) h k = (x, take n xs, refl)

  -- The last row of a page that is not empty, with what comes before it.
  last_split :
      (x : T) (xs : List T)
      → (before : List T) × (y : T) × (get_last? (x ∷ xs) ≡ some y) × (x ∷ xs ≡ before ++ y ∷ [])
  last_split x [] = ([], x, refl, refl)
  last_split x (z ∷ zs) =
      let (before, y, last, e) = last_split z zs in (x ∷ before, y, last, ap (λ r. x ∷ r) e)

  module _ (pos : 0 < limit.get) (small : limit.get < u16_max) where
    page_last :
        (later : List T)
        → length later ≤ limit.get
        → from_overfetched (take (query_size limit) later) limit key_of
          ≡ record { items = later; next = none }
    unfolding from_overfetched query_size
    page_last later h =
        rw (take_all (min (limit.get + 1) u16_max) later (omega arith)) (ground arith)

    -- A page that is not the last: its rows, and the key of the last of them.
    page_more :
        (later : List T)
        → limit.get < length later
        → (before : List T) × (y : T) × (take limit.get later ≡ before ++ y ∷ [])
          × (from_overfetched (take (query_size limit) later) limit key_of
              ≡ record { items = take limit.get later; next = some (key_of y) })
    unfolding from_overfetched query_size
    page_more later h =
        let lookahead : min (limit.get + 1) u16_max ≡ suc limit.get = omega arith in
        let (x, xs, head) = take_pos limit.get later pos (omega arith) in
        let (before, y, last, e) = last_split x xs in
        (
          before,
          y,
          head ∙ e,
          rw (lookahead, take-take-suc limit.get later)
              (ground (arith, length-take (suc limit.get) later, head, last, ap get_last? head)),
        )

    scan_from :
        (rows : List T) (fetch : Option K → ℕ → List T)
        → Keyset rows fetch
        → (fuel : ℕ) (after : Option K) (earlier later : List T) → rows ≡ earlier ++ later
        → ((n : ℕ) → fetch after n ≡ take n later)
        → length later < fuel
        → scan fetch fuel after ≡ later
    unfolding scan
    scan_from rows fetch ks zero after earlier later e at h = absurd (omega arith)
    scan_from rows fetch ks (suc fuel) after earlier later e at h =
        elim (Bool-cases (ltb limit.get (length later))) [
          | inr short ↦
              rw (at (query_size limit), page_last later (ground arith)) (append-nil later)
          | inl long ↦
              let big : limit.get < length later = ltb→lt limit.get (length later) long in
              let (before, y, split_at, page) = page_more later big in
              let rest = drop limit.get later in
              let cut : later ≡ take limit.get later ++ rest =
                sym (take-append-drop limit.get later) in
              let here : rows ≡ (earlier ++ before) ++ y ∷ rest =
                e
                ∙ ap (λ r. earlier ++ r) (cut ∙ ap (λ r. r ++ rest) split_at)
                ∙ simp append_assoc in
              rw (at (query_size limit), page)
                (ap (λ r. take limit.get later ++ r)
                    (scan_from rows fetch ks fuel (some (key_of y))
                      (earlier ++ take limit.get later) rest
                      (e
                        ∙ ap (λ r. earlier ++ r) cut
                        ∙ sym (append_assoc earlier (take limit.get later) rest))
                      (λ n. ks.resume (earlier ++ before) rest y n here)
                      (omega (arith, length-drop limit.get later)))
                  ∙ sym cut)
        ]

    -- With a limit above zero and below the largest `u16`, following the resume keys from the
    -- start reads exactly the rows, each once and in order, whenever the fuel exceeds their
    -- number and the database reads the rows in one order, from the start or after the row of a
    -- key.
    pub scan_complete :
        (rows : List T) (fetch : Option K → ℕ → List T) (fuel : ℕ)
        → Keyset rows fetch
        → length rows < fuel
        → scan fetch fuel none ≡ rows
    scan_complete rows fetch fuel ks h = scan_from rows fetch ks fuel none [] rows refl ks.start h
