-- ===== src/Backfill/Fetch/Pages.antt =====
-- Rows by their opening times, and what a full page leaves to fetch.
use crypto_market_data_pipel.Prelude.{
  ℕ, zero, suc, ◌+◌, ◌≤◌, ◌<◌, ◌≡◌, refl, ◌&&◌, List, [], ◌∷◌, arith, leb, filterb, All, take, drop,
  Bool-cases, inl, inr, Bool,
}
use crypto_market_data_pipel.Common.Parse.{Kline}
use crypto_market_data_pipel.Backfill.Fetch.{min_in_epoch, last_open_time}

abbrev pub since : ℕ → List Kline → List Kline
since s = filterb (λ row. leb s row.open_time)

abbrev pub between : ℕ → ℕ → List Kline → List Kline
between s e = filterb (λ row. leb s row.open_time && leb row.open_time e)

-- Each row opens at least a minute after every row before it.
abbrev pub IsSpaced : List Kline → Type 0
IsSpaced [] = Unit
IsSpaced (row ∷ rows) =
    All (λ later. row.open_time + min_in_epoch ≤ later.open_time) rows × IsSpaced rows

pub since-between :
    (s s' e : ℕ) (rows : List Kline) → s ≤ s' → since s' (between s e rows) ≡ between s' e rows
since-between s s' e [] h = refl
since-between s s' e (row ∷ rows) h = ground (arith, since-between s s' e rows h)

All-filterb :
    (P : Kline → Type 0) (p : Kline → Bool) (rows : List Kline)
    → All P rows
    → All P (filterb p rows)
All-filterb P p [] h = tt
All-filterb P p (row ∷ rows) h = elim (Bool-cases (p row)) [
  | inl e ↦ rw e (h.0, All-filterb P p rows h.1)
  | inr e ↦ rw e (All-filterb P p rows h.1)
]

IsSpaced-filterb :
    (p : Kline → Bool) (rows : List Kline) → IsSpaced rows → IsSpaced (filterb p rows)
IsSpaced-filterb p [] h = tt
IsSpaced-filterb p (row ∷ rows) h = elim (Bool-cases (p row)) [
  | inl e ↦ rw e (All-filterb _ p rows h.0, IsSpaced-filterb p rows h.1)
  | inr e ↦ rw e (IsSpaced-filterb p rows h.1)
]

pub IsSpaced-between : (s e : ℕ) (rows : List Kline) → IsSpaced rows → IsSpaced (between s e rows)
IsSpaced-between s e rows = IsSpaced-filterb _ rows

pub between_bounds :
    (s e : ℕ) (rows : List Kline)
    → All (λ row. (s ≤ row.open_time) × (row.open_time ≤ e)) (between s e rows)
between_bounds s e [] = tt
between_bounds s e (row ∷ rows) = elim (Bool-cases (leb s row.open_time && leb row.open_time e)) [
  | inl h ↦ rw h ((ground arith, ground arith), between_bounds s e rows)
  | inr h ↦ rw h (between_bounds s e rows)
]

since-eq_self :
    (s : ℕ) (rows : List Kline) → All (λ row. s ≤ row.open_time) rows → since s rows ≡ rows
since-eq_self s [] h = refl
since-eq_self s (row ∷ rows) h = ground (arith, h.0, since-eq_self s rows h.1)

pub between_empty : (s e : ℕ) (rows : List Kline) → e < s → between s e rows ≡ []
between_empty s e [] h = refl
between_empty s e (row ∷ rows) h = ground (arith, between_empty s e rows h)

pub le-last_open_time :
    (n : ℕ) (row : Kline) (rows : List Kline)
    → IsSpaced (row ∷ rows)
    → row.open_time ≤ last_open_time row (take n rows)
le-last_open_time zero row rows h = omega arith
le-last_open_time (suc n) row [] h = omega arith
le-last_open_time (suc n) row (next ∷ rows) h =
    omega (arith, h.0.0, le-last_open_time n next rows h.1)

-- After a page with the last row `z`, the rows since a minute after `z` are those that are left.
pub since-take :
    (n : ℕ) (row : Kline) (rows : List Kline)
    → IsSpaced (row ∷ rows)
    → since (last_open_time row (take n rows) + min_in_epoch) (row ∷ rows) ≡ drop n rows
since-take zero row rows h = ground (arith, since-eq_self (row.open_time + min_in_epoch) rows h.0)
since-take (suc n) row [] h = ground arith
since-take (suc n) row (next ∷ rows) h =
    ground (arith, since-take n next rows h.1, le-last_open_time n next rows h.1, h.0.0)
