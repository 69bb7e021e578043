-- ===== src/Dashboard/Charts.antt =====
-- src/crypto_pipeline/dashboard/charts.py: the stretches without candles that the chart shades.
use crypto_market_data_pipel.Prelude.{
  ℕ, ◌+◌, ◌-◌, ◌≡◌, ◌≤◌, ◌<◌, ◌⊎◌, inl, inr, refl, sym, ap, ◌∙◌, Bool, true, false, List, [], ◌∷◌,
  ◌++◌, ltb, last_or, All, All-append, All-imp, leb, arith, if◌then◌else◌,
}
use mathlib.Core.List.{append-nil, append_assoc}
use mathlib.Core.Path.{subst}
use crypto_market_data_pipel.Common.Errors.{Result, ok, err, index_error}

abbrev pub Span : Type 0
Span = ℕ × ℕ

-- `if b - a > interval: spans.append((a, b))`; a negative difference is 0 here, and as little above.
abbrev pub span_of : ℕ → ℕ → ℕ → List Span
span_of interval a b = if ltb interval (b - a) then (a, b) ∷ [] else []

-- The pairs of neighbours that lie further apart than the interval.
abbrev pub inner_spans : ℕ → ℕ → List ℕ → List Span
inner_spans interval a [] = []
inner_spans interval a (b ∷ rest) = span_of interval a b ++ inner_spans interval b rest

-- The argument is the column `ts` of the frame.
unfoldable pub gap_spans : List ℕ → ℕ → ℕ → ℕ → Result (List Span)
gap_spans [] start end interval = err index_error
gap_spans (first ∷ rest) start end interval = ok (
    span_of interval start first
    ++ (inner_spans interval first rest ++ span_of interval (last_or first rest) end))

-- A moment in one of the spans, or between two neighbours of a chain that are close.
abbrev pub InSome : ℕ → List Span → Type 0
InSome t [] = ⊥
InSome t ((a, b) ∷ rest) = ((a ≤ t) × (t ≤ b)) ⊎ InSome t rest

abbrev pub IsNear : ℕ → ℕ → ℕ → List ℕ → Type 0
IsNear interval t a [] = ⊥
IsNear interval t a (b ∷ rest) = ((a ≤ t) × (t ≤ b) × (b ≤ a + interval)) ⊎ IsNear interval t b rest

-- Times that do not descend from a first one.
abbrev pub IsChain : ℕ → List ℕ → Type 0
IsChain a [] = Unit
IsChain a (b ∷ rest) = (a ≤ b) × IsChain b rest

-- The spans are those of the chain from the start over the candles to the end.
gap_spans-chain :
    (first : ℕ) (rest : List ℕ) (end interval : ℕ)
    → inner_spans interval first rest ++ span_of interval (last_or first rest) end
      ≡ inner_spans interval first (rest ++ (end ∷ []))
gap_spans-chain first [] end interval = sym (append-nil (span_of interval first end))
gap_spans-chain first (b ∷ rest) end interval =
    append_assoc (span_of interval first b) (inner_spans interval b rest) _
    ∙ ap (λ l. span_of interval first b ++ l) (gap_spans-chain b rest end interval)

InSome-append : (t : ℕ) (xs ys : List Span) → InSome t xs ⊎ InSome t ys → InSome t (xs ++ ys)
InSome-append t [] ys (inl h) = elim h [ ]
InSome-append t [] ys (inr h) = h
InSome-append t ((a, b) ∷ xs) ys (inl (inl h)) = inl h
InSome-append t ((a, b) ∷ xs) ys (inl (inr h)) = inr (InSome-append t xs ys (inl h))
InSome-append t ((a, b) ∷ xs) ys (inr h) = inr (InSome-append t xs ys (inr h))

-- A pair of neighbours is a span or close.
span_of-covers :
    (interval a b t : ℕ) → a ≤ t → t ≤ b → InSome t (span_of interval a b) ⊎ (b ≤ a + interval)
span_of-covers interval a b t h k = split (ltb interval (b - a)) refl
  where
    split :
        (wide : Bool)
        → ltb interval (b - a) ≡ wide
        → InSome t (if wide then (a, b) ∷ [] else []) ⊎ (b ≤ a + interval)
    split true e = inl (inl (h, k))
    split false e = inr (ground arith)

inner_spans-covers :
    (interval a t b : ℕ) (rest : List ℕ)
    → a ≤ t
    → t ≤ last_or b rest
    → InSome t (inner_spans interval a (b ∷ rest)) ⊎ IsNear interval t a (b ∷ rest)
inner_spans-covers interval a t b [] h k = elim (span_of-covers interval a b t h k) [
  | inl s ↦ inl (InSome-append t (span_of interval a b) [] (inl s))
  | inr close ↦ inr (inl (h, k, close))
]
inner_spans-covers interval a t b (c ∷ cs) h k =
    split (leb t b) refl (inner_spans-covers interval b t c cs)
  where
    split :
        (early : Bool)
        → leb t b ≡ early
        → (b ≤ t
            → t ≤ last_or c cs
            → InSome t (inner_spans interval b (c ∷ cs)) ⊎ IsNear interval t b (c ∷ cs))
        → InSome t (inner_spans interval a (b ∷ c ∷ cs)) ⊎ IsNear interval t a (b ∷ c ∷ cs)
    split true e ih = elim (span_of-covers interval a b t h (ground arith)) [
      | inl s ↦
          inl (InSome-append t (span_of interval a b) (inner_spans interval b (c ∷ cs)) (inl s))
      | inr close ↦ inr (inl (h, ground arith, close))
    ]
    split false e ih = elim (ih (ground arith) k) [
      | inl s ↦
          inl (InSome-append t (span_of interval a b) (inner_spans interval b (c ∷ cs)) (inr s))
      | inr near ↦ inr (inr near)
    ]

-- A span is longer than the interval, lies between two times, and none of some times is inside.
abbrev pub IsGap : ℕ → ℕ → ℕ → List ℕ → Span → Type 0
IsGap interval from to times (a, b) =
    (a + interval < b) × (from ≤ a) × (b ≤ to) × All (λ p. (p ≤ a) ⊎ (b ≤ p)) times

chain_above : (a : ℕ) (chain : List ℕ) (b : ℕ) → b ≤ a → IsChain a chain → All (λ p. b ≤ p) chain
chain_above a [] b h c = tt
chain_above a (d ∷ rest) b h (k, c) = (omega arith, chain_above d rest b (omega arith) c)

last_above : (a : ℕ) (chain : List ℕ) → IsChain a chain → a ≤ last_or a chain
last_above a [] c = omega arith
last_above a (b ∷ rest) (h, c) = omega (arith, last_above b rest c)

inner_spans-IsGap :
    (interval a to : ℕ) (chain : List ℕ)
    → last_or a chain ≡ to
    → IsChain a chain
    → All (IsGap interval a to chain) (inner_spans interval a chain)
inner_spans-IsGap interval a to [] l c = tt
inner_spans-IsGap interval a to (b ∷ rest) l (h, c) =
    All-append (IsGap interval a to (b ∷ rest)) (span_of interval a b) (inner_spans interval b rest)
      (first (ltb interval (b - a)) refl)
      (All-imp (IsGap interval b to rest) (IsGap interval a to (b ∷ rest))
        (inner_spans interval b rest) (λ s g. (g.0, omega (arith, g.1), g.2, (inl g.1, g.3)))
        (inner_spans-IsGap interval b to rest l c))
  where
    first :
        (wide : Bool)
        → ltb interval (b - a) ≡ wide
        → All (IsGap interval a to (b ∷ rest)) (if wide then (a, b) ∷ [] else [])
    first true e =
        let after =
          All-imp (λ p. b ≤ p) (λ p. (p ≤ a) ⊎ (b ≤ p)) rest (λ p l. inr l)
            (chain_above b rest b (omega arith) c) in
        (
          (
            ground arith,
            omega arith,
            omega (arith, last_above b rest c),
            (inr (omega arith), after),
          ),
          tt,
        )
    first false e = tt

last_of_chain : (first end : ℕ) (rest : List ℕ) → last_or first (rest ++ (end ∷ [])) ≡ end
last_of_chain first end [] = refl
last_of_chain first end (b ∷ rest) = last_of_chain b end rest

-- For candles in ascending order between the start and the end, `gap_spans` returns spans that are
-- longer than the interval, lie between the start and the end and have no candle strictly inside; and
-- each moment from the start to the end is in one of them, or lies between two neighbours, among the
-- candles and the two ends, that are at most the interval apart.
pub gap_spans_exact :
    (first : ℕ) (rest : List ℕ) (start end interval : ℕ)
    → IsChain start ((first ∷ rest) ++ (end ∷ []))
    → (spans : List Span) × (gap_spans (first ∷ rest) start end interval ≡ ok spans)
      × All (IsGap interval start end ((first ∷ rest) ++ (end ∷ []))) spans
      × ((t : ℕ)
          → start ≤ t
          → t ≤ end
          → InSome t spans ⊎ IsNear interval t start ((first ∷ rest) ++ (end ∷ [])))
unfolding gap_spans
gap_spans_exact first rest start end interval c =
    let chain = (first ∷ rest) ++ (end ∷ []) in
    let whole =
      ap (λ l. ok (span_of interval start first ++ l)) (gap_spans-chain first rest end interval) in
    (
      inner_spans interval start chain,
      whole,
      inner_spans-IsGap interval start end chain (last_of_chain first end rest) c,
      λ t h k.
          inner_spans-covers interval start t first (rest ++ (end ∷ [])) h
            (subst (λ u. t ≤ u) (sym (last_of_chain first end rest)) k),
    )
