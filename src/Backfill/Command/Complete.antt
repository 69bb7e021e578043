-- ===== src/Backfill/Command/Complete.antt =====
-- A run of the command against an honest exchange and a database that takes its writes.
use crypto_market_data_pipel.Prelude.{
  ℕ, ◌+◌, ◌*◌, ◌≡◌, ◌<◌, refl, ap, ◌∙◌, true, false, some, List, [], ◌∷◌, ◌++◌, map, length, All,
  All-imp, String,
}
use crypto_market_data_pipel.Common.Errors.{ok}
use crypto_market_data_pipel.Common.Candle.{Candle}
use crypto_market_data_pipel.Common.Json.{Codec}
use crypto_market_data_pipel.Common.Parse.{Kline}
use crypto_market_data_pipel.Backfill.Fetch.{
  Client, World, fetch_range, parse_klines, last_complete_minute_ms, timestamp_ms, min_in_epoch,
}
use crypto_market_data_pipel.Backfill.Fetch.Pages.{between, IsSpaced}
use crypto_market_data_pipel.Backfill.Fetch.Complete.{IsHonest}
use crypto_market_data_pipel.Backfill.Fetch.Range.{fetch_range_complete}
use crypto_market_data_pipel.Writer.Table.{has_key}
use crypto_market_data_pipel.Writer.Table.Replay.{
  AllStored, has_key-insert_candles, AllStored-insert_candles,
}
use crypto_market_data_pipel.Writer.Consumer.{Outcome, written}
use crypto_market_data_pipel.Backfill.Command.{
  Args, Progress, resolve_range, insert, fetched, backfill_all, exit_code, begun, ended, for_range,
  main, label, backfill_all-Grows,
}

module _ (c : Codec) (history : String → List Kline) (start end : ℕ)
    (candles_of : String → List (Candle c.D)) where
  -- The rows of the history in the range are the given candles of the symbol.
  abbrev pub IsHistory : String → Type 0
  IsHistory symbol =
      IsSpaced (history symbol)
      × (parse_klines c symbol
            (between (timestamp_ms start) (last_complete_minute_ms end) (history symbol))
          ≡ ok (candles_of symbol))

module _ (c : Codec) {S : Type 0} (client : Client S) (history : String → List Kline)
    (honest : IsHonest history client) (fuel start end : ℕ)
    (candles_of : String → List (Candle c.D)) where
  -- What one symbol adds.
  abbrev added : String → World S → Progress c S → Progress c S
  added symbol w p =
      insert c client fuel false start end symbol written (candles_of symbol)
        (record p { world = w; total_fetched = p.total_fetched + length (candles_of symbol) })

  fetched-added :
      (symbol : String) (p : Progress c S)
      → 0 < fuel
      → last_complete_minute_ms end < timestamp_ms start + fuel * min_in_epoch
      → IsHistory c history start end candles_of symbol
      → (w : World S) × (fetched c client fuel false start end symbol written p
            (fetch_range c fuel client symbol start end p.world)
          ≡ some (added symbol w p))
  fetched-added symbol p pos enough (spaced, parsed) =
      let (w, e) =
        fetch_range_complete c client history honest symbol spaced fuel start end p.world pos
          enough in
      (
        w,
        ap (fetched c client fuel false start end symbol written p)
            (e ∙ ap (λ r. some (w, r)) parsed),
      )

  abbrev Stores : List String → Progress c S → Progress c S → Type 0
  Stores symbols p q =
      (q.failures ≡ p.failures)
      × ((k : Candle c.D) → has_key k p.table ≡ true → has_key k q.table ≡ true)
      × All (λ symbol. AllStored q.table (candles_of symbol)) symbols

  backfill_all-cons :
      (symbol : String) (rest : List (String × Outcome)) (p p' : Progress c S)
      → fetched c client fuel false start end symbol written p
          (fetch_range c fuel client symbol start end p.world)
        ≡ some p'
      → backfill_all c client fuel false start end ((symbol, written) ∷ rest) p
        ≡ backfill_all c client fuel false start end rest p'
  unfolding backfill_all
  backfill_all-cons symbol rest p p' e = rw (e, backfill_all)

  backfill_all-Stores :
      (symbols : List String) (p : Progress c S)
      → 0 < fuel
      → last_complete_minute_ms end < timestamp_ms start + fuel * min_in_epoch
      → All (IsHistory c history start end candles_of) symbols
      → (q : Progress c S) × (backfill_all c client fuel false start end
            (label (λ k. written) symbols)
            p
          ≡ some q)
        × Stores symbols p q
  unfolding backfill_all label
  backfill_all-Stores [] p pos enough h = (p, refl, (refl, (λ k e. e), tt))
  backfill_all-Stores (symbol ∷ rest) p pos enough (h, hs) =
      let candles = candles_of symbol in
      let (w, e) = fetched-added symbol p pos enough h in
      let (q, e', (failures, kept, stored)) =
        backfill_all-Stores rest (added symbol w p) pos enough hs in
      let this = AllStored-insert_candles p.table candles in
      (
        q,
        backfill_all-cons symbol (label (λ k. written) rest) p (added symbol w p) e ∙ e',
        (
          failures,
          (λ k there. kept k (has_key-insert_candles k p.table candles there)),
          (All-imp _ _ candles (λ k there. kept k there) this, stored),
        ),
      )

module _ (c : Codec) {S : Type 0} (client : Client S) (history : String → List Kline)
    (honest : IsHonest history client) where
  -- A backfill is complete. Against an honest exchange and a database that takes each write, for
  -- arguments without `--dry-run` whose range `resolve_range` accepts, with enough rounds and rows that
  -- parse: the command ends with the exit code 0, the table has only grown, and for each of the symbols,
  -- in upper case, it has the key of every candle of the history in the range.
  pub main-stores_history :
      (upper : String → String) (fuel now : ℕ) (args : Args) (table : List (Candle c.D))
      (w : World S) (candles_of : String → List (Candle c.D)) {start end : ℕ}
      → resolve_range c now args ≡ ok (start, end)
      → args.dry_run ≡ false
      → 0 < fuel
      → last_complete_minute_ms end < timestamp_ms start + fuel * min_in_epoch
      → All (IsHistory c history start end candles_of) (map upper args.symbol)
      → (q : Progress c S) × (main c client upper fuel now args (λ k. written) table w
          ≡ some (ok (0, q)))
        × ((grown : List (Candle c.D)) × (q.table ≡ table ++ grown))
        × All (λ symbol. AllStored q.table (candles_of symbol)) (map upper args.symbol)
  unfolding main
  main-stores_history upper fuel now args table w candles_of {start} {end} range wet pos enough h =
      let symbols = map upper args.symbol in
      let writes = label (λ k. written) symbols in
      let p = begun c table w in
      let (q, e, (failures, _, stored)) =
        backfill_all-Stores c client history honest fuel start end candles_of symbols p pos enough
          h in
      let (grown, grows, _, _, _) = backfill_all-Grows c client fuel false start end writes p q e in
      (
        q,
        ap (for_range c client upper fuel args.dry_run writes p) range
            ∙ ap (λ d. ended c (backfill_all c client fuel d start end writes p)) wet
            ∙ ap (ended c) e
            ∙ ap (λ l. some (ok (exit_code c l, q))) failures,
        (grown, grows),
        stored,
      )
