-- ===== src/Ingester/Stream/Steps.antt =====
-- One closed candle after a reconnect, through the functions of the handler.
use crypto_market_data_pipel.Prelude.{
  ℕ, ◌+◌, ◌≡◌, ◌∙◌, ap, Bool, true, false, some, eq_refl, if◌then◌else◌,
}
use crypto_market_data_pipel.Common.Errors.{ok}
use crypto_market_data_pipel.Common.Candle.{Candle}
use crypto_market_data_pipel.Common.Dict.{Dict, get, set_item, get-set_item}
use crypto_market_data_pipel.Common.Json.{Codec, Json}
use crypto_market_data_pipel.Common.Parse.{parse_ws_candle}
use crypto_market_data_pipel.Backfill.Fetch.{Client}
use crypto_market_data_pipel.Ingester.Stream.{
  Producer, Ingester, returned, publish, heal_since, heal_gap, after_heal, on_candle, on_parsed,
  on_closed, on_event, is_closed, event_of, handle_msg,
}
use crypto_market_data_pipel.Ingester.Stream.Publishing.{publish_counts}

module _ (c : Codec) {P S : Type 0} (broker : Producer c.Bytes P) where
  -- The state in which the handler publishes, after the gap was dealt with.
  abbrev pub settled : Candle c.D → Ingester c P S → Ingester c P S
  settled candle s = record s { reconnected = set_item s.reconnected candle.symbol false }

  pub reconnected-publish :
      (candle : Candle c.D) (s : Ingester c P S)
      → get (publish c broker candle (settled candle s)).reconnected candle.symbol ≡ some false
  reconnected-publish candle s =
      ap (λ (d : Dict Bool). get d candle.symbol)
        (publish_counts c broker candle (settled candle s)).2
      ∙ get-set_item s.reconnected candle.symbol candle.symbol false
      ∙ ap (λ b. if b then some false else get s.reconnected candle.symbol) (eq_refl candle.symbol)

  pub handle_msg_reconnected :
      (client : Client S) (fuel : ℕ) (msg event k : Json) (candle : Candle c.D)
      (s s₂ : Ingester c P S) (last : ℕ)
      → event_of msg ≡ ok (event, k)
      → is_closed k ≡ ok true
      → parse_ws_candle c event ≡ ok candle
      → get s.reconnected candle.symbol ≡ some true
      → get s.last_ts candle.symbol ≡ some last
      → heal_since c broker client fuel candle
          (record s { received = s.received + 1; kept = s.kept + 1 })
          (some last)
        ≡ some s₂
      → handle_msg c broker client fuel msg s
        ≡ returned (publish c broker candle (settled candle s₂))
  unfolding handle_msg heal_gap
  handle_msg_reconnected client fuel msg event k candle s s₂ last he hk hp hr hl heals =
      let s₁ : Ingester c P S = record s { received = s.received + 1; kept = s.kept + 1 } in
      ap (on_event c broker client fuel s) he
      ∙ ap (on_closed c broker client fuel event (record s { received = s.received + 1 })) hk
      ∙ ap (on_parsed c broker client fuel s₁) hp
      ∙ ap (on_candle c broker client fuel candle s₁) hr
      ∙ ap
          (λ o.
            after_heal c broker client fuel candle (heal_since c broker client fuel candle s₁ o))
          hl
      ∙ ap (after_heal c broker client fuel candle) heals
