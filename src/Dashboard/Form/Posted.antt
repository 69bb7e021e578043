-- ===== src/Dashboard/Form/Posted.antt =====
-- The form over the API's handler.
use crypto_market_data_pipel.Prelude.{
  ℕ, ◌-◌, ◌*◌, ◌/◌, ◌≡◌, ◌≤◌, ◌<◌, ◌↔◌, ◌⊎◌, inl, inr, refl, ap, ◌∙◌, Bool, true, none, some, List,
  [], ◌∷◌, leb, String, arith, Bool-cases,
}
use crypto_market_data_pipel.Common.Errors.{ok, err, value_error}
use crypto_market_data_pipel.Common.Candle.{Candle, minute}
use crypto_market_data_pipel.Backfill.Command.{day}
use crypto_market_data_pipel.Backtest.Numbers.{Numbers}
use crypto_market_data_pipel.Api.Routes.{Reply, reply, http_exception}
use crypto_market_data_pipel.Api.Requests.{
  BacktestRequest, matches_symbol, is_rate, check_fields, check_consistency, validate,
  max_backtest_candles,
}
use crypto_market_data_pipel.Api.Backtests.{
  BacktestResponse, when_valid, post_backtest, backtest_endpoint,
}
use crypto_market_data_pipel.Api.App.{respond}
use crypto_market_data_pipel.Api.Backtests.Responses.{validate-ok}
use crypto_market_data_pipel.Dashboard.Client.{Called, value, status_message, call, deliver}
use crypto_market_data_pipel.Dashboard.Form.{
  Defaults, Form, Session, View, shown, error_box, end_before_start, windows_box, defaults,
  request_of, result_pieces, on_post, on_submit, on_defaults, backtest_page,
}

module _ (n : Numbers) where
  -- What the widgets of the form let through, for a symbol that has the API's form.
  abbrev pub IsEntered : Form n → Type 0
  IsEntered form =
      (matches_symbol form.symbol ≡ true)
      × (n.ltb_d n.zero_d form.initial_capital ≡ true)
      × (1 ≤ form.fast_window)
      × (is_rate n form.fee_rate ≡ true)
      × (is_rate n form.slippage ≡ true)

  abbrev pub IsInRange : Form n → Type 0
  IsInRange form =
      (form.start_day < form.end_day)
      × (form.fast_window < form.slow_window)
      × ((form.end_day - form.start_day) * 1440 ≤ max_backtest_candles)

  -- The page after an answer: a result is shown and kept, and an error removes the earlier result.
  abbrev pub after_answer : (ℕ → String) → Form n → Session n → Reply (BacktestResponse n) → View n
  after_answer texts form session (reply r) =
      shown (result_pieces n form r) (record session { backtest_result = some r })
  after_answer texts form session (http_exception status) =
      shown (error_box (status_message status (texts status)) ∷ [])
        (record session { backtest_result = none })

  check_fields-IsEntered :
      (form : Form n)
      → IsEntered form
      → 2 ≤ form.slow_window
      → check_fields n (request_of n form) ≡ true
  check_fields-IsEntered form (s, i, f, fee, slip) w = ground arith

  validate-IsInRange :
      (form : Form n) → IsEntered form → (validate n (request_of n form) ≡ ok tt) ↔ IsInRange form
  unfolding validate check_consistency
  validate-IsInRange form e = (
    (λ h.
        let (days, windows, size) = validate-ok n (request_of n form) h in
        (omega arith, windows, omega arith)),
    (λ r.
        let fields = check_fields-IsEntered form e (omega (arith, e.2, r.1)) in
        let later : form.start_day * day < form.end_day * day = omega (arith, r.0) in
        let size : (form.end_day * day - form.start_day * day) / minute ≤ max_backtest_candles =
          omega (arith, r.2) in
        let windows = r.1 in ground arith),
  )

  on_post-after_answer :
      (texts : ℕ → String) (form : Form n) (session : Session n)
      (answer : Reply (BacktestResponse n))
      → on_post n form session (call (deliver texts answer))
        ≡ after_answer texts form session answer
  on_post-after_answer texts form session (reply r) = refl
  on_post-after_answer texts form session (http_exception status) = refl

  validate_refuses :
      (form : Form n)
      → IsEntered form
      → 2 ≤ form.slow_window
      → (form.end_day ≤ form.start_day)
        ⊎ ((form.slow_window ≤ form.fast_window)
            ⊎ (max_backtest_candles < (form.end_day - form.start_day) * 1440))
      → validate n (request_of n form) ≡ err value_error
  unfolding validate check_consistency
  validate_refuses form e w (inl days) =
      let fields = check_fields-IsEntered form e w in
      let later : form.end_day * day ≤ form.start_day * day = omega arith in ground arith
  validate_refuses form e w (inr (inl windows)) =
      let fields = check_fields-IsEntered form e w in ground arith
  validate_refuses form e w (inr (inr wide)) =
      let fields = check_fields-IsEntered form e w in
      let size : max_backtest_candles < (form.end_day * day - form.start_day * day) / minute =
        omega arith in
      ground arith

  submit_posts :
      (post : BacktestRequest n → Called (BacktestResponse n)) (form : Form n) (session : Session n)
      → form.start_day < form.end_day
      → form.fast_window < form.slow_window
      → on_submit n post form session true ≡ on_post n form session (post (request_of n form))
  submit_posts post form session days windows = ground arith

  submit_refuses :
      (post : BacktestRequest n → Called (BacktestResponse n)) (form : Form n) (session : Session n)
      → (form.end_day ≤ form.start_day) ⊎ (form.slow_window ≤ form.fast_window)
      → (on_submit n post form session true ≡ shown (end_before_start ∷ []) session)
        ⊎ (on_submit n post form session true ≡ shown (windows_box ∷ []) session)
  submit_refuses post form session (inl days) = inl (ground arith)
  submit_refuses post form session (inr windows) =
      elim (Bool-cases (leb form.end_day form.start_day)) [
        | inl h ↦ inl (ground arith)
        | inr h ↦ inr (ground arith)
      ]

  module _ (table : List (Candle n.D)) (in_time : Bool) (texts : ℕ → String) where
    -- The page that posts to the API's handler, for listed symbols and a submitted form.
    abbrev pub served_page : String → List String → ℕ → Session n → Form n → View n
    served_page s ss now session form =
        backtest_page n (value (s ∷ ss))
          (λ request. call (deliver texts (backtest_endpoint n table in_time request))) now session
          form true

    filled :
        (s : String) (ss : List String) (now : ℕ) (session : Session n) (form : Form n)
        {d : Defaults}
        → defaults s ss now session.last_selection ≡ ok d
        → served_page s ss now session form
          ≡ on_submit n
              (λ request. call (deliver texts (backtest_endpoint n table in_time request)))
              form
              session
              true
    unfolding backtest_page
    filled s ss now session form h =
        ap
          (λ q. on_defaults n q (
            on_submit n
              (λ request. call (deliver texts (backtest_endpoint n table in_time request))) form
              session true))
          h

    submitted :
        (s : String) (ss : List String) (now : ℕ) (session : Session n) (form : Form n)
        {d : Defaults}
        → defaults s ss now session.last_selection ≡ ok d
        → form.start_day < form.end_day
        → form.fast_window < form.slow_window
        → served_page s ss now session form
          ≡ after_answer texts form session (backtest_endpoint n table in_time (request_of n form))
    submitted s ss now session form h days windows =
        filled s ss now session form h
        ∙ submit_posts (λ request. call (deliver texts (backtest_endpoint n table in_time request)))
            form session days windows
        ∙ on_post-after_answer texts form session _

    invalid :
        (request : BacktestRequest n)
        → validate n request ≡ err value_error
        → backtest_endpoint n table in_time request ≡ http_exception 422
    unfolding backtest_endpoint
    invalid request h = ap (λ v. respond (when_valid n v (post_backtest n table in_time request))) h

    -- The form, with values that its widgets let through and defaults that it can offer. With the start
    -- before the end, the fast window shorter than the slow one and a range within the limit, the
    -- request that it posts is valid, and the page shows and keeps the result of the handler, or shows its
    -- error and drops the earlier result. With the days or the windows the wrong way round, the request
    -- would be refused, and the page shows one box and leaves the session as it is. With a range that is
    -- too large, the page shows the handler's 422 and drops the earlier result.
    pub backtest_page-backtest_endpoint :
        (s : String) (ss : List String) (now : ℕ) (session : Session n) (form : Form n)
        {d : Defaults}
        → defaults s ss now session.last_selection ≡ ok d
        → IsEntered form
        → 2 ≤ form.slow_window
        → let valid = validate n (request_of n form) in
          let page = served_page s ss now session form in
          let backwards = (form.end_day ≤ form.start_day) ⊎ (form.slow_window ≤ form.fast_window) in
          let wide = max_backtest_candles < (form.end_day - form.start_day) * 1440 in
          (IsInRange form
            → (valid ≡ ok tt)
              × (page
                  ≡ after_answer texts form session
                      (backtest_endpoint n table in_time (request_of n form))))
          × (backwards
              → (valid ≡ err value_error)
                × ((page ≡ shown (end_before_start ∷ []) session)
                    ⊎ (page ≡ shown (windows_box ∷ []) session)))
          × (form.start_day < form.end_day
              → form.fast_window < form.slow_window
              → wide
              → page
                ≡ shown
                    (error_box (status_message 422 (texts 422)) ∷ [])
                    (record session { backtest_result = none }))
    backtest_page-backtest_endpoint s ss now session form h e w =
        let post = λ (request : BacktestRequest n).
          call (deliver texts (backtest_endpoint n table in_time request)) in
        (
          (λ r. ((validate-IsInRange form e).1 r, submitted s ss now session form h r.0 r.1)),
          (λ b. (
            elim b [
              | inl days ↦ validate_refuses form e w (inl days)
              | inr windows ↦ validate_refuses form e w (inr (inl windows))
            ],
            elim (submit_refuses post form session b) [
              | inl q ↦ inl (filled s ss now session form h ∙ q)
              | inr q ↦ inr (filled s ss now session form h ∙ q)
            ],
          )),
          (λ days windows wide.
              submitted s ss now session form h days windows
              ∙ ap (after_answer texts form session)
                  (invalid (request_of n form) (validate_refuses form e w (inr (inr wide))))),
        )
