-- ===== src/Dashboard/Client.antt =====
-- src/crypto_pipeline/dashboard/api_client.py: calls of the API over HTTP.
use crypto_market_data_pipel.Prelude.{ℕ, Option, none, some, String}
use crypto_market_data_pipel.Common.Errors.{Error, value_error}
use crypto_market_data_pipel.Api.Routes.{Reply, reply, http_exception}

-- What an HTTP request meets: no connection or a time-out, a response with an error status, or a
-- response whose body is some JSON or none. A body that is JSON may name a `detail`.
pub data Response (A : Type 0) : Type 0 where
  unreachable : Response A
  refused : ℕ → Option String → String → Response A
  answered : A → Response A
  garbled : Response A

-- The message of an ApiError.
pub data Message : Type 0 where
  could_not_reach : Message
  status_message : ℕ → String → Message

-- What a call gives: a value, an ApiError, or an exception that `_api_errors` lets through.
pub data Called (A : Type 0) : Type 0 where
  value : A → Called A
  api_error : Message → Called A
  raised : Error → Called A

-- `_detail`: the JSON's detail, or the text.
abbrev pub detail : Option String → String → String
detail none body = body
detail (some d) body = d

-- `_get` and `_post`, with `raise_for_status` and `json()` under `_api_errors`.
abbrev pub call : {A : Type 0} → Response A → Called A
call unreachable = api_error could_not_reach
call (refused status found body) = api_error (status_message status (detail found body))
call (answered a) = value a
call garbled = raised value_error

-- The response to a handler's reply, for a network that brings it.
abbrev pub deliver : {A : Type 0} → (ℕ → String) → Reply A → Response A
deliver texts (reply a) = answered a
deliver texts (http_exception status) = refused status (some (texts status)) (texts status)
