-- ===== src/Common/Errors.antt =====
-- Python's exceptions, as far as the program tells them apart, and computations that may raise.
use crypto_market_data_pipel.Prelude.{ℕ, ◌≡◌, refl}

pub data Error : Type 0 where
  value_error type_error key_error invalid_operation overflow_error : Error
  runtime_error http_error kafka_error database_error index_error : Error
  gap_error : ℕ → Error

-- What a call gives: an exception, or its result.
pub data Result {ℓ} (R : Type ℓ) : Type ℓ where
  err : Error → Result R
  ok : R → Result R

module _ {ℓ κ} {R : Type ℓ} {Q : Type κ} where
  infixl 5 ◌>>=◌
  -- The calls after one that raises are not made.
  abbrev pub ◌>>=◌ : Result R → (R → Result Q) → Result Q
  err raised >>= after = err raised
  ok result >>= after = after result

  -- A chain that has a result is a call that has one, and what follows it.
  pub >>=-ok :
      (call : Result R) (after : R → Result Q) (q : Q)
      → (call >>= after) ≡ ok q
      → (r : R) × (call ≡ ok r) × (after r ≡ ok q)
  >>=-ok (ok result) after q h = (result, refl, h)
  >>=-ok (err raised) after q h = cc

pub ok-inj {ℓ} : {A : Type ℓ} {a b : A} → ok a ≡ ok b → a ≡ b
ok-inj h = cc
