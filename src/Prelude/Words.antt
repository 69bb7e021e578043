-- ===== src/Prelude/Words.antt =====
-- Texts compared by value.
use std.HLevel.{hedberg}
use mathlib.Core.Logic.{inl, inr}
use crypto_market_data_pipel.Prelude.Tests.{Bool-cases}
pub use Prim.Native.String.{String}
pub use text.Mathlib.Text.{◌==◌ as str_eq}
pub use text.Mathlib.TextEquality.{eq_iff}
pub use text.Mathlib.TextPositions.{eq_refl}

String-Discrete : Discrete String
String-Discrete s t = elim (Bool-cases (str_eq s t)) [
  | inl e ↦ yes ((eq_iff s t).0 e)
  | inr e ↦ no (λ p. absurd (let q = (eq_iff s t).1 p in cc))
]

pub String-IsSet : IsSet String
String-IsSet = hedberg String-Discrete
