-- ===== src/Common/Dict.antt =====
-- Python's `dict` with texts as keys, as an association list.
use crypto_market_data_pipel.Prelude.{
  ◌≡◌, refl, Option, none, some, List, [], ◌∷◌, String, str_eq, eq_iff, if◌then◌else◌, arith,
}

abbrev pub Dict {ℓ} : Type ℓ → Type ℓ
Dict V = List (String × V)

module _ {ℓ} {V : Type ℓ} where
  -- `d.get(k)`
  abbrev pub get : Dict V → String → Option V
  get [] k = none
  get ((j, v) ∷ d) k = if str_eq j k then some v else get d k

  -- `d[k] = v`
  abbrev pub set_item : Dict V → String → V → Dict V
  set_item [] k v = (k, v) ∷ []
  set_item ((j, w) ∷ d) k v = if str_eq j k then (j, v) ∷ d else (j, w) ∷ set_item d k v

  -- `dict.fromkeys(keys, v)`
  abbrev pub fromkeys : List String → V → Dict V
  fromkeys [] v = []
  fromkeys (k ∷ ks) v = set_item (fromkeys ks v) k v

  pub get-set_item :
      (d : Dict V) (k j : String) (v : V)
      → get (set_item d k v) j ≡ (if str_eq k j then some v else get d j)
  get-set_item [] k j v = refl
  get-set_item ((i, w) ∷ d) k j v =
      ground (arith, eq_iff k j, eq_iff i k, eq_iff i j, get-set_item d k j v)
