-- ===== src/Common/Json.antt =====
-- The values of Python's `json` module, and the standard library's conversions between texts and
-- decimals, moments and bytes, which are an interface here. Numbers are the natural ones: the
-- messages hold times in milliseconds, and every price as a text.
use crypto_market_data_pipel.Prelude.{
  ℕ, ◌≡◌, Bool, true, false, not, ◌==◌, String, str_eq, if◌then◌else◌,
}
use crypto_market_data_pipel.Common.Errors.{Result, ok, err, key_error, type_error}

mutual
  pub data Json : Type 0 where
    null : Json
    bool : Bool → Json
    num : ℕ → Json
    text : String → Json
    arr : Items → Json
    obj : Fields → Json

  pub data Items : Type 0 where
    nil : Items
    cons : Json → Items → Items

  pub data Fields : Type 0 where
    done : Fields
    field : String → Json → Fields → Fields

-- `json.loads` keeps the last of several equal keys; `get_field` looks from the end.
abbrev pub get_field : String → Fields → Result Json
get_field k done = err key_error
get_field k (field j v rest) =
    let later = get_field k rest in
    elim later [ ok w ↦ ok w | err _ ↦ if str_eq j k then ok v else err key_error ]

-- `value[key]` with a text as the key
abbrev pub item : Json → String → Result Json
item (obj fields) k = get_field k fields
item _ k = err type_error

-- `if value:`
abbrev pub truthy : Json → Bool
truthy null = false
truthy (bool b) = b
truthy (num n) = not (n == 0)
truthy (text s) = not (str_eq s "")
truthy (arr nil) = false
truthy (arr (cons x xs)) = true
truthy (obj done) = false
truthy (obj (field k v rest)) = true

-- `decimal` is `Decimal(value)`, `str` its `str`; `fromisoformat` gives the moment in UTC.
pub record Codec : Type 1 where
  pub D : Type 0
  pub Bytes : Type 0
  pub decimal : Json → Result D
  pub str : D → String
  pub fromisoformat : String → Result ℕ
  pub isoformat : ℕ → String
  pub loads : Bytes → Result Json
  pub dumps : Json → Bytes

-- What the standard library documents: each reader takes back what its writer wrote.
pub record IsFaithful (c : Codec) : Type 0 where
  pub decimal-str : (d : c.D) → c.decimal (text (c.str d)) ≡ ok d
  pub fromisoformat-isoformat : (t : ℕ) → c.fromisoformat (c.isoformat t) ≡ ok t
  pub loads-dumps : (j : Json) → c.loads (c.dumps j) ≡ ok j
