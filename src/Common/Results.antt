-- ===== src/Common/Results.antt =====
-- A C++ function that may throw returns a `Result`; the exception keeps its class, and its message
-- where the source builds one.
use Prim.Native.String.{String}
use mathlib.Core.Path.{◌≡◌, refl}
use mathlib.Core.Bool.{Bool, true, false}
use mathlib.Core.Option.{Option, none, some}

pub data Error : Type 0 where
  invalid_argument : String → Error
  runtime_error : String → Error
  -- `RestApiTransportError` and `RestApiRateLimitError`.
  transport_error rate_limit_error : String → Error
  out_of_range : Error
  json_type_error : Error
  -- What C++ leaves undefined, such as `operator[]` of a constant object without that member.
  undefined_behaviour : Error

-- What a call comes to: the exception that it throws, or the value that it returns.
pub data Result {ℓ} (Value : Type ℓ) : Type ℓ where
  err : Error → Result Value
  ok : Value → Result Value

-- The value, or that exception.
abbrev pub or_throw {ℓ} : {Value : Type ℓ} → Error → Option Value → Result Value
or_throw exception (some value) = ok value
or_throw exception none = err exception

-- `if (!condition) throw exception;`
abbrev pub require : Bool → Error → Result (Unit {0})
require false exception = err exception
require true exception = ok tt

infixl 5 ◌>>=◌
abbrev pub ◌>>=◌ {ℓ κ} :
    {Value : Type ℓ} {Next : Type κ} → Result Value → (Value → Result Next) → Result Next
err exception >>= continue = err exception
ok value >>= continue = continue value

infixl 5 ◌>>◌
abbrev pub ◌>>◌ {κ} : {Next : Type κ} → Result (Unit {0}) → Result Next → Result Next
checked >> next = checked >>= λ done. next

pub >>=-eq-ok {ℓ κ} :
    {Value : Type ℓ} {Next : Type κ} (m : Result Value) (continue : Value → Result Next)
    {result : Next}
    → (m >>= continue) ≡ ok result
    → (value : Value) × (m ≡ ok value) × (continue value ≡ ok result)
>>=-eq-ok (err exception) continue h = cc
>>=-eq-ok (ok value) continue h = (value, refl, h)
