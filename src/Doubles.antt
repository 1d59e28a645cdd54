-- ===== src/Doubles.antt =====
-- `double` and what the library does with one, as an interface: there are no floats to compute with.
pub mod Instance
use hyperliquid_sdk_cpp.Common.{String, ℤ, Bool}

pub record Doubles : Type 1 where
  pub Double : Type 0
  -- `snprintf(buf, 64, "%.8f", x)`, `std::stod`, `-`, `std::abs`, `>=`, and the literal 1e-12.
  pub print8 : Double → String
  pub stod : String → Double
  pub minus : Double → Double → Double
  pub abs : Double → Double
  pub geb : Double → Double → Bool
  pub tolerance : Double
  pub to_string : Double → String
  -- `std::llround(x * 1e6)`
  pub llround_1e6 : Double → ℤ
