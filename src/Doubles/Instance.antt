-- ===== src/Doubles/Instance.antt =====
-- Decimal texts in place of doubles, to run the model on: a text prints as itself.
use hyperliquid_sdk_cpp.Common.{String, pos, false}
use hyperliquid_sdk_cpp.Doubles.{Doubles}

abbrev pub text_doubles : Doubles
text_doubles = record {
  Double = String;
  print8 = λ x. x;
  stod = λ s. s;
  minus = λ x y. "0";
  abs = λ x. x;
  geb = λ x y. false;
  tolerance = "0.000000000001";
  to_string = λ x. x;
  llround_1e6 = λ x. pos 0;
}
