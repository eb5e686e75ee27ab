-- ===== src/Json.antt =====
-- The parts of serde_json that the program uses, as a parameter: a type `V` of values with its
-- accessors, its printer and its parser.
pub mod Samples
use gocode.Base.{Option, List, String}

pub record Json (V : Type 0) : Type 0 where
  pub get : V → String → Option V
  pub as_str : V → Option String
  pub as_array : V → Option (List V)
  pub to_string : V → String
  pub from_str : String → Option V
  pub empty_object : V
