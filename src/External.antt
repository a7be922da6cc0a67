-- ===== src/External.antt =====
-- What the program takes from crates: serde_json, sha2 and url. A value of `External` is what those
-- provide; the model fixes nothing about it.
use eggreplay.Prelude.{ℕ, Option, List, Bool}
use eggreplay.Bytes.{Bytes}

-- The variants of `serde_json::Value` that the program tells apart. An array comes with its length.
pub data Kind : Type 0 where
  object other : Kind
  array : ℕ → Kind

pub record External : Type 1 where
  pub Value : Type 0
  -- `==` of `Value`
  pub value_beq : Value → Value → Bool
  -- `serde_json::from_slice`, `from_str`; `serde_json::to_string` and `Display`
  pub from_slice : Bytes → Option Value
  pub to_text : Value → Bytes
  -- `Value::pointer`, and `pointer_mut` with what is then done to the target
  pub pointer : Value → Bytes → Option Value
  pub modify : Value → Bytes → (Value → Value) → Option Value
  -- `Value::String(text)` as an expression and as a pattern
  pub of_string : Bytes → Value
  pub as_string : Value → Option Bytes
  pub kind : Value → Kind
  -- `Map::remove` of an object and `Vec::remove` of an array
  pub remove_key : Bytes → Value → Value
  pub remove_index : ℕ → Value → Value
  -- `format!("{:x}", Sha256::digest(bytes))`
  pub sha256_hex : Bytes → Bytes
  -- `form_urlencoded::parse`
  pub parse_form : Bytes → List (Bytes × Bytes)
