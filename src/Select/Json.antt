-- ===== src/Select/Json.antt =====
-- serde_json's values as lib/config/src/select_parser.rs matches on them, and the Rust numbers
-- behind them as parameters.
use Prim.Native.String.{String}
use pewpew.Prelude.{ℕ, Bool, Option}

-- `f64` with the operations that the program uses, and serde_json's `Number`.
pub record Numbers : Type 1 where
  pub Float : Type 0
  pub add : Float → Float → Float
  pub sub : Float → Float → Float
  pub mul : Float → Float → Float
  pub div : Float → Float → Float
  pub rem : Float → Float → Float
  pub lt : Float → Float → Bool
  pub le : Float → Float → Bool
  pub trunc : Float → Float
  pub epsilon : Float
  pub nan : Float
  pub float_zero : Float
  -- `x as u64`.
  pub as_u64 : Float → ℕ
  pub float_eq : Float → Float → Bool
  pub Number : Type 0
  pub of_u64 : ℕ → Number
  -- `Value::from` of a float, which has no number for NaN and the infinities.
  pub of_f64 : Float → Option Number
  -- Whether it is held as an integer, and if so whether it is 0.
  pub int_zero : Number → Option Bool
  pub as_f64 : Number → Float

mutual
  pub data Value (n : Numbers) : Type 0 where
    null : Value n
    bool : Bool → Value n
    number : n.Number → Value n
    string : String → Value n
    array : Items n → Value n
    object : Fields n → Value n

  pub data Items (n : Numbers) : Type 0 where
    nil : Items n
    cons : Value n → Items n → Items n

  pub data Fields (n : Numbers) : Type 0 where
    end : Fields n
    field : String → Value n → Fields n → Fields n
