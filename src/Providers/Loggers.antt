-- ===== src/Providers/Loggers.antt =====
-- `Logger` of src/providers.rs. Its clones share the count of `limit`, an `isize` of 64 bits in two's
-- complement, which is an argument of each call. The channel to the writer is the parameter
-- `Writers`, and so are the texts of a value.
pub mod Kills
mod Tests
use Prim.Native.String.{String, ◌++◌ as str_append}
use pewpew.Prelude.{
  ℕ, ◌^◌, ◌%◌, Bool, true, false, not, ◌&&◌, ◌||◌, Option, none, some, List, [], ◌∷◌, ◌==◌, leb,
  if◌then◌else◌, usize_mod, wrapping_dec,
}

pub record Writers (W J : Type 0) : Type 0 where
  -- Whether the message was taken.
  pub start_send : String → W → Bool × W
  pub disconnect : W → W
  pub is_string : J → Bool
  pub pretty_text : J → String
  pub json_value_to_string : J → String

pub record Logger (W : Type 0) : Type 0 where
  pub limited : Bool
  pub pretty : Bool
  pub test_killer : Bool
  pub writer : W

-- What a configuration asks for.
pub record LoggerConfig : Type 0 where
  pub limit : Option ℕ
  pub pretty : Bool
  pub kill : Bool

-- The count that a logger begins with, if it has one.
unfoldable pub initial_limit : LoggerConfig → Option ℕ
initial_limit config = elim config.limit [
  | none ↦ if config.kill then some 1 else none
  | some limit ↦ some (limit % usize_mod)
]

unfoldable pub logger : {W : Type 0} → LoggerConfig → W → Logger W
unfolding initial_limit
logger config writer = record {
  limited = elim (initial_limit config) [ none ↦ false | some limit ↦ true ];
  pretty = config.pretty;
  test_killer = config.kill;
  writer = writer;
}

-- `i <= 0` of an `isize`.
unfoldable pub is_spent : ℕ → Bool
is_spent i = i == 0 || leb (2 ^ 63) i

module _ {W J : Type 0} (w : Writers W J) where
  unfoldable pub json_to_msg_type : Logger W → J → String
  json_to_msg_type l j =
      if l.pretty && not (w.is_string j)
      then str_append (w.pretty_text j) "\n"
      else str_append (w.json_value_to_string j) "\n"

  unfoldable pub disconnected : Bool → W → W
  disconnected spent writer = if spent then w.disconnect writer else writer

  -- Whether the message was taken and whether the test is killed, with the count and the logger.
  unfoldable pub logger_start_send : ℕ → J → Logger W → ((Bool × Bool) × ℕ) × Logger W
  unfolding json_to_msg_type is_spent disconnected
  logger_start_send limit item l =
      let spent = l.limited && is_spent limit in
      let (taken, writer) = w.start_send (json_to_msg_type l item) (disconnected spent l.writer) in
      (
        ((taken, spent && l.test_killer), if l.limited then wrapping_dec limit else limit),
        record l { writer = writer },
      )

  -- Whether each call of several clones kills the test.
  unfoldable pub kills : ℕ → List (J × Logger W) → List Bool
  unfolding logger_start_send
  kills limit [] = []
  kills limit ((item, l) ∷ calls) =
      (logger_start_send limit item l).0.0.1 ∷ kills (logger_start_send limit item l).0.1 calls
