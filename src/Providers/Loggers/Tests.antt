-- ===== src/Providers/Loggers/Tests.antt =====
-- A writer that keeps the messages, until it is disconnected.
use Prim.Native.String.{String}
use pewpew.Prelude.{◌≡◌, refl, Bool, true, false, none, some, List, [], ◌∷◌, ◌++◌}
use pewpew.Providers.Loggers.{Writers, Logger, initial_limit, logger}

abbrev Kept : Type 0
Kept = Bool × List String

abbrev writers : Writers Kept String
writers = record {
  start_send = λ s (open_, ms). elim open_ [
    | true ↦ (true, (true, ms ++ s ∷ []))
    | false ↦ (false, (false, ms))
  ];
  disconnect = λ (open_, ms). (false, ms);
  is_string = λ s. true;
  pretty_text = λ s. s;
  json_value_to_string = λ s. s;
}

-- A logger that kills and has no limit: the first value does not kill, the second one does.
abbrev killer : Logger Kept
killer = logger (record { limit = none; pretty = false; kill = true }) (true, [])

begins_at_one : initial_limit (record { limit = none; pretty = false; kill = true }) ≡ some 1
unfolding initial_limit
begins_at_one = refl
