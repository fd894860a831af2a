-- ===== src/Storage/Examples.antt =====
-- The theorems of this folder at concrete commands.
use hermes.Base.{◌≡◌, false, none, some, [], ◌∷◌, arith, bytes}
use hermes.Storage.Command.{decode_command, encode_command, validate_command}
use hermes.Storage.Command.RoundTrip.{command_round_trip}

command_round_trip_example :
    (decode_command (encode_command (bytes "k") (1 ∷ 2 ∷ []) false)
      ≡ some (bytes "k", 1 ∷ 2 ∷ [], false))
    × (validate_command (encode_command (bytes "k") (1 ∷ 2 ∷ []) false) ≡ some none)
command_round_trip_example =
    command_round_trip (bytes "k") (1 ∷ 2 ∷ []) false (omega arith) (omega arith)
