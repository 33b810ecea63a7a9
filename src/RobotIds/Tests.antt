-- ===== src/RobotIds/Tests.antt =====
-- The ids of src/robotIds.ts on small examples.
use hydra_umc_server.Prelude.{String, Option, none, some, List, [], ◌∷◌, ◌≡◌, ltb}
use hydra_umc_server.RobotIds.{RobotId, text, Controller, is_robot_id_ambiguous}
use hydra_umc_server.RobotIds.Count.{robots_in, is_robot_id_ambiguous-count}

abbrev cell : String → List (Option RobotId) → Controller
cell id robots = record { id = some id; robots = robots }

abbrev doubled : List Controller
doubled =
    cell "a" (some (text "x") ∷ none ∷ some (text "y") ∷ []) ∷ cell "b" (some (text "x") ∷ []) ∷ []

is_robot_id_ambiguous-count_example :
    is_robot_id_ambiguous doubled (text "x") ≡ ltb 1 (robots_in "x" doubled)
is_robot_id_ambiguous-count_example = is_robot_id_ambiguous-count doubled (text "x")
