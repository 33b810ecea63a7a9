-- ===== src/JogArming/Tests.antt =====
-- The arming of a jog on an example.
use hydra_umc_server.Prelude.{◌+◌, ◌<◌, String, Option, none, [], true, ◌≡◌, ◌↔◌}
use hydra_umc_server.JogArming.{arm, is_armed}
use hydra_umc_server.JogArming.Bound.{arm-is_armed}

arm-is_armed_example :
    ((is_armed 1500 1 "u1" none (arm 1000 1 "u1" none 5000 []).0).1 ≡ true)
    ↔ ((◌≡◌ {A = String} "u1" "u1") × (◌≡◌ {A = Option String} none none) × (1500 < 1000 + 5000))
arm-is_armed_example = arm-is_armed 1000 1500 1 5000 "u1" "u1" none none []
