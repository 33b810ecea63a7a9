-- ===== src/Liveness/Tests.antt =====
-- The report on two robots with news and one without.
use hydra_umc_server.Prelude.{
  ℕ, Option, none, some, List, [], ◌∷◌, All, ◌≡◌, refl, ℕ_discrete, lookup, put,
}
use hydra_umc_server.RobotIds.{number, Controller}
use hydra_umc_server.Liveness.{
  state, heartbeat, RobotLiveness, line_of, lines_of, report, touch, stale_after_from,
}
use hydra_umc_server.Liveness.News.{News, touch_all, newest, Says, report-Says}

abbrev roster : List Controller
roster =
    record { id = some "c1"; robots = some (number 1) ∷ some (number 2) ∷ some (number 3) ∷ [] }
    ∷ []

abbrev news : List News
news =
    record { at = 1000; robot_id = 1; source = state }
    ∷ record { at = 2000; robot_id = 2; source = state }
    ∷ record { at = 90000; robot_id = 1; source = heartbeat }
    ∷ []

states : List RobotLiveness → List (ℕ × Option ℕ)
states [] = []
states (line ∷ lines) = (line.robot_id, line.age_s) ∷ states lines

report_example :
    states (report 100000 30 roster (touch_all news []))
    ≡ (1, some 10) ∷ (2, some 98) ∷ (3, none) ∷ []
unfolding states report lines_of line_of touch_all touch lookup put ℕ_discrete
report_example = refl

stale_after_example : stale_after_from (some 3601) ≡ 30
unfolding stale_after_from
stale_after_example = refl

report-Says_example :
    All
      (λ (line : RobotLiveness). Says 100000 30 (newest line.robot_id news none) line)
      (report 100000 30 roster (touch_all news []))
report-Says_example = report-Says 100000 30 roster news
