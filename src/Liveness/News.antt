-- ===== src/Liveness/News.antt =====
-- src/robotLiveness.ts: a report against the news that came in, whatever their number and their order.
use hydra_umc_server.Prelude.{
  ℕ, ◌+◌, ◌*◌, ◌<◌, ◌≤◌, ◌≢◌, String, Option, none, some, List, [], ◌∷◌, ◌++◌, All, ◌≡◌, refl, sym,
  ◌∙◌, ap, arith, subst, ite, ℕ_discrete, lookup, lookup-put_self, lookup-put_ne,
}
use hydra_umc_server.RobotIds.{RobotId, number, text, Controller, name_of}
use hydra_umc_server.Liveness.{
  live, stale, unknown, LivenessSource, RobotLiveness, Touch, Touches, touch, line_of, lines_of,
  report,
}

-- One call of `touch`: the instant, the robot and the source.
pub record News : Type 0 where
  pub at : ℕ
  pub robot_id : ℕ
  pub source : LivenessSource

-- The first news come first.
unfoldable pub touch_all : List News → Touches → Touches
unfolding touch
touch_all [] touches = touches
touch_all (n ∷ news) touches = touch_all news (touch n.at n.robot_id n.source touches)

-- The last news of a robot, or what was known of it before.
unfoldable pub newest : ℕ → List News → Option Touch → Option Touch
newest id [] known = known
newest id (n ∷ news) known =
    newest id news
      (ite (ℕ_discrete id n.robot_id) (some (record { at = n.at; source = n.source })) known)

-- What a line says, by the last news of its robot.
abbrev pub Says : ℕ → ℕ → Option Touch → RobotLiveness → Type 0
Says now stale_after_s none line = line.state ≡ unknown
Says now stale_after_s (some t) line =
    (now < t.at + 1000 * stale_after_s + 500 → line.state ≡ live)
    × (t.at + 1000 * stale_after_s + 500 ≤ now → line.state ≡ stale)
    × (line.last_update_utc ≡ some t.at)
    × (line.source ≡ some t.source)

lookup-touch :
    (id : ℕ) (n : News) (touches : Touches)
    → lookup ℕ_discrete id (touch n.at n.robot_id n.source touches)
      ≡ ite
          (ℕ_discrete id n.robot_id)
          (some (record { at = n.at; source = n.source }))
          (lookup ℕ_discrete id touches)
unfolding touch
lookup-touch id n touches =
    let t : Touch = record { at = n.at; source = n.source } in
    let self = lookup-put_self ℕ_discrete n.robot_id t touches in
    let other = λ (ne : id ≢ n.robot_id). lookup-put_ne ℕ_discrete n.robot_id t touches ne in
    ground arith

lookup-touch_all :
    (id : ℕ) (news : List News) (touches : Touches)
    → lookup ℕ_discrete id (touch_all news touches) ≡ newest id news (lookup ℕ_discrete id touches)
unfolding touch_all newest
lookup-touch_all id [] touches = refl
lookup-touch_all id (n ∷ news) touches =
    lookup-touch_all id news (touch n.at n.robot_id n.source touches)
    ∙ ap (newest id news) (lookup-touch id n touches)

line_of-robot_id :
    (now stale_after_s : ℕ) (controller : String) (id : ℕ) (known : Option Touch)
    → (line_of now stale_after_s controller id known).robot_id ≡ id
unfolding line_of
line_of-robot_id now stale_after_s controller id none = refl
line_of-robot_id now stale_after_s controller id (some t) = refl

line_of-Says :
    (now stale_after_s : ℕ) (controller : String) (id : ℕ) (known : Option Touch)
    → Says now stale_after_s known (line_of now stale_after_s controller id known)
unfolding line_of
line_of-Says now stale_after_s controller id none = refl
line_of-Says now stale_after_s controller id (some t) =
    (λ soon. ground arith, λ late. ground arith, refl, refl)

-- A line by what the lookup found, when that is the last news.
line-Says :
    (now stale_after_s : ℕ) (controller : String) (id : ℕ) (news : List News) (known : Option Touch)
    → known ≡ newest id news none
    → Says now stale_after_s
        (newest (line_of now stale_after_s controller id known).robot_id news none)
        (line_of now stale_after_s controller id known)
line-Says now stale_after_s controller id news known last =
    let line = line_of now stale_after_s controller id known in
    subst (λ (o : Option Touch). Says now stale_after_s o line)
      (last
        ∙ ap (λ i. newest i news none)
            (sym (line_of-robot_id now stale_after_s controller id known)))
      (line_of-Says now stale_after_s controller id known)

lines_of-Says :
    (now stale_after_s : ℕ) (controller : String) (robots : List (Option RobotId))
    (news : List News)
    → All
        (λ (line : RobotLiveness). Says now stale_after_s (newest line.robot_id news none) line)
        (lines_of now stale_after_s controller robots (touch_all news []))
unfolding lines_of lookup
lines_of-Says now stale_after_s controller [] news = tt
lines_of-Says now stale_after_s controller (none ∷ robots) news =
    lines_of-Says now stale_after_s controller robots news
lines_of-Says now stale_after_s controller (some (text s) ∷ robots) news =
    lines_of-Says now stale_after_s controller robots news
lines_of-Says now stale_after_s controller (some (number id) ∷ robots) news = (
  line-Says now stale_after_s controller id news (lookup ℕ_discrete id (touch_all news []))
      (lookup-touch_all id news []),
  lines_of-Says now stale_after_s controller robots news,
)

All-append :
    (P : RobotLiveness → Type 0) (xs ys : List RobotLiveness)
    → All P xs
    → All P ys
    → All P (xs ++ ys)
All-append P [] ys left right = right
All-append P (x ∷ xs) ys (first, left) right = (first, All-append P xs ys left right)

-- After any news, each line of the report says what the last news of its robot say: `unknown` when there are
-- none; else `live` when they are less than the limit and half a second old, `stale` when they are older, with
-- their instant and their source.
pub report-Says :
    (now stale_after_s : ℕ) (roster : List Controller) (news : List News)
    → All
        (λ (line : RobotLiveness). Says now stale_after_s (newest line.robot_id news none) line)
        (report now stale_after_s roster (touch_all news []))
unfolding report
report-Says now stale_after_s [] news = tt
report-Says now stale_after_s (c ∷ roster) news =
    All-append
      (λ (line : RobotLiveness). Says now stale_after_s (newest line.robot_id news none) line) _ _
      (lines_of-Says now stale_after_s (name_of c.id) c.robots news)
      (report-Says now stale_after_s roster news)
