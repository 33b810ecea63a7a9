-- ===== src/StopRelay/Stops.antt =====
-- What a pass of the relay does to robots and to the dispatcher.
use native.Mathlib.Nat.{pow-suc}
use hydra_umc_server.Prelude.{
  ℕ, zero, suc, ◌-◌, ◌*◌, ◌^◌, min, max, ◌≤◌, ◌≡◌, refl, ap, ◌∙◌, ◌⊎◌, inl, inr, Option, none, some,
  true, false, List, [], ◌∷◌, ◌++◌, append_assoc, append-nil, map, subst, String, Any, All, if_both,
  ltb, ◌==◌, ◌||◌, not, lookup, string_discrete, Bool-cases, arith,
}
use hydra_umc_server.StopRelay.{
  StopRelaySettings, StopRequest, Action, stop_robot, post_stop_ack, on_acknowledged, Answers,
  Progress, skip, act, settle, after_ack, stop_and_ack, handle, handle_all, pass_over, is_robot,
  if_mapped, JobStopRelay, next_delay_seconds, already_acknowledged, expired_at_dispatcher, too_old,
  not_mapped, not_applied, ack_lost, ack_refused, Skip,
}

-- A request that may be delivered to the robot `n`.
pub record IsDeliverable (settings : StopRelaySettings) (a : Answers) (r : StopRequest) (n : ℕ)
    : Type 0 where
  pub mapped : lookup string_discrete r.robot_id settings.robot_map ≡ some n
  pub open_at_dispatcher : r.expired ≡ false
  pub young : a.now r - r.requested_at_ms ≤ settings.max_request_age_seconds * 1000

-- What a pass may do for the requests `rs`, in order: stop a robot that one of them names; after a stop
-- that was applied, and only then, acknowledge that request; and after an acknowledgement that the
-- dispatcher answered by 200 or 409, and only then, tell the hand-over.
pub data Trace (settings : StopRelaySettings) (a : Answers) (rs : List StopRequest)
    : List Action → Type 0 where
  idle : Trace settings a rs []
  not_stopped :
      {done all : List Action} (r : StopRequest) (n : ℕ)
      → Trace settings a rs done
      → Any (λ q. q ≡ r) rs
      → IsDeliverable settings a r n
      → all ≡ done ++ stop_robot n ∷ []
      → Trace settings a rs all
  not_taken :
      {done all : List Action} (r : StopRequest) (n : ℕ)
      → Trace settings a rs done
      → Any (λ q. q ≡ r) rs
      → IsDeliverable settings a r n
      → a.is_stopped n ≡ true
      → all ≡ done ++ stop_robot n ∷ post_stop_ack r.robot_id r.job_id ∷ []
      → Trace settings a rs all
  taken :
      {done all : List Action} (r : StopRequest) (n : ℕ)
      → Trace settings a rs done
      → Any (λ q. q ≡ r) rs
      → IsDeliverable settings a r n
      → a.is_stopped n ≡ true
      → (a.ack r ≡ some 200) ⊎ (a.ack r ≡ some 409)
      → all
        ≡ done
          ++ stop_robot n
            ∷ post_stop_ack r.robot_id r.job_id
            ∷ on_acknowledged r.job_id r.robot_id
            ∷ []
      → Trace settings a rs all

-- Two lists merged: each element of `all` is in exactly one of `left` and `right`, in order.
pub data Merge : List String → List String → List String → Type 0 where
  no_more : Merge [] [] []
  on_left :
      {all left right : List String} (x : String)
      → Merge all left right
      → Merge (all ++ x ∷ []) (left ++ x ∷ []) right
  on_right :
      {all left right : List String} (x : String)
      → Merge all left right
      → Merge (all ++ x ∷ []) left (right ++ x ∷ [])

map-append {ℓ κ} :
    {A : Type ℓ} {B : Type κ} (f : A → B) (xs ys : List A) → map f (xs ++ ys) ≡ map f xs ++ map f ys
map-append f [] ys = refl
map-append f (x ∷ xs) ys = ap (◌∷◌ (f x)) (map-append f xs ys)

module _ (settings : StopRelaySettings) (a : Answers) (rs : List StopRequest) where
  after_ack-Trace :
      (r : StopRequest) (n : ℕ) (done : List Action) (answer : Option ℕ) (p : Progress)
      → Trace settings a rs done
      → Any (λ q. q ≡ r) rs
      → IsDeliverable settings a r n
      → a.is_stopped n ≡ true
      → a.ack r ≡ answer
      → p.actions ≡ done ++ stop_robot n ∷ post_stop_ack r.robot_id r.job_id ∷ []
      → Trace settings a rs (after_ack r answer p).actions
  unfolding after_ack settle
  after_ack-Trace r n done none p t listed d stopped e h = not_taken r n t listed d stopped h
  after_ack-Trace r n done (some status) p t listed d stopped e h =
      elim (Bool-cases (status == 200 || status == 409)) [
        | inl ok ↦ rw ok (
            taken r n t listed d stopped (ground arith) (
              ap (λ (l : List Action). l ++ on_acknowledged r.job_id r.robot_id ∷ []) h
              ∙ append_assoc done _ _))
        | inr bad ↦ rw bad (not_taken r n t listed d stopped h)
      ]

  stop_and_ack-Trace :
      (r : StopRequest) (n : ℕ) (p : Progress)
      → Trace settings a rs p.actions
      → Any (λ q. q ≡ r) rs
      → IsDeliverable settings a r n
      → Trace settings a rs (stop_and_ack a r n p).actions
  unfolding stop_and_ack
  stop_and_ack-Trace r n p t listed d = elim (Bool-cases (a.is_stopped n)) [
    | inr failed ↦ rw failed (not_stopped r n t listed d refl)
    | inl stopped ↦ rw stopped (
        after_ack-Trace r n p.actions (a.ack r) _ t listed d stopped refl
          (append_assoc p.actions _ _))
  ]

  if_mapped-Trace :
      (r : StopRequest) (p : Progress) (robot : Option ℕ)
      → lookup string_discrete r.robot_id settings.robot_map ≡ robot
      → Trace settings a rs p.actions
      → Any (λ q. q ≡ r) rs
      → r.expired ≡ false
      → a.now r - r.requested_at_ms ≤ settings.max_request_age_seconds * 1000
      → Trace settings a rs
          (if_mapped (λ n. stop_and_ack a r n p) (skip r not_mapped p) robot).actions
  if_mapped-Trace r p none e t listed open_still young = t
  if_mapped-Trace r p (some n) e t listed open_still young =
      stop_and_ack-Trace r n p t listed
        (record { mapped = e; open_at_dispatcher = open_still; young = young })

  abbrev Keeps : Progress → Type 0
  Keeps p = Trace settings a rs p.actions

  handle-Trace :
      (r : StopRequest) (p : Progress)
      → Keeps p
      → Any (λ q. q ≡ r) rs
      → Keeps (handle settings a r p)
  unfolding handle
  handle-Trace r p t listed =
      if_both Keeps (is_robot (lookup string_discrete r.job_id p.settled) r.robot_id) (λ settled. t)
        λ fresh.
          if_both Keeps r.expired (λ expired. t)
            λ open_still.
              if_both Keeps
                (ltb (settings.max_request_age_seconds * 1000) (a.now r - r.requested_at_ms))
                (λ old. t) λ young. if_mapped-Trace r p _ refl t listed open_still (ground arith)

  handle_all-Trace :
      (left : List StopRequest) (p : Progress)
      → Keeps p
      → All (λ r. Any (λ q. q ≡ r) rs) left
      → Keeps (handle_all settings a left p)
  unfolding handle_all
  handle_all-Trace [] p t listed = t
  handle_all-Trace (r ∷ left) p t listed =
      handle_all-Trace left (handle settings a r p) (handle-Trace r p t listed.0) listed.1

  -- The jobs of the requests that were handled, each of them in one of the two lists of the report.
  abbrev Reports : List String → Progress → Type 0
  Reports jobs p = Merge jobs p.report.acknowledged (map (λ e. e.0) p.report.skipped)

  Reports-skip :
      (r : StopRequest) (reason : Skip) (jobs : List String) (p : Progress)
      → Reports jobs p
      → Reports (jobs ++ r.job_id ∷ []) (skip r reason p)
  Reports-skip r reason jobs p h =
      rw (map-append (λ e. e.0) p.report.skipped ((r.job_id, reason) ∷ [])) (on_right r.job_id h)

  after_ack-Reports :
      (r : StopRequest) (answer : Option ℕ) (jobs : List String) (p : Progress)
      → Reports jobs p
      → Reports (jobs ++ r.job_id ∷ []) (after_ack r answer p)
  unfolding after_ack settle
  after_ack-Reports r none jobs p h = Reports-skip r ack_lost jobs p h
  after_ack-Reports r (some status) jobs p h =
      if_both (Reports (jobs ++ r.job_id ∷ [])) (status == 200 || status == 409)
        (λ ok. on_left r.job_id h) (λ bad. Reports-skip r (ack_refused status) jobs p h)

  stop_and_ack-Reports :
      (r : StopRequest) (robot : ℕ) (jobs : List String) (p : Progress)
      → Reports jobs p
      → Reports (jobs ++ r.job_id ∷ []) (stop_and_ack a r robot p)
  unfolding stop_and_ack
  stop_and_ack-Reports r robot jobs p h =
      if_both (Reports (jobs ++ r.job_id ∷ [])) (not (a.is_stopped robot))
        (λ failed. Reports-skip r not_applied jobs (act (stop_robot robot) p) h)
        (λ stopped. after_ack-Reports r (a.ack r) jobs _ h)

  if_mapped-Reports :
      (r : StopRequest) (robot : Option ℕ) (jobs : List String) (p : Progress)
      → Reports jobs p
      → Reports
          (jobs ++ r.job_id ∷ [])
          (if_mapped (λ k. stop_and_ack a r k p) (skip r not_mapped p) robot)
  if_mapped-Reports r none jobs p h = Reports-skip r not_mapped jobs p h
  if_mapped-Reports r (some robot) jobs p h = stop_and_ack-Reports r robot jobs p h

  handle-Reports :
      (r : StopRequest) (jobs : List String) (p : Progress)
      → Reports jobs p
      → Reports (jobs ++ r.job_id ∷ []) (handle settings a r p)
  unfolding handle
  handle-Reports r jobs p h =
      if_both (Reports (jobs ++ r.job_id ∷ []))
        (is_robot (lookup string_discrete r.job_id p.settled) r.robot_id)
        (λ settled. Reports-skip r already_acknowledged jobs p h)
        λ fresh.
          if_both (Reports (jobs ++ r.job_id ∷ [])) r.expired
            (λ e. Reports-skip r expired_at_dispatcher jobs p h)
            λ open_still.
              if_both (Reports (jobs ++ r.job_id ∷ []))
                (ltb (settings.max_request_age_seconds * 1000) (a.now r - r.requested_at_ms))
                (λ old. Reports-skip r too_old jobs p h) (λ young. if_mapped-Reports r _ jobs p h)

  handle_all-Reports :
      (left : List StopRequest) (jobs : List String) (p : Progress)
      → Reports jobs p
      → Reports (jobs ++ map (λ r. r.job_id) left) (handle_all settings a left p)
  unfolding handle_all
  handle_all-Reports [] jobs p h = rw (append-nil jobs) h
  handle_all-Reports (r ∷ left) jobs p h =
      subst (λ (l : List String). Reports l (handle_all settings a left (handle settings a r p)))
        (append_assoc jobs (r.job_id ∷ []) (map (λ r. r.job_id) left))
        (handle_all-Reports left (jobs ++ r.job_id ∷ []) (handle settings a r p)
          (handle-Reports r jobs p h))

weaken :
    (rs : List StopRequest) (new : StopRequest) (left : List StopRequest)
    → All (λ r. Any (λ q. q ≡ r) rs) left
    → All (λ r. Any (λ q. q ≡ r) (new ∷ rs)) left
weaken rs new [] h = tt
weaken rs new (r ∷ left) h = (inr h.0, weaken rs new left h.1)

each_listed : (rs : List StopRequest) → All (λ r. Any (λ q. q ≡ r) rs) rs
each_listed [] = tt
each_listed (r ∷ rs) = (inl refl, weaken rs r rs (each_listed rs))

-- One pass over the requests that the dispatcher lists: no acknowledgement without a stop that was
-- applied right before it, to the robot that the map gives for that request; no word to the hand-over
-- without an acknowledgement that was taken right before it; no stop of a robot that no open and
-- recent request names. In the report the job of every request stands exactly once, as acknowledged or as
-- skipped, and in the order of the list.
pub pass_over-Trace :
    (settings : StopRelaySettings) (a : Answers) (rs : List StopRequest) (relay : JobStopRelay)
    → Trace settings a rs (pass_over settings a rs relay).actions
      × Merge
          (map (λ r. r.job_id) rs)
          (pass_over settings a rs relay).report.acknowledged
          (map (λ e. e.0) (pass_over settings a rs relay).report.skipped)
unfolding pass_over
pass_over-Trace settings a rs relay = (
  handle_all-Trace settings a rs rs _ idle (each_listed rs),
  handle_all-Reports settings a rs rs [] _ no_more,
)

one-le_pow : (k : ℕ) → 1 ≤ 2 ^ k
one-le_pow zero = omega arith
one-le_pow (suc k) = rw (pow-suc 2 k) (omega (arith, one-le_pow k))

le_mul_pow : (p k : ℕ) → p ≤ p * 2 ^ k
le_mul_pow p k = grind (arith, one-le_pow k)

-- The pause before the next pass is never shorter than the poll period, and never longer than the
-- limit for failures, or the poll period if that is longer.
pub next_delay_seconds_bounds :
    (settings : StopRelaySettings) (relay : JobStopRelay)
    → (settings.poll_seconds ≤ next_delay_seconds settings relay)
      × (next_delay_seconds settings relay
          ≤ max settings.max_failure_backoff_seconds settings.poll_seconds)
unfolding next_delay_seconds
next_delay_seconds_bounds settings relay =
    ground (arith, le_mul_pow settings.poll_seconds (min relay.failures 20))
