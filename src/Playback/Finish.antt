-- ===== src/Playback/Finish.antt =====
-- A playback comes to its end.
use hydra_umc_server.Prelude.{
  ℕ, zero, suc, ◌+◌, ◌≤◌, ◌<◌, none, some, true, false, List, [], ◌∷◌, length, if◌then◌else◌, ◌≡◌,
  ◌∙◌, refl, sym, ap, subst, arith,
}
use hydra_umc_server.Playback.{
  RecordedPoint, PlaybackState, PlayedRobot, Ticked, PlaybackEffect, queue_settings_write,
  broadcast_robot_delta, push_job_finished, step_of, ended, point_at, go_to, after_last, at_point,
  tick_robot, tick,
}

-- The robot plays, nobody stops or pauses it, and it does not start again at the end.
pub record IsRunning (pb : PlaybackState) : Type 0 where
  pub is_on : pb.is_playing ≡ true
  pub not_stopped : pb.request_stop ≡ false
  pub not_paused : pb.is_paused ≡ false
  pub not_held : pb.request_pause ≡ false
  pub not_looping : pb.is_looping ≡ false

module _ {ℓ} {V : Type ℓ} where
  -- So many more ticks, while the timer is set.
  pub ticks : ℕ → Ticked V → Ticked V
  ticks zero t = t
  ticks (suc n) t = ticks n (if t.is_timer_set then tick t.robot else t)

  point_found :
      (step : ℕ) (pts : List (RecordedPoint V))
      → step < length pts
      → (pt : RecordedPoint V) × (point_at step (some pts) ≡ some pt)
  point_found step [] h = absurd (omega arith)
  point_found zero (pt ∷ pts) h = (pt, refl)
  point_found (suc step) (pt ∷ pts) h = point_found step pts (omega arith)

  point_past :
      (step : ℕ) (pts : List (RecordedPoint V))
      → length pts ≤ step
      → point_at step (some pts) ≡ none
  point_past step [] h = refl
  point_past zero (pt ∷ pts) h = absurd (omega arith)
  point_past (suc step) (pt ∷ pts) h = point_past step pts (omega arith)

  tick_running :
      (r : PlayedRobot V)
      → IsRunning r.playback_state
      → tick (some r)
        ≡ at_point
            (step_of r.playback_state.active_step)
            r
            (point_at (step_of r.playback_state.active_step) r.recorded_points)
  unfolding tick tick_robot at_point
  tick_running r run = rw (run.is_on, run.not_stopped, run.not_paused, run.not_held) refl

  abbrev pub set_timer : PlayedRobot V → List PlaybackEffect → Ticked V
  set_timer r effects = record { robot = some r; is_timer_set = true; effects = effects }

  -- The robot has ended, the timer is gone, and the end was told.
  abbrev pub IsFinished : List (RecordedPoint V) → Ticked V → Type ℓ
  IsFinished pts t =
      (r : PlayedRobot V) × (t ≡ record {
        robot = some (record r { playback_state = ended r.playback_state });
        is_timer_set = false;
        effects = queue_settings_write ∷ broadcast_robot_delta ∷ push_job_finished ∷ [];
      })
      × (r.recorded_points ≡ some pts)
      × (step_of r.playback_state.active_step ≡ length pts)

  tick_at_point :
      (r : PlayedRobot V) (pts : List (RecordedPoint V)) (pt : RecordedPoint V)
      → IsRunning r.playback_state
      → r.recorded_points ≡ some pts
      → point_at (step_of r.playback_state.active_step) (some pts) ≡ some pt
      → tick (some r)
        ≡ set_timer
            (go_to pt (step_of r.playback_state.active_step) r)
            (queue_settings_write ∷ broadcast_robot_delta ∷ [])
  unfolding at_point
  tick_at_point r pts pt run points found =
      let step = step_of r.playback_state.active_step in
      tick_running r run
      ∙ ap (λ o. at_point step r (point_at step o)) points
      ∙ ap (at_point step r) found

  tick_past :
      (r : PlayedRobot V) (pts : List (RecordedPoint V))
      → IsRunning r.playback_state
      → r.recorded_points ≡ some pts
      → point_at (step_of r.playback_state.active_step) (some pts) ≡ none
      → tick (some r) ≡ record {
        robot = some (record r { playback_state = ended r.playback_state });
        is_timer_set = false;
        effects = queue_settings_write ∷ broadcast_robot_delta ∷ push_job_finished ∷ [];
      }
  unfolding at_point after_last
  tick_past r pts run points found =
      let step = step_of r.playback_state.active_step in
      tick_running r run
      ∙ ap (λ o. at_point step r (point_at step o)) points
      ∙ ap (at_point step r) found
      ∙ rw run.not_looping refl

  -- A playback that nobody stops, pauses or loops is over with the tick after its last point: the step
  -- has passed all points, the robot is finished, the timer is gone and the end was told.
  pub ticks-IsFinished :
      (n : ℕ) (r : PlayedRobot V) (pts : List (RecordedPoint V)) (effects : List PlaybackEffect)
      → IsRunning r.playback_state
      → r.recorded_points ≡ some pts
      → n + step_of r.playback_state.active_step ≡ length pts
      → IsFinished pts (ticks (suc n) (set_timer r effects))
  unfolding ticks go_to
  ticks-IsFinished zero r pts effects run points here = (
    r,
    tick_past r pts run points (point_past _ pts (omega (arith, here))),
    points,
    omega (arith, here),
  )
  ticks-IsFinished (suc n) r pts effects run points here =
      let (pt, found) =
        point_found (step_of r.playback_state.active_step) pts (omega (arith, here)) in
      subst (λ t. IsFinished pts (ticks (suc n) t)) (sym (tick_at_point r pts pt run points found))
        (ticks-IsFinished n (go_to pt (step_of r.playback_state.active_step) r) pts
          (queue_settings_write ∷ broadcast_robot_delta ∷ [])
          (record {
            is_on = run.is_on;
            not_stopped = run.not_stopped;
            not_paused = run.not_paused;
            not_held = run.not_held;
            not_looping = run.not_looping;
          })
          points (omega (arith, here)))
