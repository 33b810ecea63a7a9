-- ===== src/Playback/Table.antt =====
-- A robot without a table of its own is not moved by recorded table axes.
use hydra_umc_server.Prelude.{
  ℕ, Option, none, some, false, ◌&&◌, ◌||◌, not, ◌≡◌, refl, arith, if_both,
}
use hydra_umc_server.Playback.{
  RecordedPoint, PlayedRobot, Ticked, is_some_point, go_to, after_last, at_point, tick_robot, tick,
  move_arm, move_placement, move_table,
}

module _ {ℓ} {V : Type ℓ} where
  -- Where the robot stands, and its table, are as before.
  pub record IsInPlace (before after : PlayedRobot V) : Type ℓ where
    pub same_table : after.xy_table ≡ before.xy_table
    pub same_tx : after.pos.tx ≡ before.pos.tx
    pub same_ty : after.pos.ty ≡ before.pos.ty
    pub same_trz : after.pos.trz ≡ before.pos.trz

  abbrev pub StaysInPlace : PlayedRobot V → Option (PlayedRobot V) → Type ℓ
  StaysInPlace r none = Unit
  StaysInPlace r (some after) = IsInPlace r after

  same_place : (r : PlayedRobot V) → IsInPlace r r
  same_place r = record { same_table = refl; same_tx = refl; same_ty = refl; same_trz = refl }

  go_to-IsInPlace :
      (pt : RecordedPoint V) (step : ℕ) (r : PlayedRobot V)
      → r.has_xy_table ≡ false
      → IsInPlace r (go_to pt step r)
  unfolding go_to move_arm move_placement move_table
  go_to-IsInPlace pt step r h = rw h (record {
    same_table = refl;
    same_tx = ground arith;
    same_ty = ground arith;
    same_trz = ground arith;
  })

  at_point-StaysInPlace :
      (step : ℕ) (r : PlayedRobot V) (o : Option (RecordedPoint V))
      → r.has_xy_table ≡ false
      → StaysInPlace r (at_point step r o).robot
  unfolding at_point after_last
  at_point-StaysInPlace step r none h =
      if_both (λ (t : Ticked V). StaysInPlace r t.robot)
        (r.playback_state.is_looping && is_some_point r.recorded_points)
        (λ _. record { same_table = refl; same_tx = refl; same_ty = refl; same_trz = refl })
        (λ _. record { same_table = refl; same_tx = refl; same_ty = refl; same_trz = refl })
  at_point-StaysInPlace step r (some pt) h = go_to-IsInPlace pt step r h

  -- No tick moves the table or the placement of a robot that has no table, whatever is recorded.
  pub tick-StaysInPlace :
      (r : PlayedRobot V) → r.has_xy_table ≡ false → StaysInPlace r (tick (some r)).robot
  unfolding tick tick_robot
  tick-StaysInPlace r h =
      if_both (λ (t : Ticked V). StaysInPlace r t.robot)
        (not r.playback_state.is_playing || r.playback_state.request_stop) (λ _. same_place r)
        (λ _.
          if_both (λ (t : Ticked V). StaysInPlace r t.robot)
            (r.playback_state.is_paused || r.playback_state.request_pause) (λ _. same_place r)
            (λ _. at_point-StaysInPlace _ r _ h))
