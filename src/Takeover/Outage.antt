-- ===== src/Takeover/Outage.antt =====
-- How often the hand-over is sent while the primary stays silent.
use hydra_umc_server.Json.{Json}
use hydra_umc_server.Prelude.{
  ℕ, suc, ◌+◌, ◌-◌, ◌*◌, ◌≤◌, ◌<◌, ◌≡◌, refl, String, Option, Bool-cases, Option-cases, inl, inr,
  true, false, List, [], ◌∷◌, ◌++◌, All, keep, length, arith, ◌⊎◌, ltb, max,
}
use hydra_umc_server.Takeover.{
  TakeoverSettings, ReplicaRecord, Snapshot, Takeover, World, Request, get_health, get_replica,
  post_takeover, is_ok, is_done, count_silence, stay_silent, or_now, is_open,
  orchestrator_max_items, post, after_post, deliver_snapshot, deliver, silent, tick, run,
}

-- The requests to the standby among those sent.
abbrev pub posts : List Request → ℕ
posts [] = 0
posts (post_takeover records evidence ∷ sent) = suc (posts sent)
posts (get_health ∷ sent) = posts sent
posts (get_replica ∷ sent) = posts sent

abbrev pub IsSilent : World → Type 0
IsSilent w = is_ok w.health ≡ false

posts-append : (xs ys : List Request) → posts (xs ++ ys) ≡ posts xs + posts ys
posts-append [] ys = omega arith
posts-append (post_takeover records evidence ∷ xs) ys = omega (arith, posts-append xs ys)
posts-append (get_health ∷ xs) ys = posts-append xs ys
posts-append (get_replica ∷ xs) ys = posts-append xs ys

module _ (parse : String → Option Json) (settings : TakeoverSettings) where
  -- What one silent step may do, seen from the number of attempts.
  data Spent (t : Takeover) (r : Takeover × List Request) : Type 0 where
    nothing : posts r.1 ≡ 0 → r.0.attempts ≡ t.attempts → Spent t r
    one :
        posts r.1 ≡ 1
        → r.0.attempts ≡ t.attempts + 1
        → (is_done r.0.state ≡ true) ⊎ (r.0.attempts < settings.max_delivery_attempts)
        → Spent t r

  attempts-after_post : (w : World) (t : Takeover) → (after_post settings w t).attempts ≡ t.attempts
  unfolding after_post
  attempts-after_post w t = ground arith

  after_post_end :
      (w : World) (t : Takeover)
      → (is_done (after_post settings w t).state ≡ true)
        ⊎ (t.attempts < settings.max_delivery_attempts)
  unfolding after_post
  after_post_end w t = ground arith

  post-Spent :
      (w : World) (t u : Takeover) (records : List ReplicaRecord)
      → u.attempts ≡ t.attempts
      → Spent t (post parse settings w records u)
  unfolding post
  post-Spent w t u records e =
      let counted : Takeover = record u { attempts = u.attempts + 1 } in
      let same = attempts-after_post w counted in
      one refl (omega arith)
        (elim (after_post_end w counted) [ inl done ↦ inl done | inr left ↦ inr (omega arith) ])

  deliver_snapshot-Spent :
      (w : World) (s : Snapshot) (t u : Takeover)
      → u.attempts ≡ t.attempts
      → Spent t (deliver_snapshot parse settings w s u)
  unfolding deliver_snapshot
  deliver_snapshot-Spent w s t u e =
      let age = or_now u.silent_since_ms w.now - s.at_ms in
      let open_records = keep (is_open parse) s.records in
      elim (Bool-cases (ltb (settings.max_snapshot_age_seconds * 1000) age)) [
        | inl old ↦ rw old (nothing refl e)
        | inr fresh ↦ elim (Bool-cases (ltb orchestrator_max_items (length s.records))) [
          | inr few ↦ rw (fresh, few) (post-Spent w t u s.records e)
          | inl many ↦ elim (Bool-cases (ltb orchestrator_max_items (length open_records))) [
            | inl still ↦ rw (fresh, many, still) (nothing refl e)
            | inr open_few ↦ rw (fresh, many, open_few) (post-Spent w t u open_records e)
          ]
        ]
      ]

  deliver-Spent :
      (w : World) (t u : Takeover) → u.attempts ≡ t.attempts → Spent t (deliver parse settings w u)
  unfolding deliver
  deliver-Spent w t u e = elim (Option-cases u.snapshot) [
    | inl absent ↦ rw (absent, deliver) (nothing refl e)
    | inr (s, found) ↦ rw (found, deliver) (deliver_snapshot-Spent w s t u e)
  ]

  silent-Spent : (w : World) (t : Takeover) → Spent t (silent parse settings w t)
  unfolding silent
  silent-Spent w t = elim (Bool-cases (ltb (t.failures + 1) settings.failures_before_takeover)) [
    | inl few ↦ rw few (nothing refl refl)
    | inr enough ↦ elim (Bool-cases (ltb w.now t.next_attempt_ms)) [
      | inl early ↦ rw (enough, early) (nothing refl refl)
      | inr late ↦ rw (enough, late) (deliver-Spent w t (stay_silent (count_silence w t)) refl)
    ]
  ]

  pub tick-silent :
      (w : World) (t : Takeover)
      → IsSilent w
      → is_done t.state ≡ false
      → tick parse settings w t
        ≡ ((silent parse settings w t).0, get_health ∷ (silent parse settings w t).1)
  unfolding tick
  tick-silent w t away open_state = rw (open_state, away) refl

  tick_done :
      (w : World) (t : Takeover)
      → IsSilent w
      → is_done t.state ≡ true
      → tick parse settings w t ≡ (t, get_health ∷ [])
  unfolding tick
  tick_done w t away done = rw (done, away) refl

  run_state :
      (w : World) (ws : List World) (t : Takeover)
      → (run parse settings (w ∷ ws) t).0 ≡ (run parse settings ws (tick parse settings w t).0).0
  unfolding run
  run_state w ws t = refl

  posts-run_cons :
      (w : World) (ws : List World) (t : Takeover)
      → posts (run parse settings (w ∷ ws) t).1
        ≡ posts (tick parse settings w t).1
          + posts (run parse settings ws (tick parse settings w t).0).1
  unfolding run
  posts-run_cons w ws t = posts-append (tick parse settings w t).1 _

  -- Once the hand-over of an outage is delivered, refused or given up, nothing more is sent to the
  -- standby and nothing changes, for as long as the primary stays silent.
  pub run_done :
      (ws : List World) (t : Takeover)
      → All IsSilent ws
      → is_done t.state ≡ true
      → ((run parse settings ws t).0 ≡ t) × (posts (run parse settings ws t).1 ≡ 0)
  run_done [] t away done = unfold run in (refl, refl)
  run_done (w ∷ ws) t away done =
      let (same, quiet) = run_done ws t away.1 done in
      let step = tick_done w t away.0 done in
      (rw (run_state w ws t, step) same, rw (posts-run_cons w ws t, step) (rw quiet (omega arith)))

  still_left :
      (t : Takeover)
      → is_done t.state ≡ false
      → (is_done t.state ≡ true) ⊎ (t.attempts < settings.max_delivery_attempts)
      → t.attempts < settings.max_delivery_attempts
  still_left t still (inl done) = absurd (cc)
  still_left t still (inr left) = left

  run_open :
      (ws : List World) (t : Takeover)
      → All IsSilent ws
      → (is_done t.state ≡ true) ⊎ (t.attempts < settings.max_delivery_attempts)
      → posts (run parse settings ws t).1 + t.attempts
        ≤ max t.attempts settings.max_delivery_attempts
  run_open [] t away left = unfold run in omega arith
  run_open (w ∷ ws) t away left = elim (Bool-cases (is_done t.state)) [
    | inl done ↦ omega (arith, (run_done (w ∷ ws) t away done).1)
    | inr still ↦
        let next = (silent parse settings w t).0 in
        let rest = run_open ws next away.1 in
        let ended = run_done ws next away.1 in
        rw (posts-run_cons w ws t, tick-silent w t away.0 still)
          (elim (silent-Spent w t) [
            | nothing p a ↦ elim (Bool-cases (is_done next.state)) [
              | inl done ↦ omega (arith, (ended done).1)
              | inr more ↦ omega (arith, rest (inr (omega (arith, still_left t still left))))
            ]
            | one p a end ↦ elim (Bool-cases (is_done next.state)) [
              | inl done ↦ let l = still_left t still left in omega (arith, (ended done).1)
              | inr more ↦ let l = still_left next more end in omega (arith, rest end)
            ]
          ])
  ]

  -- While the primary stays silent, the hand-over is sent at most as often as the settings allow,
  -- counted from a moment at which nothing was sent yet in this outage.
  pub posts-run-le :
      (ws : List World) (t : Takeover)
      → All IsSilent ws
      → t.attempts ≡ 0
      → 1 ≤ settings.max_delivery_attempts
      → posts (run parse settings ws t).1 ≤ settings.max_delivery_attempts
  posts-run-le ws t away fresh some_left = omega (arith, run_open ws t away (inr (omega arith)))

  pub silent_early :
      (w : World) (t : Takeover)
      → t.failures + 1 < settings.failures_before_takeover
      → silent parse settings w t ≡ (count_silence w t, [])
  unfolding silent
  silent_early w t few = ground arith

  -- Nothing is sent to the standby before the primary has failed as many checks in a row as the
  -- settings ask for, counted from a check that it answered (`failures` is 0 after one).
  pub posts-run_early :
      (ws : List World) (t : Takeover)
      → All IsSilent ws
      → t.failures + length ws < settings.failures_before_takeover
      → posts (run parse settings ws t).1 ≡ 0
  posts-run_early [] t away few = unfold run in refl
  posts-run_early (w ∷ ws) t away few = elim (Bool-cases (is_done t.state)) [
    | inl done ↦ (run_done (w ∷ ws) t away done).1
    | inr still ↦
        rw (posts-run_cons w ws t, tick-silent w t away.0 still, silent_early w t (omega arith))
          (omega (arith, posts-run_early ws (count_silence w t) away.1 (omega arith)))
  ]
