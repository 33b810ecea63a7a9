-- ===== src/Takeover/Delivery.antt =====
-- What is sent to the standby, and when.
use hydra_umc_server.Json.{Json}
use hydra_umc_server.Prelude.{
  ℕ, ◌+◌, ◌-◌, ◌*◌, ◌≤◌, ◌<◌, ◌≡◌, refl, String, Option, some, Bool-cases, Option-cases, inl, inr,
  false, List, All, take, take_of_length-le, sym, ◌∙◌, keep, length, arith, ◌⊎◌, ltb,
}
use hydra_umc_server.Takeover.{
  TakeoverSettings, ReplicaRecord, StopEvidence, Proofs, Snapshot, Takeover, World, Request,
  post_takeover, is_ok, is_done, or_now, is_open, orchestrator_max_items, evidence_for, post,
  deliver_snapshot, deliver, silent, tick,
}
use hydra_umc_server.Takeover.Evidence.{
  IsJustified, IsCovered, evidence_for-IsJustified, evidence_for-IsCovered, length-evidence_for,
}

module _ (parse : String → Option Json) (settings : TakeoverSettings) where
  -- A request to the standby is sent only in these conditions.
  pub record IsDue (w : World) (t : Takeover) (records : List ReplicaRecord)
      (evidence : List StopEvidence) : Type 0 where
    pub no_health : is_ok w.health ≡ false
    pub not_done : is_done t.state ≡ false
    pub silent_enough : settings.failures_before_takeover ≤ t.failures + 1
    pub waited : t.next_attempt_ms ≤ w.now
    pub replica : Snapshot
    pub kept : t.snapshot ≡ some replica
    pub fresh :
        or_now t.silent_since_ms w.now - replica.at_ms ≤ settings.max_snapshot_age_seconds * 1000
    pub complete :
        (records ≡ replica.records)
        ⊎ ((records ≡ keep (is_open parse) replica.records)
            × (orchestrator_max_items < length replica.records))
    pub bounded : length records ≤ orchestrator_max_items
    pub justified : All (IsJustified parse settings t.proofs records w.now) evidence
    pub covered : All (IsCovered parse settings t.proofs w.now evidence) records

  abbrev pub IsAllowed : World → Takeover → Request → Type 0
  IsAllowed w t (post_takeover records evidence) = IsDue w t records evidence
  IsAllowed w t other = Unit

  -- The evidence is cut to a length that it never has.
  whole_evidence :
      (proofs : Proofs) (records : List ReplicaRecord) (now : ℕ)
      → length records ≤ orchestrator_max_items
      → take orchestrator_max_items (evidence_for parse settings proofs records now)
        ≡ evidence_for parse settings proofs records now
  whole_evidence proofs records now h =
      take_of_length-le orchestrator_max_items _
        (omega (arith, length-evidence_for parse settings proofs now records))

  -- In a section of its own: a silent check that may deliver the replica `s`.
  module _ (w : World) (s : Snapshot) (t : Takeover) (no_health : is_ok w.health ≡ false)
      (not_done : is_done t.state ≡ false)
      (silent_enough : settings.failures_before_takeover ≤ t.failures + 1)
      (waited : t.next_attempt_ms ≤ w.now) (kept : t.snapshot ≡ some s) where
    post-IsAllowed :
        (u : Takeover) (records : List ReplicaRecord)
        → u.proofs ≡ t.proofs
        → or_now t.silent_since_ms w.now - s.at_ms ≤ settings.max_snapshot_age_seconds * 1000
        → (records ≡ s.records)
          ⊎ ((records ≡ keep (is_open parse) s.records)
              × (orchestrator_max_items < length s.records))
        → length records ≤ orchestrator_max_items
        → All (IsAllowed w t) (post parse settings w records u).1
    unfolding post
    post-IsAllowed u records same fresh complete few =
        rw (same, whole_evidence t.proofs records w.now few)
          (
            record {
              no_health = no_health;
              not_done = not_done;
              silent_enough = silent_enough;
              waited = waited;
              replica = s;
              kept = kept;
              fresh = fresh;
              complete = complete;
              bounded = few;
              justified = evidence_for-IsJustified parse settings t.proofs w.now records;
              covered = evidence_for-IsCovered parse settings t.proofs w.now records;
            },
            tt,
          )

    deliver_snapshot-IsAllowed :
        (u : Takeover)
        → or_now u.silent_since_ms w.now ≡ or_now t.silent_since_ms w.now
        → u.proofs ≡ t.proofs
        → All (IsAllowed w t) (deliver_snapshot parse settings w s u).1
    unfolding deliver_snapshot
    deliver_snapshot-IsAllowed u since same =
        let age = or_now u.silent_since_ms w.now - s.at_ms in
        let open_records = keep (is_open parse) s.records in
        elim (Bool-cases (ltb (settings.max_snapshot_age_seconds * 1000) age)) [
          | inl old ↦ rw old tt
          | inr fresh ↦ elim (Bool-cases (ltb orchestrator_max_items (length s.records))) [
            | inr few ↦
                rw (fresh, few)
                  (post-IsAllowed u s.records same (ground arith) (inl refl) (ground arith))
            | inl many ↦ elim (Bool-cases (ltb orchestrator_max_items (length open_records))) [
              | inl still ↦ rw (fresh, many, still) tt
              | inr open_few ↦
                  rw (fresh, many, open_few)
                    (post-IsAllowed u open_records same (ground arith) (inr (refl, ground arith))
                      (ground arith))
            ]
          ]
        ]

  deliver-IsAllowed :
      (w : World) (t u : Takeover)
      → is_ok w.health ≡ false
      → is_done t.state ≡ false
      → settings.failures_before_takeover ≤ t.failures + 1
      → t.next_attempt_ms ≤ w.now
      → u.snapshot ≡ t.snapshot
      → or_now u.silent_since_ms w.now ≡ or_now t.silent_since_ms w.now
      → u.proofs ≡ t.proofs
      → All (IsAllowed w t) (deliver parse settings w u).1
  unfolding deliver
  deliver-IsAllowed w t u h d f n k since same = elim (Option-cases u.snapshot) [
    | inl e ↦ rw (e, deliver) tt
    | inr (s, e) ↦
        rw (e, deliver) (deliver_snapshot-IsAllowed w s t h d f n (sym k ∙ e) u since same)
  ]

  silent-IsAllowed :
      (w : World) (t : Takeover)
      → is_ok w.health ≡ false
      → is_done t.state ≡ false
      → All (IsAllowed w t) (silent parse settings w t).1
  unfolding silent
  silent-IsAllowed w t h d =
      elim (Bool-cases (ltb (t.failures + 1) settings.failures_before_takeover)) [
        | inl few ↦ rw few tt
        | inr enough ↦ elim (Bool-cases (ltb w.now t.next_attempt_ms)) [
          | inl early ↦ rw (enough, early) tt
          | inr late ↦
              rw (enough, late)
                (deliver-IsAllowed w t _ h d (ground arith) (ground arith) refl refl refl)
        ]
      ]

  -- Whatever a tick sends to the standby is sent while the primary does not answer, after enough silent
  -- checks and no sooner than the last attempt allows, unless the hand-over of this outage is over. It
  -- is the last replica, no older than the limit when the silence began: all of it, or, if that is more
  -- than 5000 records, all that is in flight or queued; at most 5000 records. Each proof with it is
  -- justified, and no proof that applies to these records is missing.
  pub tick-IsAllowed : (w : World) (t : Takeover) → All (IsAllowed w t) (tick parse settings w t).1
  unfolding tick
  tick-IsAllowed w t = elim (Bool-cases (is_done t.state)) [
    | inl done ↦ elim (Bool-cases (is_ok w.health)) [
      | inl back ↦ rw (done, back) (tt, (tt, tt))
      | inr away ↦ rw (done, away) (tt, tt)
    ]
    | inr d ↦ elim (Bool-cases (is_ok w.health)) [
      | inl back ↦ rw (d, back) (tt, (tt, tt))
      | inr away ↦ rw (d, away) (tt, silent-IsAllowed w t away d)
    ]
  ]
