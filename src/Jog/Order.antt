-- ===== src/Jog/Order.antt =====
-- A number that was seen keeps older motion commands of its client away.
use hydra_umc_server.Prelude.{
  ℕ, suc, ◌+◌, ◌≤◌, ◌<◌, ◌≡◌, ◌≢◌, refl, List, [], ◌∷◌, ◌++◌, ◌⊎◌, Bool-cases, inl, inr, arith,
  length, leb, leb→le, keep, delete, lookup, string_discrete, Option-cases, String, none, some, All,
  lookup-delete_self, if_pos, if_neg, true, false, length-keep-le, length-delete-le, length-append,
  sym, ap, ◌∙◌, put_absent,
}
use hydra_umc_server.Jog.{
  max_entries, idle_forget_ms, Marks, Mark, Client, key, is_fresh, drop_oldest, forget_old,
  move_to_end, accept_at, accept, note_stop_at, note_stop, Call, motion, stop, time, step, run,
  Answer, accepted, refused,
}

-- The client's mark is at least `n` and not older than `since`, and at most `behind` marks are newer.
abbrev Holds : String → ℕ → ℕ → ℕ → Marks → Type 0
Holds k n since behind [] = ⊥
Holds k n since behind (e ∷ marks) =
    ((e.0 ≡ k) × (n ≤ e.1.seq) × (since ≤ e.1.at) × (length marks ≤ behind))
    ⊎ ((e.0 ≢ k) × Holds k n since behind marks)

none-ne-some : {v : Mark} → some v ≡ none → ⊥
none-ne-some h = cc

-- A motion command is refused by a mark that is not below its number, or it becomes the mark.
data Outcome (now : ℕ) (k : String) (seq : ℕ) (marks : Marks) : Type 0 where
  kept :
      (mark : Mark)
      → lookup string_discrete k marks ≡ some mark
      → seq ≤ mark.seq
      → accept_at now k seq marks ≡ (marks, refused mark.seq)
      → Outcome now k seq marks
  moved :
      accept_at now k seq marks ≡ (move_to_end k (record { seq = seq; at = now }) marks, accepted)
      → ((mark : Mark) → lookup string_discrete k marks ≡ some mark → mark.seq < seq)
      → Outcome now k seq marks

accept_at-Outcome : (now : ℕ) (k : String) (seq : ℕ) (marks : Marks) → Outcome now k seq marks
unfolding accept_at
accept_at-Outcome now k seq marks = elim (Option-cases (lookup string_discrete k marks)) [
  | inl e ↦ moved (rw (e, accept_at)) (λ mark f. cc)
  | inr (mark, e) ↦ elim (Bool-cases (leb seq mark.seq)) [
    | inl le ↦ kept mark e (leb→le _ _ le) (rw (e, accept_at, le))
    | inr gt ↦ moved (rw (e, accept_at, gt)) (λ other f. ground arith)
  ]
]

module _ (k : String) (n since : ℕ) where
  Holds-lookup :
      (behind : ℕ) (marks : Marks)
      → Holds k n since behind marks
      → (mark : Mark) × (lookup string_discrete k marks ≡ some mark) × (n ≤ mark.seq)
  unfolding lookup
  Holds-lookup behind [] h = absurd h
  Holds-lookup behind (e ∷ marks) (inl h) = (e.1, ground arith, h.1)
  Holds-lookup behind (e ∷ marks) (inr h) =
      let (mark, found, big) = Holds-lookup behind marks h.1 in (mark, ground arith, big)

  Holds-mono : (a b : ℕ) (marks : Marks) → a ≤ b → Holds k n since a marks → Holds k n since b marks
  Holds-mono a b [] le h = h
  Holds-mono a b (e ∷ marks) le (inl h) = inl (h.0, h.1, h.2, omega arith)
  Holds-mono a b (e ∷ marks) le (inr h) = inr (h.0, Holds-mono a b marks le h.1)

  Holds-keep :
      (now behind : ℕ) (marks : Marks)
      → now ≤ since + idle_forget_ms
      → Holds k n since behind marks
      → Holds k n since behind (keep (is_fresh now) marks)
  Holds-keep now behind [] late h = h
  Holds-keep now behind (e ∷ marks) late (inl h) =
      let fresh : is_fresh now e ≡ true = ground arith in
      rw fresh (inl (h.0, h.1, h.2, omega (arith, length-keep-le (is_fresh now) marks)))
  Holds-keep now behind (e ∷ marks) late (inr h) =
      let ih = Holds-keep now behind marks late h.1 in
      elim (Bool-cases (is_fresh now e)) [ inl f ↦ rw f (inr (h.0, ih)) | inr o ↦ rw o ih ]

  Holds-drop_oldest :
      (behind : ℕ) (marks : Marks)
      → suc behind < max_entries
      → Holds k n since behind marks
      → Holds k n since behind (drop_oldest marks)
  unfolding drop_oldest
  Holds-drop_oldest behind [] few h = h
  Holds-drop_oldest behind (e ∷ marks) few (inl h) =
      let small : leb max_entries (length (e ∷ marks)) ≡ false = ground arith in rw small (inl h)
  Holds-drop_oldest behind (e ∷ marks) few (inr h) =
      let ih = Holds-drop_oldest behind marks few h.1 in
      elim (Bool-cases (leb max_entries (length (e ∷ marks)))) [
        | inl f ↦ rw f ih
        | inr o ↦ rw o (inr h)
      ]

  Holds-delete :
      (j : String) (behind : ℕ) (marks : Marks)
      → k ≢ j
      → Holds k n since behind marks
      → Holds k n since behind (delete string_discrete j marks)
  unfolding delete
  Holds-delete j behind [] ne h = h
  Holds-delete j behind (e ∷ marks) ne (inl h) = elim (string_discrete j e.0) [
    | yes p ↦ absurd (ne (ground arith))
    | no p ↦
        rw (if_neg _ p)
          (inl (h.0, h.1, h.2, omega (arith, length-delete-le string_discrete j marks)))
  ]
  Holds-delete j behind (e ∷ marks) ne (inr h) =
      let ih = Holds-delete j behind marks ne h.1 in
      elim (string_discrete j e.0) [
        | yes p ↦ rw (if_pos _ p) ih
        | no p ↦ rw (if_neg _ p) (inr (h.0, ih))
      ]

  Holds-append :
      (x : String × Mark) (behind : ℕ) (marks : Marks)
      → Holds k n since behind marks
      → Holds k n since (suc behind) (marks ++ x ∷ [])
  Holds-append x behind [] h = absurd h
  Holds-append x behind (e ∷ marks) (inl h) =
      inl (h.0, h.1, h.2, omega (arith, length-append marks (x ∷ [])))
  Holds-append x behind (e ∷ marks) (inr h) = inr (h.0, Holds-append x behind marks h.1)

  Holds-newest :
      (mark : Mark) (marks : Marks)
      → lookup string_discrete k marks ≡ none
      → n ≤ mark.seq
      → since ≤ mark.at
      → Holds k n since 0 (marks ++ (k, mark) ∷ [])
  unfolding lookup
  Holds-newest mark [] e big late = inl (refl, big, late, omega arith)
  Holds-newest mark (x ∷ marks) e big late = elim (string_discrete k x.0) [
    | yes p ↦ absurd (none-ne-some (rw (if_pos _ p) at e))
    | no p ↦ inr (λ q. p (sym q), Holds-newest mark marks (rw (if_neg _ p) at e) big late)
  ]

  Holds-move_to_end :
      (j : String) (mark : Mark) (behind : ℕ) (marks : Marks)
      → k ≢ j
      → Holds k n since behind marks
      → Holds k n since (suc behind) (move_to_end j mark marks)
  unfolding move_to_end
  Holds-move_to_end j mark behind marks ne h =
      rw
        (put_absent string_discrete j mark (delete string_discrete j marks)
          (lookup-delete_self string_discrete j marks))
        (Holds-append (j, mark) behind _ (Holds-delete j behind marks ne h))

  Holds-move_to_end_self :
      (mark : Mark) (behind : ℕ) (marks : Marks)
      → n ≤ mark.seq
      → since ≤ mark.at
      → Holds k n since behind (move_to_end k mark marks)
  unfolding move_to_end
  Holds-move_to_end_self mark behind marks big late =
      let absent = lookup-delete_self string_discrete k marks in
      rw (put_absent string_discrete k mark (delete string_discrete k marks) absent) (
        Holds-mono 0 behind _ (omega arith)
          (Holds-newest mark (delete string_discrete k marks) absent big late))

  Holds-forget_old :
      (now behind : ℕ) (marks : Marks)
      → now ≤ since + idle_forget_ms
      → suc behind < max_entries
      → Holds k n since behind marks
      → Holds k n since behind (forget_old now marks)
  unfolding forget_old
  Holds-forget_old now behind marks late few h =
      Holds-drop_oldest behind (keep (is_fresh now) marks) few (Holds-keep now behind marks late h)

  -- The client's own command leaves its mark at `n` or more; another's moves it back by one at most.
  Holds-accept_at :
      (now : ℕ) (j : String) (seq behind : ℕ) (marks : Marks)
      → since ≤ now
      → Holds k n since behind marks
      → Holds k n since (suc behind) (accept_at now j seq marks).0
  Holds-accept_at now j seq behind marks late h = elim (accept_at-Outcome now j seq marks) [
    | kept mark found le e ↦ rw e (Holds-mono behind (suc behind) marks (omega arith) h)
    | moved e above ↦ rw e (elim (string_discrete k j) [
      | yes p ↦
          let (mark, found, big) = Holds-lookup behind marks h in
          let less = above mark (rw p at found) in
          rw (← p) (Holds-move_to_end_self _ (suc behind) marks (omega arith) late)
      | no p ↦ Holds-move_to_end j _ behind marks p h
    ])
  ]

  Holds-note_stop_at :
      (now : ℕ) (j : String) (seq behind : ℕ) (marks : Marks)
      → since ≤ now
      → Holds k n since behind marks
      → Holds k n since (suc behind) (note_stop_at now j seq marks)
  unfolding note_stop_at
  Holds-note_stop_at now j seq behind marks late h =
      let (mark, found, big) = Holds-lookup behind marks h in
      elim (string_discrete k j) [
        | yes p ↦ rw (← p, found) (Holds-move_to_end_self _ (suc behind) marks (omega arith) late)
        | no p ↦ Holds-move_to_end j _ behind marks p h
      ]

  Holds-step :
      (c : Call) (behind : ℕ) (marks : Marks)
      → since ≤ time c
      → time c ≤ since + idle_forget_ms
      → suc behind < max_entries
      → Holds k n since behind marks
      → Holds k n since (suc behind) (step c marks)
  unfolding step accept note_stop
  Holds-step (motion now c seq) behind marks late early few h =
      Holds-accept_at now (key c) seq behind (forget_old now marks) late
        (Holds-forget_old now behind marks early few h)
  Holds-step (stop now c seq) behind marks late early few h =
      Holds-note_stop_at now (key c) seq behind (forget_old now marks) late
        (Holds-forget_old now behind marks early few h)

  Holds-run :
      (calls : List Call) (behind : ℕ) (marks : Marks)
      → All (λ c. (since ≤ time c) × (time c ≤ since + idle_forget_ms)) calls
      → behind + length calls < max_entries
      → Holds k n since behind marks
      → Holds k n since (behind + length calls) (run calls marks)
  unfolding run
  Holds-run [] behind marks times few h = Holds-mono behind _ marks (omega arith) h
  Holds-run (c ∷ calls) behind marks times few h =
      let next = Holds-step c behind marks times.0.0 times.0.1 (omega arith) h in
      Holds-mono _ _ _ (omega arith)
        (Holds-run calls (suc behind) (step c marks) times.1 (omega arith) next)

  Holds-run_start :
      (calls : List Call) (marks : Marks)
      → All (λ c. (since ≤ time c) × (time c ≤ since + idle_forget_ms)) calls
      → length calls ≤ 1022
      → Holds k n since 0 marks
      → Holds k n since (length calls) (run calls marks)
  Holds-run_start calls marks times few h =
      Holds-mono _ _ _ (omega arith) (Holds-run calls 0 marks times (omega arith) h)

refused_accepted : {last : ℕ} → refused last ≡ accepted → ⊥
refused_accepted h = cc

-- A motion command of the client `k` with the number `seq` is refused by a number not below `n`.
abbrev pub IsRefused : ℕ → Answer → Type 0
IsRefused n accepted = ⊥
IsRefused n (refused last) = n ≤ last

IsRefused-of_Holds :
    (c : Client) (n since behind now seq : ℕ) (marks : Marks)
    → now ≤ since + idle_forget_ms
    → suc behind < max_entries
    → seq ≤ n
    → Holds (key c) n since behind marks
    → IsRefused n (accept now c seq marks).1
unfolding accept
IsRefused-of_Holds c n since behind now seq marks early few low h =
    let kept_mark = Holds-forget_old (key c) n since now behind marks early few h in
    let (mark, found, big) = Holds-lookup (key c) n since behind (forget_old now marks) kept_mark in
    elim (accept_at-Outcome now (key c) seq (forget_old now marks)) [
      | kept other same le e ↦ rw e (ground arith)
      | moved e above ↦ let less = above mark found in absurd (omega arith)
    ]

-- The times of calls: none before `since`, none more than an hour after it.
abbrev pub WithinHour : ℕ → List Call → Type 0
WithinHour since = All (λ c. (since ≤ time c) × (time c ≤ since + idle_forget_ms))

-- Once a client has sent a stop with the number `n`, a motion command of that client for that robot
-- with a number not above `n` is refused, and the answer gives a number that is at least `n`. Up to
-- 1022 other calls may come in between, of this client and of others, stops and motion commands; all
-- of it within an hour of the stop, which is when marks are forgotten.
pub IsRefused-after_stop :
    (c : Client) (n since now seq : ℕ) (calls : List Call) (marks : Marks)
    → WithinHour since calls
    → now ≤ since + idle_forget_ms
    → length calls ≤ 1022
    → seq ≤ n
    → IsRefused n (accept now c seq (run calls (note_stop since c n marks))).1
unfolding note_stop note_stop_at
IsRefused-after_stop c n since now seq calls marks times early few low =
    IsRefused-of_Holds c n since (length calls) now seq _ early (omega arith) low (
      Holds-run_start (key c) n since calls _ times few (
        Holds-move_to_end_self (key c) n since _ 0 (forget_old since marks) (omega arith)
          (omega arith)))

-- The same holds once a motion command with the number `n` was accepted: its number and those below
-- it are refused from then on, so that a repeated or overtaken command moves nothing.
pub IsRefused-after_accepted :
    (c : Client) (n since now seq : ℕ) (calls : List Call) (marks : Marks)
    → (accept since c n marks).1 ≡ accepted
    → WithinHour since calls
    → now ≤ since + idle_forget_ms
    → length calls ≤ 1022
    → seq ≤ n
    → IsRefused n (accept now c seq (run calls (accept since c n marks).0)).1
unfolding accept
IsRefused-after_accepted c n since now seq calls marks done times early few low =
    IsRefused-of_Holds c n since (length calls) now seq _ early (omega arith) low (
      Holds-run_start (key c) n since calls _ times few
        (elim (accept_at-Outcome since (key c) n (forget_old since marks)) [
          | kept mark found le e ↦
              absurd (refused_accepted (ap (λ (p : Marks × Answer). p.1) (sym e) ∙ done))
          | moved e above ↦ rw e (
              Holds-move_to_end_self (key c) n since _ 0 (forget_old since marks) (omega arith)
                (omega arith))
        ]))
