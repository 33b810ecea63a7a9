-- ===== src/Claims/History.antt =====
-- The history of the claims of a robot.
use Prim.Native.Nat.add
use hydra_umc_server.Prelude.{
  ℕ, suc, ◌<◌, ◌+◌, ◌-◌, ◌≤◌, List, [], ◌∷◌, ◌++◌, length, drop, ltb, if◌then◌else◌, ◌≡◌, refl,
  arith, if_both, length-append, length-drop, ap, sym, zero, ◌∙◌, append-nil, append_assoc,
}
use hydra_umc_server.Claims.{
  HistoryEntry, reservation_history_max_entries, append_reservation_history,
}

-- The entries that were pushed, in order.
pub append_all : List HistoryEntry → List HistoryEntry → List HistoryEntry
append_all [] history = history
append_all (e ∷ entries) history = append_all entries (append_reservation_history e history)

abbrev pub newest : ℕ → List HistoryEntry → List HistoryEntry
newest n entries = drop (length entries - n) entries

drop_append :
    (n : ℕ) (xs ys : List HistoryEntry) → n ≤ length xs → drop n xs ++ ys ≡ drop n (xs ++ ys)
drop_append zero xs ys h = refl
drop_append (suc n) [] ys h = absurd (omega arith)
drop_append (suc n) (x ∷ xs) ys h = drop_append n xs ys (omega arith)

drop_nil : (m : ℕ) → drop {A = HistoryEntry} m [] ≡ []
drop_nil zero = refl
drop_nil (suc m) = refl

drop-drop : (m n : ℕ) (xs : List HistoryEntry) → drop m (drop n xs) ≡ drop (n + m) xs
drop-drop m zero xs = rw (add.zero m) refl
drop-drop m (suc n) [] = rw (add.suc n m) (drop_nil m)
drop-drop m (suc n) (x ∷ xs) = rw (add.suc n m) (drop-drop m n xs)

-- At most one entry too many.
splice_newest :
    (n : ℕ) (pushed : List HistoryEntry)
    → n ≡ length pushed - 1 - 20
    → (if ltb 20 (length (drop n pushed))
        then drop (length (drop n pushed) - 20) (drop n pushed)
        else drop n pushed)
      ≡ newest 20 pushed
splice_newest n pushed h =
    let kept = length-drop n pushed in
    if_both (λ x. x ≡ newest 20 pushed) (ltb 20 (length (drop n pushed)))
      {x = drop (length (drop n pushed) - 20) (drop n pushed)} {y = drop n pushed}
      (λ more.
        let many : 20 < length (drop n pushed) = ground arith in
        drop-drop (length (drop n pushed) - 20) n pushed
        ∙ ap (λ k. drop k pushed) (omega (arith, kept, many, h)))
      (λ few.
        let fits : length (drop n pushed) ≤ 20 = ground arith in
        ap (λ k. drop k pushed) (omega (arith, kept, fits, h)))

append-newest :
    (e : HistoryEntry) (past : List HistoryEntry)
    → append_reservation_history e (newest reservation_history_max_entries past)
      ≡ newest reservation_history_max_entries (past ++ e ∷ [])
unfolding append_reservation_history
append-newest e past =
    rw (drop_append (length past - 20) past (e ∷ []) (omega arith)) (
      splice_newest (length past - 20) (past ++ e ∷ [])
        (omega (arith, length-append past (e ∷ []))))

append_all-newest_of :
    (entries past : List HistoryEntry)
    → append_all entries (newest reservation_history_max_entries past)
      ≡ newest reservation_history_max_entries (past ++ entries)
unfolding append_all
append_all-newest_of [] past = ap (newest reservation_history_max_entries) (sym (append-nil past))
append_all-newest_of (e ∷ entries) past =
    ap (append_all entries) (append-newest e past)
    ∙ append_all-newest_of entries (past ++ e ∷ [])
    ∙ ap (newest reservation_history_max_entries) (append_assoc past (e ∷ []) entries)

-- The history is always the last 20 entries that were pushed, in their order.
pub append_all-newest :
    (entries : List HistoryEntry)
    → append_all entries [] ≡ newest reservation_history_max_entries entries
append_all-newest entries = append_all-newest_of entries []
