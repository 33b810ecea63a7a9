-- ===== src/RobotIds/Count.antt =====
-- An id is ambiguous when more than one robot of the settings has it.
use hydra_umc_server.Prelude.{
  ℕ, suc, ◌+◌, String, Option, none, some, Bool, true, false, List, [], ◌∷◌, ◌++◌, map, length,
  keep, not, ltb, ◌≡◌, ◌≢◌, ◌∙◌, refl, sym, ap, arith, Bool-cases, lookup, put, string_discrete,
  ite, subst, if_pos, if_neg, lookup-put_self, lookup-put_ne, length-append, inl, inr,
}
use hydra_umc_server.RobotIds.{
  RobotId, string_of, Controller, RobotIdConflict, Seen, name_of, entry_of, see, see_robots,
  see_controllers, is_shared, robot_id_conflicts, some_about, is_robot_id_ambiguous,
  new_robot_id_conflicts,
}

-- 1 for a robot with the id.
pub has_id : String → RobotId → ℕ
has_id id r = ite (string_discrete (string_of r) id) 1 0

-- How many robots of the list have the id.
abbrev pub robots_with : String → List (Option RobotId) → ℕ
robots_with id [] = 0
robots_with id (none ∷ robots) = robots_with id robots
robots_with id (some r ∷ robots) = has_id id r + robots_with id robots

abbrev pub robots_in : String → List Controller → ℕ
robots_in id [] = 0
robots_in id (c ∷ controllers) = robots_with id c.robots + robots_in id controllers

-- How many controllers the entry of the id has.
abbrev pub counted : Option RobotIdConflict → ℕ
counted none = 0
counted (some c) = length c.controllers

seen_count : String → Seen → ℕ
seen_count id seen = counted (lookup string_discrete id seen)

length-entry :
    (controller : String) (r : RobotId) (o : Option RobotIdConflict)
    → length ((entry_of r o).controllers ++ controller ∷ []) ≡ suc (counted o)
length-entry controller r none = refl
length-entry controller r (some c) = omega (arith, length-append c.controllers (controller ∷ []))

count-see_self :
    (controller : String) (r : RobotId) (seen : Seen)
    → seen_count (string_of r) (see controller r seen) ≡ suc (seen_count (string_of r) seen)
unfolding see seen_count
count-see_self controller r seen =
    rw (lookup-put_self string_discrete (string_of r) _ seen)
      (length-entry controller r (lookup string_discrete (string_of r) seen))

count-see :
    (id controller : String) (r : RobotId) (seen : Seen)
    → seen_count id (see controller r seen) ≡ has_id id r + seen_count id seen
unfolding see seen_count has_id
count-see id controller r seen = elim (string_discrete (string_of r) id) [
  | yes same ↦ rw (if_pos {C = ℕ} (string_discrete (string_of r) id) same 1 0) (
      omega (
        arith,
        subst (λ k. seen_count k (see controller r seen) ≡ suc (seen_count k seen)) same
            (count-see_self controller r seen),
      ))
  | no other ↦ rw (if_neg {C = ℕ} (string_discrete (string_of r) id) other 1 0) (
      omega (
        arith,
        ap counted
            (lookup-put_ne string_discrete {j = id} (string_of r) _ seen (λ e. other (sym e))),
      ))
]

count-see_robots :
    (id controller : String) (robots : List (Option RobotId)) (seen : Seen)
    → seen_count id (see_robots controller robots seen) ≡ robots_with id robots + seen_count id seen
unfolding see_robots
count-see_robots id controller [] seen = omega arith
count-see_robots id controller (none ∷ robots) seen = count-see_robots id controller robots seen
count-see_robots id controller (some r ∷ robots) seen = omega (
  arith,
  count-see_robots id controller robots (see controller r seen),
  count-see id controller r seen,
)

count-see_controllers :
    (id : String) (controllers : List Controller) (seen : Seen)
    → seen_count id (see_controllers controllers seen)
      ≡ robots_in id controllers + seen_count id seen
unfolding see_controllers
count-see_controllers id [] seen = omega arith
count-see_controllers id (c ∷ controllers) seen = omega (
  arith,
  count-see_controllers id controllers (see_robots (name_of c.id) c.robots seen),
  count-see_robots id (name_of c.id) c.robots seen,
)

-- Each entry stands under the id of its robot, and each id once.
abbrev pub IsTable : Seen → Type 0
IsTable [] = Unit
IsTable (e ∷ seen) =
    (string_of e.1.robot_id ≡ e.0) × (lookup string_discrete e.0 seen ≡ none) × IsTable seen

put-IsTable :
    (k : String) (c : RobotIdConflict) (seen : Seen)
    → string_of c.robot_id ≡ k
    → IsTable seen
    → IsTable (put string_discrete k c seen)
unfolding put lookup
put-IsTable k c [] own table = (own, refl, tt)
put-IsTable k c (e ∷ seen) own (here, once, table) = elim (string_discrete k e.0) [
  | yes same ↦
      rw
        (if_pos {C = Seen} (string_discrete k e.0) same ((k, c) ∷ seen)
          (e ∷ put string_discrete k c seen))
        (own, subst (λ j. lookup string_discrete j seen ≡ none) (sym same) once, table)
  | no other ↦
      rw
        (if_neg {C = Seen} (string_discrete k e.0) other ((k, c) ∷ seen)
          (e ∷ put string_discrete k c seen))
        (
          here,
          lookup-put_ne string_discrete {j = e.0} k c seen (λ h. other (sym h)) ∙ once,
          put-IsTable k c seen own table,
        )
]

entry-own :
    (r : RobotId) (o : Option RobotIdConflict)
    → ((c : RobotIdConflict) → o ≡ some c → string_of c.robot_id ≡ string_of r)
    → string_of (entry_of r o).robot_id ≡ string_of r
entry-own r none h = refl
entry-own r (some c) h = h c refl

lookup-own :
    (k : String) (seen : Seen) (c : RobotIdConflict)
    → IsTable seen
    → lookup string_discrete k seen ≡ some c
    → string_of c.robot_id ≡ k
unfolding lookup
lookup-own k [] c table h = absurd (cc h)
lookup-own k (e ∷ seen) c (here, once, table) h = ground (arith, lookup-own k seen c table)

see-IsTable :
    (controller : String) (r : RobotId) (seen : Seen)
    → IsTable seen
    → IsTable (see controller r seen)
unfolding see
see-IsTable controller r seen table =
    put-IsTable (string_of r) _ seen
      (entry-own r (lookup string_discrete (string_of r) seen)
        (λ c found. lookup-own (string_of r) seen c table found))
      table

see_robots-IsTable :
    (controller : String) (robots : List (Option RobotId)) (seen : Seen)
    → IsTable seen
    → IsTable (see_robots controller robots seen)
unfolding see_robots
see_robots-IsTable controller [] seen table = table
see_robots-IsTable controller (none ∷ robots) seen table =
    see_robots-IsTable controller robots seen table
see_robots-IsTable controller (some r ∷ robots) seen table =
    see_robots-IsTable controller robots _ (see-IsTable controller r seen table)

see_controllers-IsTable :
    (controllers : List Controller) (seen : Seen)
    → IsTable seen
    → IsTable (see_controllers controllers seen)
unfolding see_controllers
see_controllers-IsTable [] seen table = table
see_controllers-IsTable (c ∷ controllers) seen table =
    see_controllers-IsTable controllers _ (see_robots-IsTable (name_of c.id) c.robots seen table)

absent-some_about :
    (id : String) (seen : Seen)
    → IsTable seen
    → lookup string_discrete id seen ≡ none
    → some_about id (keep is_shared (map (λ e. e.1) seen)) ≡ false
unfolding lookup
absent-some_about id [] table h = refl
absent-some_about id (e ∷ seen) (here, once, table) h =
    ground (arith, absent-some_about id seen table)

-- In a table, an id is among the shared ones when its entry has more than one controller.
some_about-count :
    (id : String) (seen : Seen)
    → IsTable seen
    → some_about id (keep is_shared (map (λ e. e.1) seen)) ≡ ltb 1 (seen_count id seen)
unfolding lookup seen_count
some_about-count id [] table = refl
some_about-count id (e ∷ seen) (here, once, table) = elim (string_discrete id e.0) [
  | yes same ↦
      let gone =
        absent-some_about id seen table
          (subst (λ j. lookup string_discrete j seen ≡ none) (sym same) once) in
      ground (arith, gone)
  | no other ↦ ground (arith, some_about-count id seen table)
]

total : (id : String) {n m : ℕ} → n ≡ m + seen_count id [] → n ≡ m
unfolding seen_count lookup
total id h = omega (arith, h)

-- An id is ambiguous exactly when more than one robot of the settings has it, in whatever controllers.
pub is_robot_id_ambiguous-count :
    (settings : List Controller) (r : RobotId)
    → is_robot_id_ambiguous settings r ≡ ltb 1 (robots_in (string_of r) settings)
unfolding is_robot_id_ambiguous robot_id_conflicts
is_robot_id_ambiguous-count settings r =
    some_about-count (string_of r) (see_controllers settings [])
      (see_controllers-IsTable settings [] tt)
    ∙ ap (ltb 1) (total (string_of r) (count-see_controllers (string_of r) settings []))

cons-ne-nil : {c : RobotIdConflict} {cs : List RobotIdConflict} → c ∷ cs ≢ []
cons-ne-nil h = grind arith

true_of_not : (b : Bool) → not b ≡ false → b ≡ true
true_of_not true h = refl
true_of_not false h = absurd (cc h)

-- Of an empty selection, everything was dropped.
keep_none :
    (p : RobotIdConflict → Bool) (cs : List RobotIdConflict)
    → keep p cs ≡ []
    → (id : String) → some_about id cs ≡ true
    → (c : RobotIdConflict) × (string_of c.robot_id ≡ id) × (p c ≡ false)
keep_none p [] h id found = absurd (cc found)
keep_none p (c ∷ cs) h id found = elim (Bool-cases (p c)) [
  | inl kept ↦ absurd (cons-ne-nil (rw kept at h))
  | inr dropped ↦ elim (string_discrete (string_of c.robot_id) id) [
    | yes same ↦ (c, same, dropped)
    | no other ↦ keep_none p cs (rw dropped at h) id (ground arith)
  ]
]

-- Where a registration adds no conflict, every id that is ambiguous after it was ambiguous before.
pub ambiguous_before :
    (current payload : List Controller) (r : RobotId)
    → new_robot_id_conflicts current payload ≡ []
    → is_robot_id_ambiguous payload r ≡ true
    → is_robot_id_ambiguous current r ≡ true
unfolding new_robot_id_conflicts is_robot_id_ambiguous
ambiguous_before current payload r none_new h =
    let (c, same, known) = keep_none _ (robot_id_conflicts payload) none_new (string_of r) h in
    subst (λ id. some_about id (robot_id_conflicts current) ≡ true) same (true_of_not _ known)
