-- ===== src/Master/Reachable/Checking.antt =====
-- main.c: check_remotes ends, marks the remotes that the graph of neighbors reaches, and is silent where
-- every enabled remote is reached and has a neighbor.
use enthrall.Prelude.{
  ℕ, ◌+◌, ◌==◌, ◌≤◌, ◌≡◌, ◌≢◌, ◌↔◌, refl, ap, Text, Bool, true, false, Option, some, List, [], ◌∷◌,
  ◌++◌, length, arith, Bool-cases, inl, inr, All, All-map, is_some,
}
use enthrall.Edge.{Direction}
use enthrall.Master.{NodeRef, master, Remote, Master}
use enthrall.Master.Reachable.{
  directions, each_neighbor, mark_reachable, num_neighbors, check_remote, check_each, with_warnings,
  check_remotes,
}
use enthrall.Master.Reachable.Marking.{
  Reach, here, along, with_marks, marks, Hit, IsClosed, Covered, Beyond, each-Works,
  mark_reachable-Works, unmarked, every_direction,
}

unmarked_bound : (is : List ℕ) (f : ℕ → Bool) → unmarked is f ≤ length is
unmarked_bound [] f = omega arith
unmarked_bound (i ∷ rest) f = elim (Bool-cases (f i)) [
  | inl t ↦ rw t (omega (arith, unmarked_bound rest f))
  | inr e ↦ rw e (omega (arith, unmarked_bound rest f))
]

-- Some neighbor leads to the remote, from the master on.
abbrev pub IsLinked : Master → ℕ → Type 0
IsLinked m j = Beyond m master j

Reach-marked :
    (m : Master) (g : ℕ → Bool)
    → ((j : ℕ) → g j ≡ true → Covered m g j)
    → (n : Option NodeRef) (j : ℕ) → Reach m n j
    → Hit g n
    → g j ≡ true
Reach-marked m g c n j here hit = hit
Reach-marked m g c n j (along {i} dir r) hit =
    Reach-marked m g c ((m.store i).node.neighbors dir) j r (c i hit dir)

abbrev pub HasNeighbor : Remote → Type 0
HasNeighbor r = (dir : Direction) × (is_some (r.node.neighbors dir) ≡ true)

at_least : (r : Remote) (ds : List Direction) (n : ℕ) → n ≤ num_neighbors r ds n
at_least r [] n = omega arith
at_least r (dir ∷ ds) n = elim (Bool-cases (is_some (r.node.neighbors dir))) [
  | inl t ↦ rw t (omega (arith, at_least r ds (n + 1)))
  | inr e ↦ rw e (at_least r ds n)
]

neighbors_absent :
    (r : Remote) (ds : List Direction)
    → num_neighbors r ds 0 ≡ 0
    → All (λ dir. is_some (r.node.neighbors dir) ≡ false) ds
neighbors_absent r [] e = tt
neighbors_absent r (dir ∷ ds) e = elim (Bool-cases (is_some (r.node.neighbors dir))) [
  | inl t ↦
      let e' : num_neighbors r ds 1 ≡ 0 = rw t at e in absurd (omega (arith, at_least r ds 1, e'))
  | inr f ↦ (f, neighbors_absent r ds (rw f at e))
]

neighbor_counts :
    (r : Remote) (ds : List Direction)
    → num_neighbors r ds 0 ≢ 0
    → (dir : Direction) × (is_some (r.node.neighbors dir) ≡ true)
neighbor_counts r [] n = absurd (n refl)
neighbor_counts r (dir ∷ ds) n = elim (Bool-cases (is_some (r.node.neighbors dir))) [
  | inl t ↦ (dir, t)
  | inr f ↦ neighbor_counts r ds (rw f at n)
]

num_neighbors_lem : (r : Remote) → ((num_neighbors r directions 0 == 0) ≡ false) ↔ HasNeighbor r
num_neighbors_lem r = (
  λ e. neighbor_counts r directions (λ z. clash (num_neighbors r directions 0) e z),
  λ (dir, t). elim (Bool-cases (num_neighbors r directions 0 == 0)) [
    | inr f ↦ f
    | inl z ↦
        let a = neighbors_absent r directions (is_zero (num_neighbors r directions 0) z) in
        let f : is_some (r.node.neighbors dir) ≡ false =
          every_direction (λ d. is_some (r.node.neighbors d) ≡ false) a dir in
        absurd (cc (t, f))
  ],
)
  where
    clash : (n : ℕ) → (n == 0) ≡ false → n ≡ 0 → ⊥
    clash n e z = ground arith

    is_zero : (n : ℕ) → (n == 0) ≡ true → n ≡ 0
    is_zero n e = ground arith

-- A remote of which `check_remotes` says nothing.
check_remote_lem : (r : Remote) → (check_remote r ≡ []) ↔ ((r.reachable ≡ true) × HasNeighbor r)
check_remote_lem r = elim (Bool-cases r.reachable) [
  | inr f ↦ (λ e. absurd (cc (rw f at e)), λ (t, _). absurd (cc (t, f)))
  | inl t ↦ elim (Bool-cases (num_neighbors r directions 0 == 0)) [
    | inl z ↦
        (λ e. absurd (cc (rw (t, z) at e)), λ (_, n). absurd (cc ((num_neighbors_lem r).1 n, z)))
    | inr z ↦ (λ e. (t, (num_neighbors_lem r).0 z), λ _. rw (t, z) refl)
  ]
]

append_empty : (v w : List Text) → v ++ w ≡ [] → (v ≡ []) × (w ≡ [])
append_empty [] w e = (refl, e)
append_empty (t ∷ v) w e = absurd (cc e)

-- Of every enabled remote of the list nothing is said.
abbrev AreQuiet : List ℕ → (ℕ → Remote) → Type 0
AreQuiet is store = All (λ i. (store i).enabled ≡ true → check_remote (store i) ≡ []) is

check_each_lem : (is : List ℕ) (store : ℕ → Remote) → (check_each is store ≡ []) ↔ AreQuiet is store
check_each_lem [] store = (λ e. tt, λ a. refl)
check_each_lem (i ∷ rest) store = elim (Bool-cases (store i).enabled) [
  | inl t ↦ (
    λ e.
        let (a, b) = append_empty (check_remote (store i)) (check_each rest store) (rw t at e) in
        (λ _. a, (check_each_lem rest store).0 b),
    λ (a, b). rw (t, a t, (check_each_lem rest store).1 b) refl,
  )
  | inr f ↦ (
    λ e. (λ t. absurd (cc (t, f)), (check_each_lem rest store).0 (rw f at e)),
    λ (a, b). rw f ((check_each_lem rest store).1 b),
  )
]

-- A configuration that is asked of nothing yet: no remote is marked.
abbrev pub IsUnmarked : Master → Type 0
IsUnmarked m = (j : ℕ) → (m.store j).reachable ≡ false

module _ (m : Master) (closed : IsClosed m) (u : IsUnmarked m) where
  -- The calls from the master's neighbors mark what is linked.
  marking-IsLinked :
      (g : ℕ → Bool) × (each_neighbor
          (mark_reachable (length m.remotes + 1))
          master
          directions
          (some m)
        ≡ some (with_marks g m))
      × ((j : ℕ) → (g j ≡ true) ↔ IsLinked m j)
  marking-IsLinked =
      let depth = length m.remotes + 1 in
      let (g, e, p, hits) =
        each-Works m (mark_reachable depth) depth (mark_reachable-Works m closed depth) closed
          master directions (marks m) (omega (arith, unmarked_bound m.remotes (marks m))) in
      let fresh : (j : ℕ) → marks m j ≡ true → ⊥ = λ j t. cc (u j, t) in
      let covers : (j : ℕ) → g j ≡ true → Covered m g j =
        λ j t. elim (p.covers j t) [ inl s ↦ absurd (fresh j s) | inr c ↦ c ] in
      (
        g,
        e,
        λ j. (
          λ t. elim (p.sound j t) [ inl s ↦ absurd (fresh j s) | inr b ↦ b ],
          λ (dir, r).
              Reach-marked m g covers (m.self.neighbors dir) j r
                (every_direction (λ d. Hit g (m.self.neighbors d)) hits dir),
        ),
      )

-- Where every neighbor is a node and no remote is marked yet, `check_remotes` returns: it marks just the
-- remotes that a chain of neighbors leads to from the master, changes nothing else, and warns of nothing
-- just when every enabled remote is one of these and has a neighbor itself.
pub check_remotes_lem :
    (m : Master)
    → IsClosed m
    → IsUnmarked m
    → (warnings : List Text) × (m' : Master) × (check_remotes m ≡ some (warnings, m'))
      × (m' ≡ with_marks (marks m') m)
      × ((j : ℕ) → (marks m' j ≡ true) ↔ IsLinked m j)
      × ((warnings ≡ [])
          ↔ All
              (λ i. (m.store i).enabled ≡ true → IsLinked m i × HasNeighbor (m.store i))
              m.remotes)
unfolding check_remotes
check_remotes_lem m closed u =
    let (g, e, linked) = marking-IsLinked m closed u in
    let after = with_marks g m in
    let quiet = check_each_lem m.remotes after.store in
    let told : (i : ℕ)
        → (g i ≡ true) × HasNeighbor (m.store i)
        → IsLinked m i × HasNeighbor (m.store i) =
      λ i (t, n). ((linked i).0 t, n) in
    let seen : (i : ℕ)
        → IsLinked m i × HasNeighbor (m.store i)
        → (g i ≡ true) × HasNeighbor (m.store i) =
      λ i (l, n). ((linked i).1 l, n) in
    (
      check_each m.remotes after.store,
      after,
      ap with_warnings e,
      refl,
      linked,
      (
        λ w.
            All-map (λ i q t. told i ((check_remote_lem (after.store i)).0 (q t))) m.remotes
              (quiet.0 w),
        λ a.
            quiet.1
              (All-map (λ i q t. (check_remote_lem (after.store i)).1 (seen i (q t))) m.remotes a),
      ),
    )
