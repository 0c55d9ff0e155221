-- ===== src/Master/Reachable/Marking.antt =====
-- main.c: mark_reachable marks what the graph of neighbors reaches, and a depth of one more than there are
-- unmarked remotes is enough.
use enthrall.Prelude.{
  ℕ, zero, suc, ◌+◌, ◌==◌, ◌≤◌, ◌<◌, ◌≡◌, refl, sym, ap, ◌∙◌, subst, Bool, true, false, Option,
  none, some, List, [], ◌∷◌, if◌then◌else◌, arith, Bool-cases, ◌⊎◌, inl, inr, All, ==_iff,
}
use enthrall.Edge.{Direction, left, right, up, down}
use enthrall.Master.{NodeRef, master, remote, Master, node_at}
use enthrall.Master.Reachable.{directions, each_neighbor, set_reachable, mark_reachable}

-- The remote can be reached from the node over neighbors, without the master in between.
pub data Reach (m : Master) : Option NodeRef → ℕ → Type 0 where
  here : {i : ℕ} → Reach m (some (remote i)) i
  along :
      {i j : ℕ}
      → (dir : Direction) → Reach m ((m.store i).node.neighbors dir) j
      → Reach m (some (remote i)) j

-- The address is one of the list.
abbrev pub Listed : ℕ → List ℕ → Type 0
Listed i [] = ⊥
Listed i (j ∷ rest) = (i ≡ j) ⊎ Listed i rest

-- The state with other marks.
abbrev pub with_marks : (ℕ → Bool) → Master → Master
with_marks f m = record m { store = λ j. record (m.store j) { reachable = f j } }

abbrev pub marks : Master → ℕ → Bool
marks m j = (m.store j).reachable

abbrev mark : ℕ → (ℕ → Bool) → ℕ → Bool
mark i f j = if j == i then true else f j

abbrev pub unmarked : List ℕ → (ℕ → Bool) → ℕ
unmarked [] f = 0
unmarked (i ∷ rest) f = (if f i then 0 else 1) + unmarked rest f

abbrev pub Grows : (ℕ → Bool) → (ℕ → Bool) → Type 0
Grows f f' = (j : ℕ) → f j ≡ true → f' j ≡ true

less_unmarked : (is : List ℕ) (f f' : ℕ → Bool) → Grows f f' → unmarked is f' ≤ unmarked is f
less_unmarked [] f f' g = omega arith
less_unmarked (i ∷ rest) f f' g = elim (Bool-cases (f i)) [
  | inl t ↦ rw (t, g i t) (omega (arith, less_unmarked rest f f' g))
  | inr e ↦ elim (Bool-cases (f' i)) [
    | inl t ↦ rw (e, t) (omega (arith, less_unmarked rest f f' g))
    | inr e' ↦ rw (e, e') (omega (arith, less_unmarked rest f f' g))
  ]
]

mark-Grows : (i : ℕ) (f : ℕ → Bool) → Grows f (mark i f)
mark-Grows i f j t = elim (Bool-cases (j == i)) [ inl s ↦ rw s refl | inr s ↦ rw s t ]

mark_self : (i : ℕ) (f : ℕ → Bool) → mark i f i ≡ true
mark_self i f = rw ((==_iff i i).1 refl) refl

fewer_unmarked :
    (is : List ℕ) (i : ℕ) (f : ℕ → Bool)
    → Listed i is
    → f i ≡ false
    → unmarked is (mark i f) < unmarked is f
fewer_unmarked [] i f l e = absurd l
fewer_unmarked (j ∷ rest) i f (inl q) e =
    let fj : f j ≡ false = ap f (sym q) ∙ e in
    rw (fj, (==_iff j i).1 (sym q))
      (omega (arith, less_unmarked rest f (mark i f) (mark-Grows i f)))
fewer_unmarked (j ∷ rest) i f (inr l) e = elim (Bool-cases (f j)) [
  | inl t ↦ elim (Bool-cases (j == i)) [
    | inl s ↦ rw (t, s) (omega (arith, fewer_unmarked rest i f l e))
    | inr s ↦ rw (t, s) (omega (arith, fewer_unmarked rest i f l e))
  ]
  | inr n ↦ elim (Bool-cases (j == i)) [
    | inl s ↦ rw (n, s) (omega (arith, fewer_unmarked rest i f l e))
    | inr s ↦ rw (n, s) (omega (arith, fewer_unmarked rest i f l e))
  ]
]

-- A node is marked, if it is a remote.
abbrev pub Hit : (ℕ → Bool) → Option NodeRef → Type 0
Hit f none = Unit {0}
Hit f (some master) = Unit {0}
Hit f (some (remote i)) = f i ≡ true

-- A node is not one that is unknown.
abbrev pub Known : List ℕ → Option NodeRef → Type 0
Known is none = Unit {0}
Known is (some master) = Unit {0}
Known is (some (remote i)) = Listed i is

-- The neighbors of all remotes are known.
abbrev pub IsClosed : Master → Type 0
IsClosed m = (n : NodeRef) (dir : Direction) → Known m.remotes ((node_at m n).neighbors dir)

-- All that a remote reaches directly is marked.
abbrev pub Covered : Master → (ℕ → Bool) → ℕ → Type 0
Covered m f j = (dir : Direction) → Hit f ((m.store j).node.neighbors dir)

-- What a call makes of the marks: none is taken back, each new one is among those that `Goal` allows, and
-- what a newly marked remote reaches directly is marked too.
pub record Marks (m : Master) (Goal : ℕ → Type 0) (f f' : ℕ → Bool) : Type 0 where
  pub grows : Grows f f'
  pub sound : (j : ℕ) → f' j ≡ true → (f j ≡ true) ⊎ Goal j
  pub covers : (j : ℕ) → f' j ≡ true → (f j ≡ true) ⊎ Covered m f' j

Hit-Grows : (f f' : ℕ → Bool) → Grows f f' → (o : Option NodeRef) → Hit f o → Hit f' o
Hit-Grows f f' g none h = tt
Hit-Grows f f' g (some master) h = tt
Hit-Grows f f' g (some (remote i)) h = g i h

same-Marks : (m : Master) (Goal : ℕ → Type 0) (f : ℕ → Bool) → Marks m Goal f f
same-Marks m Goal f = record { grows = λ j t. t; sound = λ j t. inl t; covers = λ j t. inl t }

Covered-Grows :
    (m : Master) (f f' : ℕ → Bool) → Grows f f' → (j : ℕ) → Covered m f j → Covered m f' j
Covered-Grows m f f' g j c dir = Hit-Grows f f' g ((m.store j).node.neighbors dir) (c dir)

join-Marks :
    (m : Master) (Goal First Then : ℕ → Type 0) (f g h : ℕ → Bool)
    → ((j : ℕ) → First j → Goal j)
    → ((j : ℕ) → Then j → Goal j)
    → Marks m First f g
    → Marks m Then g h
    → Marks m Goal f h
join-Marks m Goal First Then f g h one two p q = record {
  grows = λ j t. q.grows j (p.grows j t);
  sound = λ j t. elim (q.sound j t) [
    | inr r ↦ inr (two j r)
    | inl s ↦ elim (p.sound j s) [ inl u ↦ inl u | inr r ↦ inr (one j r) ]
  ];
  covers = λ j t. elim (q.covers j t) [
    | inr r ↦ inr r
    | inl s ↦ elim (p.covers j s) [ inl u ↦ inl u | inr r ↦ inr (Covered-Grows m g h q.grows j r) ]
  ];
}

mark_back : (i : ℕ) (f : ℕ → Bool) (j : ℕ) → mark i f j ≡ true → (f j ≡ true) ⊎ (j ≡ i)
mark_back i f j t = elim (Bool-cases (j == i)) [
  | inl s ↦ inr ((==_iff j i).0 s)
  | inr s ↦ inl (rw s at t)
]

pub every_direction : (P : Direction → Type 0) → All P directions → (dir : Direction) → P dir
every_direction P a left = a.0
every_direction P a right = a.1.0
every_direction P a up = a.1.1.0
every_direction P a down = a.1.1.1.0

module _ (m : Master) where
  abbrev neighbor : NodeRef → Direction → Option NodeRef
  neighbor n dir = (node_at m n).neighbors dir

  set_marks : (i : ℕ) (f : ℕ → Bool) → set_reachable i (with_marks f m) ≡ with_marks (mark i f) m
  set_marks i f = λ k. record m { store = λ j. pointwise j k }
    where
      by_same :
          (j : ℕ) (b : Bool)
          → (if b
              then record (record (m.store j) { reachable = f j }) { reachable = true }
              else record (m.store j) { reachable = f j })
            ≡ record (m.store j) { reachable = if b then true else f j }
      by_same j true = refl
      by_same j false = refl

      pointwise :
          (j : ℕ) → (set_reachable i (with_marks f m)).store j ≡ (with_marks (mark i f) m).store j
      pointwise j = by_same j (j == i)

  same_neighbor :
      (f : ℕ → Bool) (n : NodeRef) (dir : Direction)
      → (node_at (with_marks f m) n).neighbors dir ≡ neighbor n dir
  same_neighbor f master dir = refl
  same_neighbor f (remote i) dir = refl

  -- What a call promises where at most so many remotes are unmarked.
  abbrev pub Works : (Option NodeRef → Master → Option Master) → ℕ → Type 0
  Works call depth =
      (n : Option NodeRef) (f : ℕ → Bool)
      → Known m.remotes n
      → unmarked m.remotes f < depth
      → (g : ℕ → Bool) × (call n (with_marks f m) ≡ some (with_marks g m))
        × Marks m (Reach m n) f g
        × Hit g n

  -- Reached by way of a neighbor.
  abbrev pub Beyond : NodeRef → ℕ → Type 0
  Beyond k j = (dir : Direction) × Reach m (neighbor k dir) j

  pub each-Works :
      (call : Option NodeRef → Master → Option Master) (depth : ℕ)
      → Works call depth
      → IsClosed m
      → (k : NodeRef) (ds : List Direction) (f : ℕ → Bool) → unmarked m.remotes f < depth
      → (g : ℕ → Bool) × (each_neighbor call k ds (some (with_marks f m)) ≡ some (with_marks g m))
        × Marks m (Beyond k) f g
        × All (λ dir. Hit g (neighbor k dir)) ds
  each-Works call depth w closed k [] f less = (f, refl, same-Marks m (Beyond k) f, tt)
  each-Works call depth w closed k (dir ∷ ds) f less =
      let (g, e, p, hit) = w (neighbor k dir) f (closed k dir) less in
      let fewer = less_unmarked m.remotes f g p.grows in
      let (h, e', q, hits) = each-Works call depth w closed k ds g (omega (arith, fewer, less)) in
      (
        h,
        ap (λ n. each_neighbor call k ds (call n (with_marks f m))) (same_neighbor f k dir)
            ∙ ap (each_neighbor call k ds) e
            ∙ e',
        join-Marks m (Beyond k) (Reach m (neighbor k dir)) (Beyond k) f g h (λ j r. (dir, r))
            (λ j r. r) p q,
        (Hit-Grows g h q.grows (neighbor k dir) hit, hits),
      )

  module _ (i : ℕ) (f : ℕ → Bool) where
    -- A remote that was marked before.
    seen-Marks : f i ≡ true → Marks m (Reach m (some (remote i))) f (mark i f)
    seen-Marks e = record {
      grows = mark-Grows i f;
      sound = λ j t. inl (before j t);
      covers = λ j t. inl (before j t);
    }
      where
        before : (j : ℕ) → mark i f j ≡ true → f j ≡ true
        before j t = elim (mark_back i f j t) [ inl u ↦ u | inr q ↦ ap f q ∙ e ]

    -- A remote that is marked with all beyond it.
    fresh-Marks :
        (g : ℕ → Bool)
        → Marks m (Beyond (remote i)) (mark i f) g
        → All (λ dir. Hit g (neighbor (remote i) dir)) directions
        → Marks m (Reach m (some (remote i))) f g
    fresh-Marks g p hits = record {
      grows = λ j t. p.grows j (mark-Grows i f j t);
      sound = λ j t. elim (p.sound j t) [
        | inr (dir, r) ↦ inr (along dir r)
        | inl s ↦ elim (mark_back i f j s) [
          | inl u ↦ inl u
          | inr q ↦ inr (subst (λ x. Reach m (some (remote i)) x) (sym q) here)
        ]
      ];
      covers = λ j t. elim (p.covers j t) [
        | inr c ↦ inr c
        | inl s ↦ elim (mark_back i f j s) [
          | inl u ↦ inl u
          | inr q ↦ inr (subst (Covered m g) (sym q) (every_direction _ hits))
        ]
      ];
    }

  pub mark_reachable-Works : IsClosed m → (depth : ℕ) → Works (mark_reachable depth) depth
  unfolding mark_reachable
  mark_reachable-Works closed depth none f known less = (f, refl, same-Marks m (Reach m none) f, tt)
  mark_reachable-Works closed depth (some master) f known less =
      (f, refl, same-Marks m (Reach m (some master)) f, tt)
  mark_reachable-Works closed zero (some (remote i)) f known less = absurd (omega (arith, less))
  mark_reachable-Works closed (suc depth) (some (remote i)) f known less = elim (Bool-cases (f i)) [
    | inl t ↦ (mark i f, rw t (ap some (set_marks i f)), seen-Marks i f t, mark_self i f)
    | inr e ↦
        let fewer = fewer_unmarked m.remotes i f known e in
        let (g, done, p, hits) =
          each-Works (mark_reachable depth) depth (mark_reachable-Works closed depth) closed
            (remote i) directions (mark i f) (omega (arith, fewer, less)) in
        (
          g,
          rw e (
              ap (λ s. each_neighbor (mark_reachable depth) (remote i) directions (some s))
                (set_marks i f)
              ∙ done),
          fresh-Marks i f g p hits,
          p.grows i (mark_self i f),
        )
  ]
