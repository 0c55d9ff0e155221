-- ===== src/Fdmon/Chain.antt =====
-- x11.c: stretches of a doubly linked list, and what an update of one pointer makes of them.
use enthrall.Prelude.{
  ℕ, ◌==◌, ◌≡◌, ◌≢◌, refl, sym, ap, ◌∙◌, subst, Option, none, some, List, [], ◌∷◌, ◌++◌, Bool-cases,
  inl, inr, ◌⊎◌, ==_iff,
}
use enthrall.Fdmon.{Ctx, set_at, set_if, with_prev, with_next}

abbrev pub first : List ℕ → Option ℕ → Option ℕ
first [] q = q
first (x ∷ xs) q = some x

abbrev pub last : Option ℕ → List ℕ → Option ℕ
last p [] = p
last p (x ∷ xs) = last (some x) xs

-- The contexts are linked in this order, from one that follows `p` to one that is followed by `q`.
abbrev pub Seg : (ℕ → Ctx) → Option ℕ → List ℕ → Option ℕ → Type 0
Seg at p [] q = Unit {0}
Seg at p (x ∷ xs) q = ((at x).prev ≡ p) × ((at x).next ≡ first xs q) × Seg at (some x) xs q

abbrev pub Listed : ℕ → List ℕ → Type 0
Listed i [] = ⊥
Listed i (j ∷ rest) = (i ≡ j) ⊎ Listed i rest

abbrev pub AreDistinct : List ℕ → Type 0
AreDistinct [] = Unit {0}
AreDistinct (x ∷ xs) = (Listed x xs → ⊥) × AreDistinct xs

pub last-append : (p : Option ℕ) (ys zs : List ℕ) → last p (ys ++ zs) ≡ last (last p ys) zs
last-append p [] zs = refl
last-append p (y ∷ ys) zs = last-append (some y) ys zs

pub first-append : (ys zs : List ℕ) (q : Option ℕ) → first (ys ++ zs) q ≡ first ys (first zs q)
first-append [] zs q = refl
first-append (y ∷ ys) zs q = refl

pub join-Seg :
    (at : ℕ → Ctx) (p : Option ℕ) (ys zs : List ℕ) (q : Option ℕ)
    → Seg at p ys (first zs q)
    → Seg at (last p ys) zs q
    → Seg at p (ys ++ zs) q
join-Seg at p [] zs q a b = b
join-Seg at p (y ∷ ys) zs q (c, d, a) b =
    (c, d ∙ sym (first-append ys zs q), join-Seg at (some y) ys zs q a b)

pub split-Seg :
    (at : ℕ → Ctx) (p : Option ℕ) (ys zs : List ℕ) (q : Option ℕ)
    → Seg at p (ys ++ zs) q
    → Seg at p ys (first zs q) × Seg at (last p ys) zs q
split-Seg at p [] zs q b = (tt, b)
split-Seg at p (y ∷ ys) zs q (c, d, a) =
    let (e, f) = split-Seg at (some y) ys zs q a in ((c, d ∙ first-append ys zs q, e), f)

-- Contexts with the same links.
abbrev pub SameLinks : (ℕ → Ctx) → (ℕ → Ctx) → ℕ → Type 0
SameLinks at at' x = ((at' x).prev ≡ (at x).prev) × ((at' x).next ≡ (at x).next)

pub still-Seg :
    (at at' : ℕ → Ctx) (p : Option ℕ) (xs : List ℕ) (q : Option ℕ)
    → ((x : ℕ) → Listed x xs → SameLinks at at' x)
    → Seg at p xs q
    → Seg at' p xs q
still-Seg at at' p [] q s g = tt
still-Seg at at' p (x ∷ xs) q s (c, d, g) =
    let (e, f) = s x (inl refl) in
    (e ∙ c, f ∙ d, still-Seg at at' (some x) xs q (λ y l. s y (inr l)) g)

pub set_at_self : (i : ℕ) (f : Ctx → Ctx) (at : ℕ → Ctx) → set_at i f at i ≡ f (at i)
set_at_self i f at = rw ((==_iff i i).1 refl) refl

pub set_at_other : (i : ℕ) (f : Ctx → Ctx) (at : ℕ → Ctx) (j : ℕ) → j ≢ i → set_at i f at j ≡ at j
set_at_other i f at j n = elim (Bool-cases (j == i)) [
  | inl t ↦ absurd (n ((==_iff j i).0 t))
  | inr e ↦ rw e refl
]

-- An update of a context outside a stretch.
pub beside-Seg :
    (i : ℕ) (f : Ctx → Ctx) (at : ℕ → Ctx) (p : Option ℕ) (xs : List ℕ) (q : Option ℕ)
    → (Listed i xs → ⊥)
    → Seg at p xs q
    → Seg (set_at i f at) p xs q
beside-Seg i f at p xs q n g =
    still-Seg at (set_at i f at) p xs q
      (λ x l.
        let e = set_at_other i f at x (λ s. n (subst (λ y. Listed y xs) s l)) in
        (ap (λ c. c.prev) e, ap (λ c. c.next) e))
      g

-- A pointer to one of the list.
abbrev pub IsIn : Option ℕ → List ℕ → Type 0
IsIn none xs = ⊥
IsIn (some x) xs = Listed x xs

pub last-IsIn : (x : ℕ) (xs : List ℕ) → IsIn (last (some x) xs) (x ∷ xs)
last-IsIn x [] = inl refl
last-IsIn x (w ∷ xs) = weaken (last (some w) xs) (last-IsIn w xs)
  where
    weaken : (o : Option ℕ) → IsIn o (w ∷ xs) → IsIn o (x ∷ w ∷ xs)
    weaken none l = l
    weaken (some y) l = inr l

-- The last one of a stretch, where it has one, is given another next one.
pub aim_next-Seg :
    (at : ℕ → Ctx) (p : Option ℕ) (y : ℕ) (ys : List ℕ) (q q' : Option ℕ)
    → AreDistinct (y ∷ ys)
    → Seg at p (y ∷ ys) q
    → Seg (set_if (last p (y ∷ ys)) (with_next q') at) p (y ∷ ys) q'
aim_next-Seg at p y [] q q' d (c, e, g) =
    let s = set_at_self y (with_next q') at in (ap (λ c. c.prev) s ∙ c, ap (λ c. c.next) s, tt)
aim_next-Seg at p y (z ∷ zs) q q' (n, d) (c, e, g) =
    let s = keeps_first (last (some z) zs) (last-IsIn z zs) in
    (ap (λ c. c.prev) s ∙ c, ap (λ c. c.next) s ∙ e, aim_next-Seg at (some y) z zs q q' d g)
  where
    keeps_first : (o : Option ℕ) → IsIn o (z ∷ zs) → set_if o (with_next q') at y ≡ at y
    keeps_first none l = absurd l
    keeps_first (some x) l =
        set_at_other x (with_next q') at y (λ s. n (subst (λ w. Listed w (z ∷ zs)) (sym s) l))

-- The first one of a stretch is given another previous one.
pub aim_prev-Seg :
    (at : ℕ → Ctx) (p p' : Option ℕ) (z : ℕ) (zs : List ℕ) (q : Option ℕ)
    → (Listed z zs → ⊥)
    → Seg at p (z ∷ zs) q
    → Seg (set_at z (with_prev p') at) p' (z ∷ zs) q
aim_prev-Seg at p p' z zs q n (c, e, g) =
    let s = set_at_self z (with_prev p') at in
    (ap (λ c. c.prev) s, ap (λ c. c.next) s ∙ e, beside-Seg z (with_prev p') at (some z) zs q n g)

pub Listed-append : (x : ℕ) (ys zs : List ℕ) → Listed x (ys ++ zs) → Listed x ys ⊎ Listed x zs
Listed-append x [] zs l = inr l
Listed-append x (y ∷ ys) zs (inl e) = inl (inl e)
Listed-append x (y ∷ ys) zs (inr l) = elim (Listed-append x ys zs l) [
  | inl m ↦ inl (inr m)
  | inr m ↦ inr m
]

pub left-Listed : (x : ℕ) (ys zs : List ℕ) → Listed x ys → Listed x (ys ++ zs)
left-Listed x [] zs l = absurd l
left-Listed x (y ∷ ys) zs (inl e) = inl e
left-Listed x (y ∷ ys) zs (inr l) = inr (left-Listed x ys zs l)

pub right-Listed : (x : ℕ) (ys zs : List ℕ) → Listed x zs → Listed x (ys ++ zs)
right-Listed x [] zs l = l
right-Listed x (y ∷ ys) zs l = inr (right-Listed x ys zs l)

abbrev pub AreApart : List ℕ → List ℕ → Type 0
AreApart ys zs = (x : ℕ) → Listed x ys → Listed x zs → ⊥

pub split-AreDistinct :
    (ys zs : List ℕ) → AreDistinct (ys ++ zs) → AreDistinct ys × AreDistinct zs × AreApart ys zs
split-AreDistinct [] zs d = (tt, d, λ x l m. l)
split-AreDistinct (y ∷ ys) zs (n, d) =
    let (a, b, c) = split-AreDistinct ys zs d in
    (
      ((λ l. n (left-Listed y ys zs l)), a),
      b,
      λ x l m. elim l [
        | inl e ↦ n (right-Listed y ys zs (subst (λ w. Listed w zs) e m))
        | inr k ↦ c x k m
      ],
    )

pub join-AreDistinct :
    (ys zs : List ℕ) → AreDistinct ys → AreDistinct zs → AreApart ys zs → AreDistinct (ys ++ zs)
join-AreDistinct [] zs a b c = b
join-AreDistinct (y ∷ ys) zs (n, a) b c = (
  (λ l. elim (Listed-append y ys zs l) [ inl m ↦ n m | inr m ↦ c y (inl refl) m ]),
  join-AreDistinct ys zs a b (λ x l m. c x (inr l) m),
)
