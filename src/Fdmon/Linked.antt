-- ===== src/Fdmon/Linked.antt =====
-- x11.c: what holds of the contexts between operations: the list, its links and the counts.
use enthrall.Prelude.{
  ℕ, ◌==◌, ◌≤◌, ◌<◌, ◌≡◌, ◌↔◌, refl, sym, ◌∙◌, subst, true, Option, none, some, List, Bool-cases,
  inl, inr, ==_iff,
}
use enthrall.Fdmon.{Ctx, Fds, set_at, set_if, with_prev, with_next, unlink}
use enthrall.Fdmon.Chain.{Listed, AreDistinct, still-Seg}
use enthrall.Fdmon.Unlinking.{IsChain}

-- The list is the one that the links make, each context once; just those of it are allocated.
pub record Linked (s : Fds) (xs : List ℕ) : Type 0 where
  pub chain : IsChain s xs
  pub distinct : AreDistinct xs
  pub living : (x : ℕ) → (s.alive x ≡ true) ↔ Listed x xs
  pub below : (x : ℕ) → Listed x xs → x < s.fresh

abbrev pub AreCounted : Fds → List ℕ → Type 0
AreCounted s xs = (x : ℕ) → Listed x xs → 1 ≤ (s.at x).refcount

-- And each has a reference.
pub record Inv (s : Fds) (xs : List ℕ) : Type 0 where
  pub linked : Linked s xs
  pub used : AreCounted s xs

-- An update that leaves the links alone.
abbrev pub KeepsLinks : (Ctx → Ctx) → Type 0
KeepsLinks f = (c : Ctx) → ((f c).prev ≡ c.prev) × ((f c).next ≡ c.next)

abbrev pub touch : ℕ → (Ctx → Ctx) → Fds → Fds
touch a f s = record s { at = set_at a f s.at }

pub touch-Linked :
    (a : ℕ) (f : Ctx → Ctx) (s : Fds) (xs : List ℕ)
    → KeepsLinks f
    → Linked s xs
    → Linked (touch a f s) xs
touch-Linked a f s xs k l = record {
  chain = record {
    from_head = l.chain.from_head;
    to_tail = l.chain.to_tail;
    links = still-Seg s.at (set_at a f s.at) none xs none (λ x _. same x) l.chain.links;
  };
  distinct = l.distinct;
  living = l.living;
  below = l.below;
}
  where
    same :
        (x : ℕ)
        → ((set_at a f s.at x).prev ≡ (s.at x).prev) × ((set_at a f s.at x).next ≡ (s.at x).next)
    same x = elim (Bool-cases (x == a)) [ inl t ↦ rw t (k (s.at x)) | inr e ↦ rw e (refl, refl) ]

pub touch-Inv :
    (a : ℕ) (f : Ctx → Ctx) (s : Fds) (xs : List ℕ)
    → KeepsLinks f
    → 1 ≤ (f (s.at a)).refcount
    → Inv s xs
    → Inv (touch a f s) xs
touch-Inv a f s xs k n v = record {
  linked = touch-Linked a f s xs k v.linked;
  used = λ x l. elim (Bool-cases (x == a)) [
    | inl t ↦ rw t (subst (λ y. 1 ≤ (f (s.at y)).refcount) (sym ((==_iff x a).0 t)) n)
    | inr e ↦ rw e (v.used x l)
  ];
}

-- An update that leaves a field alone.
pub keeps_field {ℓ} :
    {A : Type ℓ} (g : Ctx → A) (o : Option ℕ) (f : Ctx → Ctx)
    → ((c : Ctx) → g (f c) ≡ g c)
    → (at : ℕ → Ctx) (x : ℕ) → g (set_if o f at x) ≡ g (at x)
keeps_field g none f k at x = refl
keeps_field g (some i) f k at x = elim (Bool-cases (x == i)) [
  | inl t ↦ rw t (k (at x))
  | inr e ↦ rw e refl
]

-- Taking a context out of the list changes no field but the links.
pub unlink-keeps {ℓ} :
    {A : Type ℓ} (g : Ctx → A)
    → ((n : Option ℕ) (c : Ctx) → g (with_next n c) ≡ g c)
    → ((p : Option ℕ) (c : Ctx) → g (with_prev p c) ≡ g c)
    → (a : ℕ) (s : Fds) (x : ℕ) → g ((unlink a s).at x) ≡ g (s.at x)
unfolding unlink
unlink-keeps g k l a s x =
    keeps_field g (s.at a).prev (with_next (s.at a).next) (k (s.at a).next) _ x
    ∙ keeps_field g (s.at a).next (with_prev (s.at a).prev) (l (s.at a).prev) s.at x
