-- ===== src/Fdmon/Holding.antt =====
-- x11.c: what a callback of the loop of handle_fds may do, and what holds of its context while it runs.
use enthrall.Prelude.{
  ℕ, ◌-◌, ◌==◌, ◌≤◌, ◌≡◌, sym, ap, ◌∙◌, subst, ltb, Bool, true, false, Option, none, some, List, [],
  ◌∷◌, ◌++◌, length, ◌⊎◌, inl, inr, arith, if◌then◌else◌,
}
use enthrall.Fdmon.{
  Ctx, Fds, with_prev, with_next, unlink, with_refcount, fdmon_unref, Op, registers, unregisters,
  monitors, unmonitors, perform, Callbacks,
}
use enthrall.Fdmon.Chain.{Listed}
use enthrall.Fdmon.Linked.{Inv, unlink-keeps}

-- What a callback of the context `p` may do: it uses contexts that are there, with flags that there are,
-- and `p` it monitors or unregisters only while that is registered, which is while it has a second
-- reference.
abbrev pub IsLegal : ℕ → Fds → Op → Type 0
IsLegal p s (registers fd) = Unit {0}
IsLegal p s (unregisters a) = (s.alive a ≡ true) × (a ≡ p → 2 ≤ (s.at p).refcount)
IsLegal p s (monitors a flags) = (s.alive a ≡ true) × (flags ≤ 3) × (a ≡ p → 2 ≤ (s.at p).refcount)
IsLegal p s (unmonitors a flags) = (s.alive a ≡ true) × (flags ≤ 3)

abbrev pub AreLegal : ℕ → Fds → List Op → Type 0
AreLegal p s [] = Unit {0}
AreLegal p s (op ∷ ops) = IsLegal p s op × ((s' : Fds) → perform op s ≡ some s' → AreLegal p s' ops)

-- Callbacks all of whose steps are legal when they are called for a context that is registered.
pub record AreTame (cb : Callbacks) : Type 0 where
  pub reading :
      (p : ℕ) (s : Fds) → s.alive p ≡ true → 2 ≤ (s.at p).refcount → AreLegal p s (cb.readcb p s)
  pub writing :
      (p : ℕ) (s : Fds) → s.alive p ≡ true → 2 ≤ (s.at p).refcount → AreLegal p s (cb.writecb p s)

-- A context of the loop is registered still, or no callback of it is called any more.
abbrev pub IsHeld : Ctx → Type 0
IsHeld c = (2 ≤ c.refcount) ⊎ ((c.reads ≡ false) × (c.writes ≡ false))

pub move-IsHeld :
    (c c' : Ctx)
    → c'.refcount ≡ c.refcount
    → c'.reads ≡ c.reads
    → c'.writes ≡ c.writes
    → IsHeld c
    → IsHeld c'
move-IsHeld c c' n r w (inl two) = inl (subst (λ k. 2 ≤ k) (sym n) two)
move-IsHeld c c' n r w (inr off) = inr (r ∙ off.0, w ∙ off.1)

-- A state that an operation returns, in which `p` still stands, with no more than `n` contexts behind it.
pub record Keeps (p n : ℕ) (o : Option Fds) : Type 0 where
  pub after : Fds
  pub done : o ≡ some after
  pub before : List ℕ
  pub rest : List ℕ
  pub inv : Inv after (before ++ (p ∷ rest))
  pub shorter : length rest ≤ n
  pub held : IsHeld (after.at p)

pub split_at : (a : ℕ) (xs : List ℕ) → Listed a xs → (ys zs : List ℕ) × (xs ≡ ys ++ (a ∷ zs))
split_at a [] l = absurd l
split_at a (x ∷ xs) (inl e) = ([], xs, ap (λ y. y ∷ xs) (sym e))
split_at a (x ∷ xs) (inr l) = let (ys, zs, e) = split_at a xs l in (x ∷ ys, zs, ap (λ r. x ∷ r) e)

pub valid : (flags : ℕ) → flags ≤ 3 → ltb 3 flags ≡ false
valid flags p = ground arith

pick :
    (x y z : Bool) (u w after : Fds)
    → (if x then if y then none else if z then some u else some w else none) ≡ some after
    → (u ≡ after) ⊎ (w ≡ after)
pick false y z u w after e = absurd (cc e)
pick true true z u w after e = absurd (cc e)
pick true false true u w after e = inl (cc e)
pick true false false u w after e = inr (cc e)

-- A field that neither the links nor this count change.
pub unref_same {ℓ} :
    {A : Type ℓ} (g : Ctx → A)
    → ((n : Option ℕ) (c : Ctx) → g (with_next n c) ≡ g c)
    → ((p : Option ℕ) (c : Ctx) → g (with_prev p c) ≡ g c)
    → (a : ℕ) (s after : Fds) (x : ℕ) → ((n : ℕ) → g ((with_refcount n a s).at x) ≡ g (s.at x))
    → fdmon_unref a s ≡ some after
    → g (after.at x) ≡ g (s.at x)
unfolding fdmon_unref
unref_same g k l a s after x count e =
    let n = (s.at a).refcount in
    let s' = with_refcount (n - 1) a s in
    elim (pick (s.alive a) (n == 0) (n - 1 == 0) (unlink a s') s' after e) [
      | inl q ↦ ap (λ t. g (t.at x)) (sym q) ∙ unlink-keeps g k l a s' x ∙ count (n - 1)
      | inr q ↦ ap (λ t. g (t.at x)) (sym q) ∙ count (n - 1)
    ]
