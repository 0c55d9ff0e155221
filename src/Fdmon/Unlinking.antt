-- ===== src/Fdmon/Unlinking.antt =====
-- x11.c: fdmon_register_fd puts a context at the head of the list, and the end of fdmon_unref takes one out
-- of it, wherever it stands.
use enthrall.Prelude.{
  ℕ, ◌≡◌, refl, sym, ap, ◌∙◌, subst, true, Option, none, some, is_some, List, [], ◌∷◌, ◌++◌, inl,
  inr, if◌then◌else◌,
}
use enthrall.Fdmon.{
  Ctx, Fds, set_at, set_if, with_prev, with_next, new_ctx, fdmon_register_fd, unlink,
}
use enthrall.Fdmon.Chain.{
  first, last, Seg, Listed, AreDistinct, last-append, join-Seg, split-Seg, beside-Seg, IsIn,
  last-IsIn, aim_next-Seg, aim_prev-Seg, split-AreDistinct, AreApart, set_at_self, set_at_other,
}

-- The two ends and the links are those of this list.
pub record IsChain (s : Fds) (xs : List ℕ) : Type 0 where
  pub from_head : s.head ≡ first xs none
  pub to_tail : s.tail ≡ last none xs
  pub links : Seg s.at none xs none

some_last : (x : ℕ) (xs : List ℕ) → is_some (last (some x) xs) ≡ true
some_last x [] = refl
some_last x (w ∷ xs) = some_last w xs

pub register-IsChain :
    (fd : ℕ) (s : Fds) (xs : List ℕ)
    → (Listed s.fresh xs → ⊥)
    → AreDistinct xs
    → IsChain s xs
    → IsChain (fdmon_register_fd fd s) (s.fresh ∷ xs)
unfolding fdmon_register_fd
register-IsChain fd s [] n d c = record {
  from_head = refl;
  to_tail = rw c.to_tail refl;
  links =
      let me = set_at_self s.fresh (λ _. new_ctx fd none) s.at in
      subst
        (λ h.
          Seg (set_if h (with_prev (some s.fresh)) (set_at s.fresh (λ _. new_ctx fd h) s.at)) none
            (s.fresh ∷ []) none)
        (sym c.from_head) (ap (λ k. k.prev) me, ap (λ k. k.next) me, tt);
}
register-IsChain fd s (x ∷ xs) n d c = record {
  from_head = refl;
  to_tail = rw (c.to_tail, some_last x xs) refl;
  links =
      let new : Ctx → Ctx = λ _. new_ctx fd (some x) in
      let at1 = set_at s.fresh new s.at in
      let me =
        set_at_other x (with_prev (some s.fresh)) at1 s.fresh (λ q. n (inl q))
        ∙ set_at_self s.fresh new s.at in
      subst
        (λ h.
          Seg (set_if h (with_prev (some s.fresh)) (set_at s.fresh (λ _. new_ctx fd h) s.at)) none
            (s.fresh ∷ x ∷ xs) none)
        (sym c.from_head)
        (
          ap (λ k. k.prev) me,
          ap (λ k. k.next) me,
          aim_prev-Seg at1 none (some s.fresh) x xs none d.0
              (beside-Seg s.fresh new s.at none (x ∷ xs) none n c.links),
        );
}

module _ (a : ℕ) (s : Fds) where
  -- The links of what stands before and behind the one that is taken out.
  unlinked-Seg :
      (ys zs : List ℕ)
      → AreDistinct ys
      → AreDistinct zs
      → AreApart ys zs
      → Seg s.at none ys (some a)
      → Seg s.at (some a) zs none
      → Seg
          (set_if
            (last none ys)
            (with_next (first zs none))
            (set_if (first zs none) (with_prev (last none ys)) s.at))
          none
          (ys ++ zs)
          none
  unlinked-Seg [] [] dy dz ap g h = tt
  unlinked-Seg [] (z ∷ zs) dy dz ap g h = aim_prev-Seg s.at (some a) none z zs none dz.0 h
  unlinked-Seg (y ∷ ys) [] dy dz ap g h =
      join-Seg (set_if (last none (y ∷ ys)) (with_next none) s.at) none (y ∷ ys) [] none
        (aim_next-Seg s.at none y ys (some a) none dy g) tt
  unlinked-Seg (y ∷ ys) (z ∷ zs) dy dz ap g h =
      let end = last none (y ∷ ys) in
      let at1 = set_at z (with_prev end) s.at in
      join-Seg (set_if end (with_next (some z)) at1) none (y ∷ ys) (z ∷ zs) none
        (aim_next-Seg at1 none y ys (some a) (some z) dy
          (beside-Seg z (with_prev end) s.at none (y ∷ ys) (some a) (λ l. ap z l (inl refl)) g))
        (beside_end end (last-IsIn y ys) at1 (aim_prev-Seg s.at (some a) end z zs none dz.0 h))
    where
      beside_end :
          (o : Option ℕ)
          → IsIn o (y ∷ ys)
          → (at : ℕ → Ctx) → Seg at (last none (y ∷ ys)) (z ∷ zs) none
          → Seg (set_if o (with_next (some z)) at) (last none (y ∷ ys)) (z ∷ zs) none
      beside_end none i at k = absurd i
      beside_end (some w) i at k =
          beside-Seg w (with_next (some z)) at (last none (y ∷ ys)) (z ∷ zs) none (λ l. ap w i l) k

  new_head :
      (ys zs : List ℕ)
      → s.head ≡ first (ys ++ (a ∷ zs)) none
      → (if is_some (last none ys) then s.head else first zs none) ≡ first (ys ++ zs) none
  new_head [] zs e = refl
  new_head (y ∷ ys) zs e = rw (some_last y ys) e

  new_tail :
      (ys zs : List ℕ)
      → s.tail ≡ last none (ys ++ (a ∷ zs))
      → (if is_some (first zs none) then s.tail else last none ys) ≡ last none (ys ++ zs)
  new_tail ys [] e = sym (last-append none ys [])
  new_tail ys (z ∷ zs) e = e ∙ last-append none ys (a ∷ z ∷ zs) ∙ sym (last-append none ys (z ∷ zs))

  pub unlink-IsChain :
      (ys zs : List ℕ)
      → AreDistinct (ys ++ (a ∷ zs))
      → IsChain s (ys ++ (a ∷ zs))
      → IsChain (unlink a s) (ys ++ zs)
  unfolding unlink
  unlink-IsChain ys zs d c =
      let (dy, daz, apart) = split-AreDistinct ys (a ∷ zs) d in
      let (g, (p, n, h)) = split-Seg s.at none ys (a ∷ zs) none c.links in
      rw (p, n)
        (record {
          from_head = new_head ys zs c.from_head;
          to_tail = new_tail ys zs c.to_tail;
          links = unlinked-Seg ys zs dy daz.1 (λ x l m. apart x l (inr m)) g h;
        })
