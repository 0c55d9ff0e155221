-- ===== src/Fdmon/Inv.antt =====
-- x11.c: what holds of the contexts between operations, and that references are taken and dropped
-- without harm.
use enthrall.Prelude.{
  ℕ, ◌+◌, ◌-◌, ◌==◌, ◌≤◌, ◌<◌, ◌≡◌, ◌≢◌, refl, sym, ap, ◌∙◌, subst, true, false, some, List, ◌∷◌,
  ◌++◌, Bool-cases, inl, inr, ◌⊎◌, arith, ==_iff,
}
use enthrall.Fdmon.{
  Fds, set_at, set_if, with_prev, new_ctx, fdmon_register_fd, unlink, with_refcount, fdmon_unref,
  fdmon_ref,
}
use enthrall.Fdmon.Chain.{
  Listed, AreDistinct, set_at_self, set_at_other, Listed-append, left-Listed, right-Listed,
  split-AreDistinct, join-AreDistinct,
}
use enthrall.Fdmon.Unlinking.{register-IsChain, unlink-IsChain}
use enthrall.Fdmon.Linked.{Linked, Inv, touch-Linked, touch-Inv, keeps_field, unlink-keeps}

out_of_rest : (a : ℕ) (ys zs : List ℕ) → AreDistinct (ys ++ (a ∷ zs)) → Listed a (ys ++ zs) → ⊥
out_of_rest a ys zs d l =
    let (_, da, apart) = split-AreDistinct ys (a ∷ zs) d in
    elim (Listed-append a ys zs l) [ inl m ↦ apart a m (inl refl) | inr m ↦ da.0 m ]

pub widen-Listed : (x a : ℕ) (ys zs : List ℕ) → Listed x (ys ++ zs) → Listed x (ys ++ (a ∷ zs))
widen-Listed x a ys zs l = elim (Listed-append x ys zs l) [
  | inl m ↦ left-Listed x ys (a ∷ zs) m
  | inr m ↦ right-Listed x ys (a ∷ zs) (inr m)
]

narrow-Listed : (x a : ℕ) (ys zs : List ℕ) → x ≢ a → Listed x (ys ++ (a ∷ zs)) → Listed x (ys ++ zs)
narrow-Listed x a ys zs n l = elim (Listed-append x ys (a ∷ zs) l) [
  | inl m ↦ left-Listed x ys zs m
  | inr (inl e) ↦ absurd (n e)
  | inr (inr m) ↦ right-Listed x ys zs m
]

unlink-Linked :
    (a : ℕ) (s : Fds) (ys zs : List ℕ) → Linked s (ys ++ (a ∷ zs)) → Linked (unlink a s) (ys ++ zs)
unfolding unlink
unlink-Linked a s ys zs l = record {
  chain = unlink-IsChain a s ys zs l.distinct l.chain;
  distinct =
      let (dy, da, apart) = split-AreDistinct ys (a ∷ zs) l.distinct in
      join-AreDistinct ys zs dy da.1 (λ x p q. apart x p (inr q));
  living = λ x. elim (Bool-cases (x == a)) [
    | inl t ↦ rw t (
      λ f. absurd (cc f),
      λ m.
          absurd (
            out_of_rest a ys zs l.distinct (subst (λ y. Listed y (ys ++ zs)) ((==_iff x a).0 t) m)),
    )
    | inr e ↦ rw e (
      λ v. narrow-Listed x a ys zs (differ x e) ((l.living x).0 v),
      λ m. (l.living x).1 (widen-Listed x a ys zs m),
    )
  ];
  below = λ x m. l.below x (widen-Listed x a ys zs m);
}
  where
    differ : (x : ℕ) → (x == a) ≡ false → x ≢ a
    differ x e q = cc ((==_iff x a).1 q, e)

-- What a context loses with a reference: the last one takes it out of the list and frees it, any other
-- is counted off and changes nothing else of the list.
pub record Drops (a : ℕ) (s : Fds) (ys zs : List ℕ) : Type 0 where
  pub after : Fds
  pub done : fdmon_unref a s ≡ some after
  pub rest :
      (((s.at a).refcount ≡ 1) × (after.alive a ≡ false) × Inv after (ys ++ zs))
      ⊎ ((2 ≤ (s.at a).refcount)
          × ((after.at a).refcount + 1 ≡ (s.at a).refcount)
          × Inv after (ys ++ (a ∷ zs)))

-- `fdmon_unref` of a context of a sound list returns: with the last reference it takes the context out of
-- the list, wherever it stands, and frees it, and otherwise it takes one from the count and leaves the
-- list; the two ends and all the links are again those of the list, and each context of it has a
-- reference.
pub unref-Drops : (a : ℕ) (s : Fds) (ys zs : List ℕ) → Inv s (ys ++ (a ∷ zs)) → Drops a s ys zs
unfolding fdmon_unref unlink
unref-Drops a s ys zs v =
    let here = right-Listed a ys (a ∷ zs) (inl refl) in
    let n = (s.at a).refcount in
    let alive = (v.linked.living a).1 here in
    let some_left : (n == 0) ≡ false = positive n (v.used a here) in
    let set_self = set_at_self a (λ c. record c { refcount = n - 1 }) s.at in
    elim (Bool-cases (n - 1 == 0)) [
      | inl z ↦
          let s' = with_refcount (n - 1) a s in
          let l =
            touch-Linked a (λ c. record c { refcount = n - 1 }) s (ys ++ (a ∷ zs))
              (λ c. (refl, refl)) v.linked in
          let gone : Inv (unlink a s') (ys ++ zs) = record {
            linked = unlink-Linked a s' ys zs l;
            used = λ x m.
                subst (λ k. 1 ≤ k)
                  (sym
                    (unlink-keeps (λ c. c.refcount) (λ _ c. refl) (λ _ c. refl) a s' x ∙ other x m))
                  (v.used x (widen-Listed x a ys zs m));
          } in
          record {
            after = unlink a s';
            done = rw (alive, some_left, z) refl;
            rest = inl (last_one n (v.used a here) z, rw ((==_iff a a).1 refl) refl, gone);
          }
      | inr e ↦
          let kept : Inv (with_refcount (n - 1) a s) (ys ++ (a ∷ zs)) =
            touch-Inv a (λ c. record c { refcount = n - 1 }) s (ys ++ (a ∷ zs)) (λ c. (refl, refl))
              (more n e) v in
          record {
            after = with_refcount (n - 1) a s;
            done = rw (alive, some_left, e) refl;
            rest = inr (two n e, ap (λ c. c.refcount + 1) set_self ∙ back n e, kept);
          }
    ]
  where
    other :
        (x : ℕ)
        → Listed x (ys ++ zs)
        → ((with_refcount ((s.at a).refcount - 1) a s).at x).refcount ≡ (s.at x).refcount
    other x m =
        ap (λ c. c.refcount)
          (set_at_other a (λ c. record c { refcount = (s.at a).refcount - 1 }) s.at x
            (λ q. out_of_rest a ys zs v.linked.distinct (subst (λ y. Listed y (ys ++ zs)) q m)))

    positive : (n : ℕ) → 1 ≤ n → (n == 0) ≡ false
    positive n p = ground arith

    last_one : (n : ℕ) → 1 ≤ n → (n - 1 == 0) ≡ true → n ≡ 1
    last_one n p z = ground arith

    two : (n : ℕ) → (n - 1 == 0) ≡ false → 2 ≤ n
    two n e = ground arith

    back : (n : ℕ) → (n - 1 == 0) ≡ false → n - 1 + 1 ≡ n
    back n e = ground arith

    more : (n : ℕ) → (n - 1 == 0) ≡ false → 1 ≤ n - 1
    more n e = ground arith

-- A context that is taken hold of has two references at least.
pub ref-Inv :
    (a : ℕ) (s : Fds) (xs : List ℕ)
    → Listed a xs
    → Inv s xs
    → (s' : Fds) × (fdmon_ref a s ≡ some s') × Inv s' xs × (2 ≤ (s'.at a).refcount)
unfolding fdmon_ref
ref-Inv a s xs l v =
    let n = (s.at a).refcount in
    let alive = (v.linked.living a).1 l in
    let some_left : (n == 0) ≡ false = positive n (v.used a l) in
    (
      with_refcount (n + 1) a s,
      rw (alive, some_left) refl,
      touch-Inv a (λ c. record c { refcount = n + 1 }) s xs (λ c. (refl, refl)) (omega arith) v,
      subst (λ k. 2 ≤ k)
          (sym (ap (λ c. c.refcount) (set_at_self a (λ c. record c { refcount = n + 1 }) s.at)))
          (omega (arith, v.used a l)),
    )
  where
    positive : (n : ℕ) → 1 ≤ n → (n == 0) ≡ false
    positive n p = ground arith

pub register-Inv :
    (fd : ℕ) (s : Fds) (xs : List ℕ) → Inv s xs → Inv (fdmon_register_fd fd s) (s.fresh ∷ xs)
unfolding fdmon_register_fd
register-Inv fd s xs v =
    let l = v.linked in
    let new : Listed s.fresh xs → ⊥ = λ m. irreflexive s.fresh (l.below s.fresh m) in
    record {
      linked = record {
        chain = register-IsChain fd s xs new l.distinct l.chain;
        distinct = (new, l.distinct);
        living = λ x. elim (Bool-cases (x == s.fresh)) [
          | inl t ↦ rw t (λ _. inl ((==_iff x s.fresh).0 t), λ _. refl)
          | inr e ↦ rw e (
            λ a. inr ((l.living x).0 a),
            λ m. elim m [
              | inl q ↦ absurd (cc ((==_iff x s.fresh).1 q, e))
              | inr k ↦ (l.living x).1 k
            ],
          )
        ];
        below = λ x m. elim m [ inl q ↦ omega (arith, q) | inr k ↦ omega (arith, l.below x k) ];
      };
      used = λ x m. elim (Bool-cases (x == s.fresh)) [
        | inl t ↦ counts x (rw t (omega arith))
        | inr e ↦ elim m [
          | inl q ↦ absurd (cc ((==_iff x s.fresh).1 q, e))
          | inr k ↦ counts x (rw e (v.used x k))
        ]
      ];
    }
  where
    irreflexive : (n : ℕ) → n < n → ⊥
    irreflexive n p = omega arith

    counts :
        (x : ℕ)
        → 1 ≤ (set_at s.fresh (λ _. new_ctx fd s.head) s.at x).refcount
        → 1
          ≤ (set_if s.head
              (with_prev (some s.fresh))
              (set_at s.fresh (λ _. new_ctx fd s.head) s.at)
              x).refcount
    counts x p =
        subst (λ k. 1 ≤ k)
          (sym (
            keeps_field (λ c. c.refcount) s.head (with_prev (some s.fresh)) (λ c. refl)
              (set_at s.fresh (λ _. new_ctx fd s.head) s.at) x))
          p
