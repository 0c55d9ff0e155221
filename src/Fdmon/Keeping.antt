-- ===== src/Fdmon/Keeping.antt =====
-- x11.c: what the callbacks that the loop of handle_fds calls leave of its list.
use enthrall.Prelude.{
  ℕ, ◌==◌, ◌≤◌, ◌≡◌, refl, sym, ap, ◌∙◌, subst, Bool, true, false, not, ◌&&◌, ◌||◌, some, List, [],
  ◌∷◌, ◌++◌, append_assoc, length, length-append, inl, inr, arith, Bool-cases, ==_iff,
}
use enthrall.Fdmon.{
  Ctx, Fds, set_at, with_prev, new_ctx, fdmon_register_fd, fdmon_unref, fdmon_monitor,
  fdmon_unmonitor, fdmon_unregister, and_then, has_read, has_write, Op, registers, unregisters,
  monitors, unmonitors, perform, perform_all, call_if,
}
use enthrall.Fdmon.Chain.{Listed, Listed-append, right-Listed, set_at_self, set_at_other}
use enthrall.Fdmon.Linked.{Inv, touch, touch-Inv, keeps_field}
use enthrall.Fdmon.Inv.{unref-Drops, register-Inv}
use enthrall.Fdmon.Holding.{
  IsLegal, AreLegal, IsHeld, move-IsHeld, Keeps, split_at, valid, unref_same,
}

module _ (p : ℕ) where
  -- A context that is not `p` does not matter to it.
  touch-IsHeld :
      (a : ℕ) (f : Ctx → Ctx) (s : Fds)
      → (p ≡ a → IsHeld (f (s.at p)))
      → IsHeld (s.at p)
      → IsHeld ((touch a f s).at p)
  touch-IsHeld a f s k h = elim (Bool-cases (p == a)) [
    | inl t ↦ rw t (k ((==_iff p a).0 t))
    | inr e ↦ rw e h
  ]

  unref-IsHeld :
      (a : ℕ) (s after : Fds)
      → (a ≡ p → ((s.at p).reads ≡ false) × ((s.at p).writes ≡ false))
      → IsHeld (s.at p)
      → fdmon_unref a s ≡ some after
      → IsHeld (after.at p)
  unref-IsHeld a s after off h e =
      let r =
        unref_same (λ c. c.reads) (λ _ c. refl) (λ _ c. refl) a s after p
          (λ n.
            keeps_field (λ c. c.reads) (some a) (λ c. record c { refcount = n }) (λ c. refl) s.at p)
          e in
      let w =
        unref_same (λ c. c.writes) (λ _ c. refl) (λ _ c. refl) a s after p
          (λ n.
            keeps_field (λ c. c.writes) (some a) (λ c. record c { refcount = n }) (λ c. refl) s.at
              p)
          e in
      elim (Bool-cases (p == a)) [
        | inl t ↦ let o = off (sym ((==_iff p a).0 t)) in inr (r ∙ o.0, w ∙ o.1)
        | inr f ↦
            let n =
              unref_same (λ c. c.refcount) (λ _ c. refl) (λ _ c. refl) a s after p (λ k. rw f refl)
                e in
            move-IsHeld (s.at p) (after.at p) n r w h
      ]

  -- The reference to `a` that registering it made is dropped.
  unref-Keeps :
      (a : ℕ) (s : Fds) (ys zs : List ℕ)
      → Inv s (ys ++ (p ∷ zs))
      → Listed a (ys ++ (p ∷ zs))
      → (a ≡ p → 2 ≤ (s.at p).refcount)
      → (a ≡ p → ((s.at p).reads ≡ false) × ((s.at p).writes ≡ false))
      → IsHeld (s.at p)
      → Keeps p (length zs) (fdmon_unref a s)
  unref-Keeps a s ys zs v l two off h = elim (Listed-append a ys (p ∷ zs) l) [
    | inl m ↦
        let (y1, y2, e) = split_at a ys m in
        let shift : ys ++ (p ∷ zs) ≡ y1 ++ (a ∷ (y2 ++ (p ∷ zs))) =
          ap (λ r. r ++ (p ∷ zs)) e ∙ append_assoc y1 (a ∷ y2) (p ∷ zs) in
        let d = unref-Drops a s y1 (y2 ++ (p ∷ zs)) (subst (Inv s) shift v) in
        elim d.rest [
          | inl (_, _, gone) ↦ record {
            after = d.after;
            done = d.done;
            before = y1 ++ y2;
            rest = zs;
            inv = subst (Inv d.after) (sym (append_assoc y1 y2 (p ∷ zs))) gone;
            shorter = omega arith;
            held = unref-IsHeld a s d.after off h d.done;
          }
          | inr (_, _, kept) ↦ record {
            after = d.after;
            done = d.done;
            before = ys;
            rest = zs;
            inv = subst (Inv d.after) (sym shift) kept;
            shorter = omega arith;
            held = unref-IsHeld a s d.after off h d.done;
          }
        ]
    | inr (inl q) ↦
        let d = unref-Drops p s ys zs v in
        let done = ap (λ x. fdmon_unref x s) q ∙ d.done in
        record {
          after = d.after;
          done = done;
          before = ys;
          rest = zs;
          inv = elim d.rest [
            | inl (one, _, gone) ↦ absurd (omega (arith, one, two q))
            | inr (_, _, kept) ↦ kept
          ];
          shorter = omega arith;
          held = unref-IsHeld a s d.after off h done;
        }
    | inr (inr m) ↦
        let (z1, z2, e) = split_at a zs m in
        let shift : ys ++ (p ∷ zs) ≡ (ys ++ (p ∷ z1)) ++ (a ∷ z2) =
          ap (λ r. ys ++ (p ∷ r)) e ∙ sym (append_assoc ys (p ∷ z1) (a ∷ z2)) in
        let d = unref-Drops a s (ys ++ (p ∷ z1)) z2 (subst (Inv s) shift v) in
        elim d.rest [
          | inl (_, _, gone) ↦ record {
            after = d.after;
            done = d.done;
            before = ys;
            rest = z1 ++ z2;
            inv = subst (Inv d.after) (append_assoc ys (p ∷ z1) z2) gone;
            shorter = omega (arith, ap length e, length-append z1 (a ∷ z2), length-append z1 z2);
            held = unref-IsHeld a s d.after off h d.done;
          }
          | inr (_, _, kept) ↦ record {
            after = d.after;
            done = d.done;
            before = ys;
            rest = zs;
            inv = subst (Inv d.after) (sym shift) kept;
            shorter = omega arith;
            held = unref-IsHeld a s d.after off h d.done;
          }
        ]
  ]

  unmonitored :
      (r w : Bool) (c : Ctx)
      → IsHeld c
      → IsHeld (record c { reads = c.reads && not r; writes = c.writes && not w })
  unmonitored r w c (inl two) = inl two
  unmonitored r w c (inr off) = inr (ap (λ b. b && not r) off.0, ap (λ b. b && not w) off.1)

  and_false : (b : Bool) → (b && false) ≡ false
  and_false true = refl
  and_false false = refl

  flags-Keeps :
      (s : Fds) (ys zs : List ℕ) (a : ℕ) (f : Ctx → Ctx)
      → Inv s (ys ++ (p ∷ zs))
      → ((c : Ctx) → ((f c).prev ≡ c.prev) × ((f c).next ≡ c.next))
      → ((c : Ctx) → (f c).refcount ≡ c.refcount)
      → Listed a (ys ++ (p ∷ zs))
      → Inv (touch a f s) (ys ++ (p ∷ zs))
  flags-Keeps s ys zs a f v k c l =
      touch-Inv a f s (ys ++ (p ∷ zs)) k (subst (λ n. 1 ≤ n) (sym (c (s.at a))) (v.used a l)) v

  op-Keeps :
      (op : Op) (s : Fds) (ys zs : List ℕ)
      → Inv s (ys ++ (p ∷ zs))
      → IsLegal p s op
      → IsHeld (s.at p)
      → Keeps p (length zs) (perform op s)
  unfolding fdmon_unregister fdmon_monitor fdmon_unmonitor fdmon_register_fd
  op-Keeps (registers fd) s ys zs v g h = record {
    after = fdmon_register_fd fd s;
    done = refl;
    before = s.fresh ∷ ys;
    rest = zs;
    inv = register-Inv fd s (ys ++ (p ∷ zs)) v;
    shorter = omega arith;
    held =
        let f = with_prev (some s.fresh) in
        let old =
          set_at_other s.fresh (λ _. new_ctx fd s.head) s.at p
            (λ q. omega (arith, q, v.linked.below p (right-Listed p ys (p ∷ zs) (inl refl)))) in
        move-IsHeld (s.at p) ((fdmon_register_fd fd s).at p)
          (keeps_field (λ c. c.refcount) s.head f (λ c. refl) _ p ∙ ap (λ c. c.refcount) old)
          (keeps_field (λ c. c.reads) s.head f (λ c. refl) _ p ∙ ap (λ c. c.reads) old)
          (keeps_field (λ c. c.writes) s.head f (λ c. refl) _ p ∙ ap (λ c. c.writes) old) h;
  }
  op-Keeps (unregisters a) s ys zs v (alive, two) h =
      let f : Ctx → Ctx = λ c. record c {
        reads = c.reads && not (has_read 3);
        writes = c.writes && not (has_write 3);
      } in
      let l = (v.linked.living a).0 alive in
      let v1 = flags-Keeps s ys zs a f v (λ c. (refl, refl)) (λ c. refl) l in
      let count = keeps_field (λ c. c.refcount) (some a) f (λ c. refl) s.at p in
      rw alive (
        unref-Keeps a (touch a f s) ys zs v1 l (λ q. subst (λ n. 2 ≤ n) (sym count) (two q))
          (λ q.
            let self = set_at_self p f s.at in
            subst (λ b. ((set_at b f s.at p).reads ≡ false) × ((set_at b f s.at p).writes ≡ false))
              (sym q)
              (
                ap (λ c. c.reads) self ∙ and_false (s.at p).reads,
                ap (λ c. c.writes) self ∙ and_false (s.at p).writes,
              ))
          (touch-IsHeld a f s (λ q. unmonitored (has_read 3) (has_write 3) (s.at p) h) h))
  op-Keeps (monitors a flags) s ys zs v (alive, few, two) h =
      let f : Ctx → Ctx =
        λ c. record c { reads = c.reads || has_read flags; writes = c.writes || has_write flags } in
      record {
        after = touch a f s;
        done = rw (alive, valid flags few) refl;
        before = ys;
        rest = zs;
        inv =
            flags-Keeps s ys zs a f v (λ c. (refl, refl)) (λ c. refl) ((v.linked.living a).0 alive);
        shorter = omega arith;
        held = touch-IsHeld a f s (λ q. inl (two (sym q))) h;
      }
  op-Keeps (unmonitors a flags) s ys zs v (alive, few) h =
      let f : Ctx → Ctx = λ c. record c {
        reads = c.reads && not (has_read flags);
        writes = c.writes && not (has_write flags);
      } in
      record {
        after = touch a f s;
        done = rw (alive, valid flags few) refl;
        before = ys;
        rest = zs;
        inv =
            flags-Keeps s ys zs a f v (λ c. (refl, refl)) (λ c. refl) ((v.linked.living a).0 alive);
        shorter = omega arith;
        held =
            touch-IsHeld a f s (λ q. unmonitored (has_read flags) (has_write flags) (s.at p) h) h;
      }

  ops-Keeps :
      (ops : List Op) (s : Fds) (ys zs : List ℕ)
      → Inv s (ys ++ (p ∷ zs))
      → AreLegal p s ops
      → IsHeld (s.at p)
      → Keeps p (length zs) (perform_all ops s)
  ops-Keeps [] s ys zs v g h = record {
    after = s;
    done = refl;
    before = ys;
    rest = zs;
    inv = v;
    shorter = omega arith;
    held = h;
  }
  ops-Keeps (op ∷ ops) s ys zs v (g, gs) h =
      let k = op-Keeps op s ys zs v g h in
      let r = ops-Keeps ops k.after k.before k.rest k.inv (gs k.after k.done) k.held in
      record {
        after = r.after;
        done = ap (λ o. and_then o (perform_all ops)) k.done ∙ r.done;
        before = r.before;
        rest = r.rest;
        inv = r.inv;
        shorter = omega (arith, r.shorter, k.shorter);
        held = r.held;
      }

  pub call-Keeps :
      (b : Bool) (ops : List Op) (s : Fds) (ys zs : List ℕ)
      → Inv s (ys ++ (p ∷ zs))
      → (b ≡ true → AreLegal p s ops)
      → IsHeld (s.at p)
      → Keeps p (length zs) (call_if b ops s)
  call-Keeps true ops s ys zs v g h = ops-Keeps ops s ys zs v (g refl) h
  call-Keeps false ops s ys zs v g h = ops-Keeps [] s ys zs v tt h
