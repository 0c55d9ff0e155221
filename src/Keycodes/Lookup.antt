-- ===== src/Keycodes/Lookup.antt =====
-- What stands in an array with designated initializers.
use enthrall.Prelude.{
  ℕ, zero, suc, ◌==◌, ◌<◌, ◌≡◌, ◌≢◌, refl, sym, ap, ◌∙◌, subst, Bool, true, false, List, [], ◌∷◌,
  length, get_or, set, replicate, get_or-set_self, get_or-set_ne, length-set, arith, Bool-cases,
  ◌⊎◌, inl, inr, ==_iff, not, ◌&&◌, and_true,
}
use enthrall.Keycodes.{array_length, store_all, designated}

module _ {A : Type 0} where
  -- The entry is among the initializers.
  abbrev pub Has : ℕ → A → List (ℕ × A) → Type 0
  Has i v [] = ⊥
  Has i v ((j, w) ∷ rest) = ((j ≡ i) × (w ≡ v)) ⊎ Has i v rest

  -- No index has two values.
  abbrev pub IsFunctional : List (ℕ × A) → Type 0
  IsFunctional entries = (i : ℕ) (v w : A) → Has i v entries → Has i w entries → v ≡ w

  set_either :
      (table : List A) (i : ℕ) (u d : A)
      → (get_or (set table i u) i d ≡ u) ⊎ (get_or (set table i u) i d ≡ get_or table i d)
  set_either [] i u d = inr refl
  set_either (x ∷ table) zero u d = inl refl
  set_either (x ∷ table) (suc i) u d = set_either table i u d

  -- What an array shows at `i`: what it showed before, or one of the entries.
  abbrev Shows : ℕ → A → List (ℕ × A) → A → Type 0
  Shows i w entries r = (r ≡ w) ⊎ ((v : A) × Has i v entries × (r ≡ v))

  pass :
      (i j : ℕ) (w u r : A) (rest : List (ℕ × A)) → Shows i w rest r → Shows i w ((j, u) ∷ rest) r
  pass i j w u r rest (inl e) = inl e
  pass i j w u r rest (inr (v, h, e)) = inr (v, inr h, e)

  stored-Shows :
      (entries : List (ℕ × A)) (table : List A) (i : ℕ) (d w : A)
      → get_or table i d ≡ w
      → Shows i w entries (get_or (store_all entries table) i d)
  stored-Shows [] table i d w e = inl e
  stored-Shows ((j, u) ∷ rest) table i d w e = elim (Bool-cases (j == i)) [
    | inl t ↦
        let q : j ≡ i = (==_iff j i).0 t in
        subst (λ k. Shows i w ((k, u) ∷ rest) (get_or (store_all rest (set table k u)) i d)) (sym q)
          (here (λ w' e'. stored-Shows rest (set table i u) i d w' e') (set_either table i u d))
    | inr f ↦
        pass i j w u _ rest
          (stored-Shows rest (set table j u) i d w (get_or-set_ne table u d (λ q. differ q f) ∙ e))
  ]
    where
      differ : j ≡ i → (j == i) ≡ false → ⊥
      differ q f = ground arith

      new : {r : A} → Shows i u rest r → Shows i w ((i, u) ∷ rest) r
      new (inl e) = inr (u, inl (refl, refl), e)
      new (inr (v, h, e)) = inr (v, inr h, e)

      here :
          ((w' : A)
            → get_or (set table i u) i d ≡ w'
            → Shows i w' rest (get_or (store_all rest (set table i u)) i d))
          → (get_or (set table i u) i d ≡ u) ⊎ (get_or (set table i u) i d ≡ get_or table i d)
          → Shows i w ((i, u) ∷ rest) (get_or (store_all rest (set table i u)) i d)
      here ih (inl k) = new (ih u k)
      here ih (inr k) = pass i i w u _ rest (ih w (k ∙ e))

  found_at :
      (entries : List (ℕ × A)) (table : List A) (i : ℕ) (d v : A)
      → i < length table
      → Has i v entries
      → (w : A) × Has i w entries × (get_or (store_all entries table) i d ≡ w)
  found_at [] table i d v b h = absurd h
  found_at ((j, u) ∷ rest) table i d v b (inl (q, e)) = by_shown (
      stored-Shows rest (set table j u) i d u
        (subst (λ k. get_or (set table k u) i d ≡ u) (sym q) (get_or-set_self table i u d b)))
    where
      by_shown :
          Shows i u rest (get_or (store_all rest (set table j u)) i d)
          → (w : A) × Has i w ((j, u) ∷ rest) × (get_or (store_all rest (set table j u)) i d ≡ w)
      by_shown (inl k) = (u, inl (q, refl), k)
      by_shown (inr (w, h, k)) = (w, inr h, k)
  found_at ((j, u) ∷ rest) table i d v b (inr h) =
      let r =
        found_at rest (set table j u) i d v (subst (λ n. i < n) (sym (length-set table j u)) b) h in
      (r.0, inr r.1, r.2)

  Has-lt : (entries : List (ℕ × A)) (i : ℕ) (v : A) → Has i v entries → i < array_length entries
  Has-lt [] i v h = absurd h
  Has-lt ((j, u) ∷ rest) i v (inl (q, e)) = omega arith
  Has-lt ((j, u) ∷ rest) i v (inr h) = omega (arith, Has-lt rest i v h)

  length-fill : (n : ℕ) (d : A) → length (replicate n d) ≡ n
  length-fill zero d = refl
  length-fill (suc n) d = ap suc (length-fill n d)

  get_or-fill : (n i : ℕ) (d : A) → get_or (replicate n d) i d ≡ d
  get_or-fill zero i d = refl
  get_or-fill (suc n) zero d = refl
  get_or-fill (suc n) (suc i) d = get_or-fill n i d

  -- An initializer whose index has no other value is what the array has there.
  pub designated-Has :
      (entries : List (ℕ × A)) (i : ℕ) (d v : A)
      → IsFunctional entries
      → Has i v entries
      → get_or (designated d entries) i d ≡ v
  unfolding designated
  designated-Has entries i d v f h =
      let n = array_length entries in
      let r =
        found_at entries (replicate n d) i d v
          (subst (λ k. i < k) (sym (length-fill n d)) (Has-lt entries i v h)) h in
      r.2 ∙ f i r.0 v r.1 h

  -- What an array has that is not its zero value is an initializer.
  pub Has-designated :
      (entries : List (ℕ × A)) (i : ℕ) (d v : A)
      → get_or (designated d entries) i d ≡ v
      → v ≢ d
      → Has i v entries
  unfolding designated
  Has-designated entries i d v e n = by_shown (
      stored-Shows entries (replicate (array_length entries) d) i d d
        (get_or-fill (array_length entries) i d))
    where
      by_shown :
          Shows i d entries (get_or (store_all entries (replicate (array_length entries) d)) i d)
          → Has i v entries
      by_shown (inl k) = absurd (n (sym e ∙ k))
      by_shown (inr (w, h, k)) = subst (λ x. Has i x entries) (sym k ∙ e) h

  abbrev pub key_absent : ℕ → List (ℕ × A) → Bool
  key_absent i [] = true
  key_absent i ((j, v) ∷ rest) = not (j == i) && key_absent i rest

  abbrev pub keys_differ : List (ℕ × A) → Bool
  keys_differ [] = true
  keys_differ ((i, v) ∷ rest) = key_absent i rest && keys_differ rest

  key_absent-Has :
      (entries : List (ℕ × A)) (i : ℕ) (v : A) → key_absent i entries ≡ true → Has i v entries → ⊥
  key_absent-Has [] i v a h = h
  key_absent-Has ((j, w) ∷ rest) i v a (inl p) = clash p.0 (and_true _ _ a).0
    where
      clash : j ≡ i → not (j == i) ≡ true → ⊥
      clash p n = ground arith
  key_absent-Has ((j, w) ∷ rest) i v a (inr h) = key_absent-Has rest i v (and_true _ _ a).1 h

  -- Initializers whose indices are checked to differ are functional.
  pub keys_differ-IsFunctional :
      (entries : List (ℕ × A)) → keys_differ entries ≡ true → IsFunctional entries
  keys_differ-IsFunctional [] d i v w h k = absurd h
  keys_differ-IsFunctional ((j, u) ∷ rest) d i v w (inl p) (inl q) = sym p.1 ∙ q.1
  keys_differ-IsFunctional ((j, u) ∷ rest) d i v w (inl p) (inr k) =
      absurd (key_absent-Has rest j w (and_true _ _ d).0 (subst (λ x. Has x w rest) (sym p.0) k))
  keys_differ-IsFunctional ((j, u) ∷ rest) d i v w (inr h) (inl q) =
      absurd (key_absent-Has rest j v (and_true _ _ d).0 (subst (λ x. Has x v rest) (sym q.0) h))
  keys_differ-IsFunctional ((j, u) ∷ rest) d i v w (inr h) (inr k) =
      keys_differ-IsFunctional rest (and_true _ _ d).1 i v w h k
