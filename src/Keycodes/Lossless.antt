-- ===== src/Keycodes/Lossless.antt =====
-- x11-keycodes.c: no keysym of the table is lost.
use enthrall.Prelude.{
  ℕ, zero, suc, ◌==◌, ◌≡◌, ◌≢◌, refl, sym, ap, ◌∙◌, Text, Bool, true, not, ◌&&◌, List, [], ◌∷◌, map,
  length, get_or, arith, Bool-cases, inl, inr, leb, leb→le, and_true,
}
use enthrall.Keycodes.{x11_keycodes_init, keysym_to_keycode, keycode_to_xkeycode}
use enthrall.Keycodes.Codes.{keycode_value}
use enthrall.Keycodes.Inversion.{Occurs, keycode_returns, lookup_in, get_or_beyond}
use enthrall.Keycodes.Lookup.{Has, IsFunctional, designated-Has, Has-designated}
use enthrall.Keycodes.Table.{Row, keysym_rows, basic_fromkeysym}

abbrev absent : ℕ → List Row → Bool
absent v [] = true
absent v (r ∷ rest) = not (keycode_value r.key == v) && absent v rest

-- No two rows have one keycode, and none has ET_null.
abbrev differ : List Row → Bool
differ [] = true
differ (r ∷ rest) =
    not (keycode_value r.key == 0) && absent (keycode_value r.key) rest && differ rest

rows_differ : differ keysym_rows ≡ true
rows_differ = refl

module _ (xk : Text → ℕ) where
  abbrev pub entries_of : List Row → List (ℕ × ℕ)
  entries_of rows = map (λ r. (xk r.keysym, keycode_value r.key)) rows

  absent-Has :
      (rows : List Row) (v i w : ℕ) → absent v rows ≡ true → Has i w (entries_of rows) → v ≢ w
  absent-Has [] v i w a h e = absurd h
  absent-Has (r ∷ rest) v i w a (inl (q, k)) e =
      clash (keycode_value r.key) (k ∙ sym e) (and_true _ _ a).0
    where
      clash : (c : ℕ) → c ≡ v → not (c == v) ≡ true → ⊥
      clash c p n = ground arith
  absent-Has (r ∷ rest) v i w a (inr h) e = absent-Has rest v i w (and_true _ _ a).1 h e

  differ_unique :
      (rows : List Row) (i j v : ℕ)
      → differ rows ≡ true
      → Has i v (entries_of rows)
      → Has j v (entries_of rows)
      → i ≡ j
  differ_unique [] i j v d h k = absurd h
  differ_unique (r ∷ rest) i j v d (inl p) (inl q) = sym p.0 ∙ q.0
  differ_unique (r ∷ rest) i j v d (inl p) (inr q) =
      absurd (absent-Has rest (keycode_value r.key) j v (and_true _ _ (and_true _ _ d).0).1 q p.1)
  differ_unique (r ∷ rest) i j v d (inr p) (inl q) =
      absurd (absent-Has rest (keycode_value r.key) i v (and_true _ _ (and_true _ _ d).0).1 p q.1)
  differ_unique (r ∷ rest) i j v d (inr p) (inr q) = differ_unique rest i j v (and_true _ _ d).1 p q

  differ_nonzero :
      (rows : List Row) (i v : ℕ) → differ rows ≡ true → Has i v (entries_of rows) → v ≢ 0
  differ_nonzero [] i v d h e = absurd h
  differ_nonzero (r ∷ rest) i v d (inl p) e =
      clash (keycode_value r.key) (p.1 ∙ e) (and_true _ _ (and_true _ _ d).0).0
    where
      clash : (c : ℕ) → c ≡ 0 → not (c == 0) ≡ true → ⊥
      clash c p n = ground arith
  differ_nonzero (r ∷ rest) i v d (inr h) e = differ_nonzero rest i v (and_true _ _ d).1 h e

  get_or-Occurs : (from : List ℕ) (i v : ℕ) → get_or from i 0 ≡ v → v ≢ 0 → Occurs v from
  get_or-Occurs [] i v e n = absurd (n (sym e))
  get_or-Occurs (x ∷ from) zero v e n = inl e
  get_or-Occurs (x ∷ from) (suc i) v e n = inr (get_or-Occurs from i v e n)

  -- The value of the table at a keysym that is out of it is 0, as is what `keysym_to_keycode` returns.
  lookup_table : (from : List ℕ) (s v : ℕ) → keysym_to_keycode from s ≡ v → get_or from s 0 ≡ v
  unfolding keysym_to_keycode
  lookup_table from s v e = elim (Bool-cases (leb (length from) s)) [
    | inl t ↦ get_or_beyond from s (leb→le _ _ t) ∙ (rw t at e)
    | inr f ↦ rw f at e
  ]

  -- Where no two rows of the table have one keysym, the keysym of every row is translated to the row's
  -- keycode, and the keycode back to the X key code of that very keysym.
  pub keysym_returns :
      (to_xkeycode : ℕ → ℕ) (i v : ℕ)
      → IsFunctional (entries_of keysym_rows)
      → Has i v (entries_of keysym_rows)
      → (keysym_to_keycode (basic_fromkeysym xk) i ≡ v)
        × (keycode_to_xkeycode to_xkeycode (x11_keycodes_init (basic_fromkeysym xk)) v
            ≡ to_xkeycode i)
  unfolding basic_fromkeysym keysym_to_keycode
  keysym_returns to_xkeycode i v f h =
      let entries = entries_of keysym_rows in
      let from = basic_fromkeysym xk in
      let e : get_or from i 0 ≡ v = designated-Has entries i 0 v f h in
      let n = differ_nonzero keysym_rows i v rows_differ h in
      let (s, sent, back) = keycode_returns to_xkeycode from v n (get_or-Occurs from i v e n) in
      let same : s ≡ i =
        differ_unique keysym_rows s i v rows_differ
          (Has-designated entries s 0 v (lookup_table from s v back) n) h in
      (lookup_in from i v e, sent ∙ ap to_xkeycode same)
