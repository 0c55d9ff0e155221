-- ===== src/Keycodes/Inverse.antt =====
-- A table is inverted: the entry that stands at `i` is to be found from its slot, where it has one.
use enthrall.Prelude.{
  ℕ, suc, ◌+◌, ◌==◌, ◌<◌, ◌≡◌, refl, sym, ap, ◌∙◌, subst, false, Option, none, some, List, [], ◌∷◌,
  length, get_or, set, get_or-set_self, get_or-set_ne, length-set, arith, Bool-cases, ◌⊎◌, inl, inr,
  ==_iff,
}

abbrev pub place : Option ℕ → ℕ → List ℕ → List ℕ
place none i table = table
place (some c) i table = set table c i

length-place : (o : Option ℕ) (i : ℕ) (table : List ℕ) → length (place o i table) ≡ length table
length-place none i table = refl
length-place (some c) i table = length-set table c i

module _ {A : Type 0} (slot : A → Option ℕ) (zero_value : A) where
  abbrev pub invert_by : List A → ℕ → List ℕ → List ℕ
  invert_by [] i table = table
  invert_by (x ∷ rest) i table = invert_by rest (i + 1) (place (slot x) i table)

  -- Some entry has the slot.
  abbrev pub Takes : ℕ → List A → Type 0
  Takes c [] = ⊥
  Takes c (x ∷ rest) = (slot x ≡ some c) ⊎ Takes c rest

  -- `rest` is what stands in `from` from `i` on.
  abbrev At : List A → ℕ → List A → Type 0
  At from i [] = Unit {0}
  At from i (x ∷ rest) = (get_or from i zero_value ≡ x) × At from (i + 1) rest

  shift-At :
      (y : A) (from : List A) (i : ℕ) (rest : List A) → At from i rest → At (y ∷ from) (suc i) rest
  shift-At y from i [] a = tt
  shift-At y from i (x ∷ rest) a =
      (a.0, subst (λ n. At (y ∷ from) n rest) (omega arith) (shift-At y from (i + 1) rest a.1))

  whole-At : (from : List A) → At from 0 from
  whole-At [] = tt
  whole-At (x ∷ from) = (refl, shift-At x from 0 from (whole-At from))

  -- What the inverted table has for `c` is the index of an entry with that slot.
  abbrev pub Right : List A → ℕ → List ℕ → Type 0
  Right from c table = slot (get_or from (get_or table c 0) zero_value) ≡ some c

  place_here :
      (from : List A) (i c : ℕ) (table : List ℕ)
      → c < length table
      → slot (get_or from i zero_value) ≡ some c
      → Right from c (set table c i)
  place_here from i c table b e = rw (get_or-set_self table c i 0 b) e

  place-Right :
      (from : List A) (o : Option ℕ) (i c : ℕ) (table : List ℕ)
      → c < length table
      → slot (get_or from i zero_value) ≡ o
      → Right from c table
      → Right from c (place o i table)
  place-Right from none i c table b e r = r
  place-Right from (some k) i c table b e r = elim (Bool-cases (k == c)) [
    | inl t ↦
        let q : k ≡ c = (==_iff k c).0 t in
        subst (λ n. Right from n (set table k i)) q
          (place_here from i k table (subst (λ n. n < length table) (sym q) b) e)
    | inr f ↦ rw (get_or-set_ne table i 0 (λ q. differ q f)) r
  ]
    where
      differ : k ≡ c → (k == c) ≡ false → ⊥
      differ q f = ground arith

  still-Right :
      (from : List A) (c : ℕ) (rest : List A) (i : ℕ) (table : List ℕ)
      → c < length table
      → At from i rest
      → Right from c table
      → Right from c (invert_by rest i table)
  still-Right from c [] i table b a r = r
  still-Right from c (x ∷ rest) i table b a r =
      still-Right from c rest (i + 1) (place (slot x) i table)
        (subst (λ n. c < n) (sym (length-place (slot x) i table)) b) a.1
        (place-Right from (slot x) i c table b (ap slot a.0) r)

  taken-Right :
      (from : List A) (c : ℕ) (rest : List A) (i : ℕ) (table : List ℕ)
      → c < length table
      → At from i rest
      → Takes c rest
      → Right from c (invert_by rest i table)
  taken-Right from c [] i table b a o = absurd o
  taken-Right from c (x ∷ rest) i table b a (inl e) =
      still-Right from c rest (i + 1) (place (slot x) i table)
        (subst (λ n. c < n) (sym (length-place (slot x) i table)) b) a.1
        (subst (λ o. Right from c (place o i table)) (sym e)
          (place_here from i c table b (ap slot a.0 ∙ e)))
  taken-Right from c (x ∷ rest) i table b a (inr o) =
      taken-Right from c rest (i + 1) (place (slot x) i table)
        (subst (λ n. c < n) (sym (length-place (slot x) i table)) b) a.1 o

  pub length-invert_by :
      (rest : List A) (i : ℕ) (table : List ℕ) → length (invert_by rest i table) ≡ length table
  length-invert_by [] i table = refl
  length-invert_by (x ∷ rest) i table =
      length-invert_by rest (i + 1) (place (slot x) i table) ∙ length-place (slot x) i table

  -- Every slot that some entry has, and that the new table is long enough for, leads back to it.
  pub invert_by-Right :
      (from : List A) (c : ℕ) (table : List ℕ)
      → c < length table
      → Takes c from
      → Right from c (invert_by from 0 table)
  invert_by-Right from c table b o = taken-Right from c from 0 table b (whole-At from) o
