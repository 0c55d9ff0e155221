-- ===== src/Keycodes/Inversion.antt =====
-- x11-keycodes.c: a keycode that is sent as a keysym comes back as itself.
use enthrall.Prelude.{
  Bool, true, false, Option, none, some, ◌⊎◌, leb→le, ℕ, zero, suc, ◌+◌, ◌==◌, ◌≤◌, ◌<◌, ◌≡◌, ◌≢◌,
  refl, sym, ap, ◌∙◌, subst, ltb, leb, false, List, [], ◌∷◌, length, get_or, set, replicate, arith,
  Bool-cases, inl, inr, if◌then◌else◌, ltb→lt,
}
use enthrall.Keycodes.Inverse.{place, invert_by, Takes, Right, invert_by-Right, length-invert_by}
use enthrall.Keycodes.{
  max_keycode, invert, x11_keycodes_init, keysym_to_keycode, keycode_to_xkeycode,
}

-- Some keysym has the keycode.
abbrev pub Occurs : ℕ → List ℕ → Type 0
Occurs kc [] = ⊥
Occurs kc (k ∷ rest) = (k ≡ kc) ⊎ Occurs kc rest

-- The place that the loop gives a keycode: none for ET_null.
abbrev slot : ℕ → Option ℕ
slot kc = if kc == 0 then none else some kc

place-slot :
    (b : Bool) (kc i : ℕ) (table : List ℕ)
    → (if b then table else set table kc i) ≡ place (if b then none else some kc) i table
place-slot true kc i table = refl
place-slot false kc i table = refl

invert-invert_by :
    (rest : List ℕ) (i : ℕ) (table : List ℕ) → invert rest i table ≡ invert_by slot 0 rest i table
invert-invert_by [] i table = refl
invert-invert_by (kc ∷ rest) i table =
    ap (invert rest (i + 1)) (place-slot (kc == 0) kc i table)
    ∙ invert-invert_by rest (i + 1) (place (slot kc) i table)

slot_of : (kc : ℕ) → kc ≢ 0 → slot kc ≡ some kc
slot_of kc n = rw (nonzero kc n) refl
  where
    nonzero : (kc : ℕ) → kc ≢ 0 → (kc == 0) ≡ false
    nonzero kc n = ground arith

slot_back : (kc c : ℕ) → slot kc ≡ some c → kc ≡ c
slot_back kc c e = by_zero (kc == 0) e
  where
    by_zero : (b : Bool) → (if b then none else some kc) ≡ some c → kc ≡ c
    by_zero true e = cc
    by_zero false e = cc

Occurs-Takes : (kc : ℕ) (rest : List ℕ) → kc ≢ 0 → Occurs kc rest → Takes slot 0 kc rest
Occurs-Takes kc [] n o = absurd o
Occurs-Takes kc (k ∷ rest) n (inl e) = inl (ap slot e ∙ slot_of kc n)
Occurs-Takes kc (k ∷ rest) n (inr o) = inr (Occurs-Takes kc rest n o)

max_above : (rest : List ℕ) (m : ℕ) → m ≤ max_keycode rest m
max_above [] m = omega arith
max_above (k ∷ rest) m = elim (Bool-cases (ltb m k)) [
  | inl t ↦ rw t (omega (arith, ltb→lt m k t, max_above rest k))
  | inr f ↦ rw f (max_above rest m)
]

max-Occurs : (kc : ℕ) (rest : List ℕ) (m : ℕ) → Occurs kc rest → kc ≤ max_keycode rest m
max-Occurs kc [] m o = absurd o
max-Occurs kc (k ∷ rest) m (inl e) = elim (Bool-cases (ltb m k)) [
  | inl t ↦ rw t (omega (arith, e, max_above rest k))
  | inr f ↦ rw f (omega (arith, e, not_lt m k f, max_above rest m))
]
  where
    not_lt : (m k : ℕ) → ltb m k ≡ false → k ≤ m
    not_lt m k f = ground arith
max-Occurs kc (k ∷ rest) m (inr o) = max-Occurs kc rest (if ltb m k then k else m) o

pub length-zeros : (n : ℕ) → length {A = ℕ} (replicate n 0) ≡ n
length-zeros zero = refl
length-zeros (suc n) = ap suc (length-zeros n)

pub in_bounds : (n k : ℕ) → k < n → leb n k ≡ false
in_bounds n k b = ground arith

pub get_or_beyond : (xs : List ℕ) (s : ℕ) → length xs ≤ s → get_or xs s 0 ≡ 0
get_or_beyond [] s b = refl
get_or_beyond (x ∷ xs) zero b = omega arith
get_or_beyond (x ∷ xs) (suc s) b = get_or_beyond xs s (omega arith)

pub lookup_in :
    (from : List ℕ) (s kc : ℕ)
    → get_or from s 0 ≡ kc
    → (if leb (length from) s then 0 else get_or from s 0) ≡ kc
lookup_in from s kc r = elim (Bool-cases (leb (length from) s)) [
  | inl t ↦ rw t (sym (get_or_beyond from s (leb→le _ _ t)) ∙ r)
  | inr f ↦ rw f r
]

-- A keycode that some keysym has is within the inverted table, so that `keycode_to_xkeycode` asks the X
-- server for the keysym there; and that keysym has the keycode, though it need not be the one that the
-- keycode came from.
pub keycode_returns :
    (to_xkeycode : ℕ → ℕ) (fromkeysym : List ℕ) (kc : ℕ)
    → kc ≢ 0
    → Occurs kc fromkeysym
    → (s : ℕ) × (keycode_to_xkeycode to_xkeycode (x11_keycodes_init fromkeysym) kc ≡ to_xkeycode s)
      × (keysym_to_keycode fromkeysym s ≡ kc)
unfolding x11_keycodes_init keysym_to_keycode keycode_to_xkeycode
keycode_returns to_xkeycode from kc n o =
    let zeros = replicate (max_keycode from 0 + 1) 0 in
    let b : kc < length zeros =
      omega (arith, length-zeros (max_keycode from 0 + 1), max-Occurs kc from 0 o) in
    let table = invert from 0 zeros in
    let same : table ≡ invert_by slot 0 from 0 zeros = invert-invert_by from 0 zeros in
    let r : get_or from (get_or table kc 0) 0 ≡ kc = slot_back _ kc (
      subst (λ t. Right slot 0 from kc t) (sym same)
        (invert_by-Right slot 0 from kc zeros b (Occurs-Takes kc from n o))) in
    let l : length table ≡ length zeros = ap length same ∙ length-invert_by slot 0 from 0 zeros in
    (
      get_or table kc 0,
      rw (in_bounds (length table) kc (omega (arith, b, l))) refl,
      lookup_in from (get_or table kc 0) kc r,
    )
