-- ===== src/OsxKeycodes/Physical.antt =====
-- osx-keycodes.c: a key that is translated and back is the same key.
use enthrall.Prelude.{
  ℕ, zero, suc, ◌+◌, ◌-◌, ◌==◌, ◌≤◌, ◌<◌, ◌≡◌, refl, sym, ap, ◌∙◌, subst, ltb, leb, Bool, true,
  false, ◌||◌, Option, none, some, List, [], ◌∷◌, length, get_or, set, replicate, arith, Bool-cases,
  inl, inr, if◌then◌else◌, leb→le, ltb→lt,
}
use enthrall.Keycodes.Inverse.{place, invert_by, Takes, Right, invert_by-Right, length-invert_by}
use enthrall.Keycodes.Inversion.{in_bounds, length-zeros}
use enthrall.OsxKeycodes.{
  max_cgkeycode, invert, osx_keycodes_init, etkeycode_to_cgkeycode, cgkeycode_to_etkeycode,
}
use enthrall.OsxKeycodes.Table.{Entry, unmapped}

-- The place that the loop gives an entry.
abbrev pub slot : Entry → Option ℕ
slot e = if e.kc == 0 || e.nobackmap then none else some (e.kc - 1)

place-slot :
    (b : Bool) (c i : ℕ) (table : List ℕ)
    → (if b then table else set table c i) ≡ place (if b then none else some c) i table
place-slot true c i table = refl
place-slot false c i table = refl

invert-invert_by :
    (rest : List Entry) (i : ℕ) (table : List ℕ)
    → invert rest i table ≡ invert_by slot unmapped rest i table
invert-invert_by [] i table = refl
invert-invert_by (e ∷ rest) i table =
    ap (invert rest (i + 1)) (place-slot (e.kc == 0 || e.nobackmap) (e.kc - 1) i table)
    ∙ invert-invert_by rest (i + 1) (place (slot e) i table)

slot_back : (e : Entry) (c : ℕ) → slot e ≡ some c → ((e.kc == 0) ≡ false) × (e.kc - 1 ≡ c)
slot_back e c s = by_tests (e.kc == 0) e.nobackmap s
  where
    by_tests :
        (a b : Bool)
        → (if a || b then none else some (e.kc - 1)) ≡ some c
        → (a ≡ false) × (e.kc - 1 ≡ c)
    by_tests true b s = cc
    by_tests false true s = cc
    by_tests false false s = (refl, cc)

max_above : (rest : List Entry) (m : ℕ) → m ≤ max_cgkeycode rest m
max_above [] m = omega arith
max_above (e ∷ rest) m = elim (Bool-cases (e.kc == 0)) [
  | inl z ↦ rw z (max_above rest m)
  | inr z ↦ elim (Bool-cases (ltb m (e.kc - 1))) [
    | inl t ↦ rw (z, t) (omega (arith, ltb→lt m (e.kc - 1) t, max_above rest (e.kc - 1)))
    | inr f ↦ rw (z, f) (max_above rest m)
  ]
]

max-Takes :
    (c : ℕ) (rest : List Entry) (m : ℕ) → Takes slot unmapped c rest → c ≤ max_cgkeycode rest m
max-Takes c [] m o = absurd o
max-Takes c (e ∷ rest) m (inr o) =
    max-Takes c rest (if e.kc == 0 then m else if ltb m (e.kc - 1) then e.kc - 1 else m) o
max-Takes c (e ∷ rest) m (inl s) =
    let (z, q) = slot_back e c s in
    elim (Bool-cases (ltb m (e.kc - 1))) [
      | inl t ↦ rw (z, t) (omega (arith, q, max_above rest (e.kc - 1)))
      | inr f ↦ rw (z, f) (omega (arith, q, not_lt m (e.kc - 1) f, max_above rest m))
    ]
  where
    not_lt : (m k : ℕ) → ltb m k ≡ false → k ≤ m
    not_lt m k f = ground arith

get_or_out : (t : List Entry) (k : ℕ) → length t ≤ k → get_or t k unmapped ≡ unmapped
get_or_out [] k b = refl
get_or_out (x ∷ t) zero b = absurd (omega arith)
get_or_out (x ∷ t) (suc k) b = get_or_out t k (omega arith)

-- What an entry that is mapped translates to.
to_entry :
    (t : List Entry) (k : ℕ)
    → ((get_or t k unmapped).kc == 0) ≡ false
    → etkeycode_to_cgkeycode t k ≡ (get_or t k unmapped).kc - 1
unfolding etkeycode_to_cgkeycode
to_entry t k z = elim (Bool-cases (leb (length t) k)) [
  | inl b ↦ absurd (empty (get_or_out t k (leb→le _ _ b)))
  | inr b ↦ rw (b, z) refl
]
  where
    empty : get_or t k unmapped ≡ unmapped → ⊥
    empty q = cc (ap (λ (e : Entry). e.kc == 0) q, z)

-- Whatever the table is: a code that some entry maps back is translated to a keycode that is translated
-- to the code.
pub cgkeycode_returns :
    (t : List Entry) (c : ℕ)
    → Takes slot unmapped c t
    → etkeycode_to_cgkeycode t (cgkeycode_to_etkeycode (osx_keycodes_init t) c) ≡ c
unfolding osx_keycodes_init cgkeycode_to_etkeycode
cgkeycode_returns t c o =
    let zeros = replicate (max_cgkeycode t 0 + 1) 0 in
    let b : c < length zeros =
      omega (arith, length-zeros (max_cgkeycode t 0 + 1), max-Takes c t 0 o) in
    let table = invert t 0 zeros in
    let same : table ≡ invert_by slot unmapped t 0 zeros = invert-invert_by t 0 zeros in
    let r : slot (get_or t (get_or table c 0) unmapped) ≡ some c =
      subst (λ x. Right slot unmapped t c x) (sym same)
        (invert_by-Right slot unmapped t c zeros b o) in
    let l : length table ≡ length zeros =
      ap length same ∙ length-invert_by slot unmapped t 0 zeros in
    let (z, q) = slot_back (get_or t (get_or table c 0) unmapped) c r in
    rw (in_bounds (length table) c (omega (arith, b, l))) (to_entry t (get_or table c 0) z ∙ q)
