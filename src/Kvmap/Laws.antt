-- ===== src/Kvmap/Laws.antt =====
-- kvmap.c: what `kvmap_get` sees after `kvmap_put`, and the keys of the chain.
use enthrall.Prelude.{
  Text, str_eq, str_eq_iff, ◌≡◌, refl, false, inl, inr, none, some, [], ◌∷◌, if◌then◌else◌, arith,
  Option-cases,
}
use enthrall.Kvmap.{Kvmap, kvmap_get, kvmap_put, replace_value}

-- No entry of the chain has this key.
abbrev pub IsAbsent : Text → Kvmap → Type 0
IsAbsent key [] = Unit {0}
IsAbsent key ((k, v) ∷ rest) = (str_eq k key ≡ false) × IsAbsent key rest

-- No two entries of the chain have the same key.
abbrev pub IsDistinct : Kvmap → Type 0
IsDistinct [] = Unit {0}
IsDistinct ((k, v) ∷ rest) = IsAbsent k rest × IsDistinct rest

replace-none : (m : Kvmap) (k v : Text) → replace_value m k v ≡ none → IsAbsent k m
unfolding replace_value
replace-none [] k v e = tt
replace-none ((i, w) ∷ m) k v e = ground (arith, replace-none m k v)

replace-IsAbsent :
    (m m' : Kvmap) (k v j : Text) → replace_value m k v ≡ some m' → IsAbsent j m → IsAbsent j m'
unfolding replace_value
replace-IsAbsent [] m' k v j e a = cc
replace-IsAbsent ((i, w) ∷ m) m' k v j e a = elim (Option-cases (replace_value m k v)) [
  | inl n ↦ ground arith
  | inr (r, s) ↦ ground (arith, replace-IsAbsent m r k v j)
]

replace-IsDistinct :
    (m m' : Kvmap) (k v : Text) → replace_value m k v ≡ some m' → IsDistinct m → IsDistinct m'
unfolding replace_value
replace-IsDistinct [] m' k v e d = cc
replace-IsDistinct ((i, w) ∷ m) m' k v e d = elim (Option-cases (replace_value m k v)) [
  | inl n ↦ ground arith
  | inr (r, s) ↦ ground (arith, replace-IsDistinct m r k v, replace-IsAbsent m r k v i)
]

get-replace :
    (m m' : Kvmap) (k v j : Text)
    → replace_value m k v ≡ some m'
    → kvmap_get m' j ≡ (if str_eq k j then some v else kvmap_get m j)
unfolding replace_value kvmap_get
get-replace [] m' k v j e = cc
get-replace ((i, w) ∷ m) m' k v j e = elim (Option-cases (replace_value m k v)) [
  | inl n ↦ ground (arith, str_eq_iff i k, str_eq_iff k j, str_eq_iff i j)
  | inr (r, s) ↦
      ground (arith, str_eq_iff i k, str_eq_iff k j, str_eq_iff i j, get-replace m r k v j)
]

-- After `kvmap_put` the key has the new value, and every other key the value that it had.
pub get-put :
    (m : Kvmap) (k v j : Text)
    → kvmap_get (kvmap_put m k v) j ≡ (if str_eq k j then some v else kvmap_get m j)
unfolding kvmap_put kvmap_get
get-put m k v j = elim (Option-cases (replace_value m k v)) [
  | inl n ↦ rw (n, kvmap_put)
  | inr (r, s) ↦ rw (s, kvmap_put) (get-replace m r k v j s)
]

-- `kvmap_put` never makes a second entry for a key.
pub put-IsDistinct : (m : Kvmap) (k v : Text) → IsDistinct m → IsDistinct (kvmap_put m k v)
unfolding kvmap_put
put-IsDistinct m k v d = elim (Option-cases (replace_value m k v)) [
  | inl n ↦ rw (n, kvmap_put) (replace-none m k v n, d)
  | inr (r, s) ↦ rw (s, kvmap_put) (replace-IsDistinct m r k v s d)
]

replace-absent : (m : Kvmap) (k v : Text) → IsAbsent k m → replace_value m k v ≡ none
unfolding replace_value
replace-absent [] k v a = refl
replace-absent ((i, w) ∷ m) k v a = ground (arith, replace-absent m k v)

-- A key that is not there goes to the front of the chain.
pub put-absent : (m : Kvmap) (k v : Text) → IsAbsent k m → kvmap_put m k v ≡ (k, v) ∷ m
unfolding kvmap_put
put-absent m k v a = rw (replace-absent m k v a, kvmap_put)
