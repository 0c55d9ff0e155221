-- ===== src/Kvmap/Flatten.antt =====
-- misc.c: `flatten_kvmap` and `unflatten_kvmap`, by which the parameters of a remote travel.
use enthrall.Prelude.{
  Text, str_eq_iff, ◌≡◌, refl, sym, Option, none, some, List, [], ◌∷◌, ◌++◌, append-nil,
  append_assoc, arith,
}
use enthrall.Kvmap.{
  Kvmap, Kvent, kvmap_get, kvmap_put, kvmap_foreach, flattencb, flatten_kvmap, put_pairs,
  unflatten_kvmap,
}
use enthrall.Kvmap.Laws.{IsAbsent, IsDistinct, get-put, put-IsDistinct}

foreach-flattencb : (m : Kvmap) (out : List Kvent) → kvmap_foreach m flattencb out ≡ out ++ m
unfolding kvmap_foreach flattencb
foreach-flattencb [] out = sym (append-nil out)
foreach-flattencb ((k, v) ∷ m) out = rw (foreach-flattencb m) (append_assoc out ((k, v) ∷ []) m)

-- The array holds the entries in the order of the chain.
pub flatten-entries : (m : Kvmap) → flatten_kvmap m ≡ m
unfolding flatten_kvmap
flatten-entries m = foreach-flattencb m []

get-absent : (m : Kvmap) (k : Text) → IsAbsent k m → kvmap_get m k ≡ none
unfolding kvmap_get
get-absent [] k a = refl
get-absent ((i, w) ∷ m) k a = ground (arith, get-absent m k)

abbrev or_else : Option Text → Option Text → Option Text
or_else none o = o
or_else (some v) o = some v

get-put_pairs :
    (ps m : Kvmap) (j : Text)
    → IsDistinct ps
    → kvmap_get (put_pairs ps m) j ≡ or_else (kvmap_get ps j) (kvmap_get m j)
unfolding put_pairs kvmap_get
get-put_pairs [] m j d = refl
get-put_pairs ((k, v) ∷ ps) m j d = ground (
  arith,
  get-put_pairs ps (kvmap_put m k v) j d.1,
  get-put m k v j,
  get-absent ps k d.0,
  str_eq_iff k j,
)

-- A map that has no key twice, flattened into an array of pairs and made from it again, gives the same
-- value for every key.
pub get-unflatten-flatten :
    (m : Kvmap) (j : Text)
    → IsDistinct m
    → kvmap_get (unflatten_kvmap (flatten_kvmap m)) j ≡ kvmap_get m j
unfolding unflatten_kvmap
get-unflatten-flatten m j d =
    rw (flatten-entries m) (ground (arith, get-put_pairs m [] j d, get-absent [] j tt))

put_pairs-IsDistinct : (ps m : Kvmap) → IsDistinct m → IsDistinct (put_pairs ps m)
unfolding put_pairs
put_pairs-IsDistinct [] m d = d
put_pairs-IsDistinct ((k, v) ∷ ps) m d =
    put_pairs-IsDistinct ps (kvmap_put m k v) (put-IsDistinct m k v d)

-- Whatever pairs arrive, also with a key twice, `unflatten_kvmap` makes one entry for each key.
pub unflatten-IsDistinct : (ps : List Kvent) → IsDistinct (unflatten_kvmap ps)
unfolding unflatten_kvmap
unflatten-IsDistinct ps = put_pairs-IsDistinct ps [] tt
