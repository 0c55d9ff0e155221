-- ===== src/Kvmap.antt =====
-- The string-to-string map of kvmap.c, and the two functions of misc.c that turn it into the array
-- of pairs of a SETUP message and back. The list is the chain of `struct kvent`s from `head` on.
pub mod Laws
pub mod Flatten
mod Tests
use enthrall.Prelude.{Text, str_eq, Option, none, some, List, [], ◌∷◌, ◌++◌, if◌then◌else◌}

-- `struct kvent`, and `struct kvpair` of proto.x, which has the same two strings.
abbrev pub Kvent : Type 0
Kvent = Text × Text

abbrev pub Kvmap : Type 0
Kvmap = List Kvent

abbrev pub new_kvmap : Kvmap
new_kvmap = []

unfoldable pub kvmap_get : Kvmap → Text → Option Text
kvmap_get [] key = none
kvmap_get ((k, v) ∷ rest) key = if str_eq k key then some v else kvmap_get rest key

-- The loop of `kvmap_put`: `none` if it runs off the chain.
replace_value : Kvmap → Text → Text → Option Kvmap
replace_value [] key v = none
replace_value ((k, w) ∷ rest) key v =
    let below = replace_value rest key v in
    if str_eq k key
    then some ((k, v) ∷ rest)
    else elim below [ none ↦ none | some rest' ↦ some ((k, w) ∷ rest') ]

-- A key that is there keeps its place; a new one becomes the head.
unfoldable pub kvmap_put : Kvmap → Text → Text → Kvmap
unfolding replace_value
kvmap_put kvm key value = elim (replace_value kvm key value) [
  | none ↦ (key, value) ∷ kvm
  | some kvm' ↦ kvm'
]

unfoldable pub kvmap_foreach {ℓ} : {S : Type ℓ} → Kvmap → (Text → Text → S → S) → S → S
kvmap_foreach [] fn arg = arg
kvmap_foreach ((k, v) ∷ rest) fn arg = kvmap_foreach rest fn (fn k v arg)

-- The callback of `flatten_kvmap`: the context is the array built so far.
flattencb : Text → Text → List Kvent → List Kvent
flattencb key value pairs = pairs ++ ((key, value) ∷ [])

unfoldable pub flatten_kvmap : Kvmap → List Kvent
unfolding kvmap_foreach flattencb
flatten_kvmap kvm = kvmap_foreach kvm flattencb []

-- The loop of `unflatten_kvmap`.
put_pairs : List Kvent → Kvmap → Kvmap
put_pairs [] kvm = kvm
put_pairs ((k, v) ∷ rest) kvm = put_pairs rest (kvmap_put kvm k v)

unfoldable pub unflatten_kvmap : List Kvent → Kvmap
unfolding put_pairs
unflatten_kvmap pairs = put_pairs pairs new_kvmap
