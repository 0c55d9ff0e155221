-- ===== src/Kvmap/Tests.antt =====
-- kvmap.c and misc.c on concrete maps.
use enthrall.Prelude.{Text, codes, ◌≡◌, refl, [], ◌∷◌}
use enthrall.Kvmap.{Kvmap, kvmap_get, kvmap_put, flatten_kvmap, unflatten_kvmap}
use enthrall.Kvmap.Flatten.{get-unflatten-flatten}

abbrev display : Text
display = codes "DISPLAY"

abbrev sample : Kvmap
sample = (display, codes ":0") ∷ (codes "LANG", codes "C") ∷ []

put_replaces :
    kvmap_put sample display (codes ":1") ≡ (display, codes ":1") ∷ (codes "LANG", codes "C") ∷ []
unfolding kvmap_put
put_replaces = refl

unflatten_reverses :
    unflatten_kvmap (flatten_kvmap sample) ≡ (codes "LANG", codes "C") ∷ (display, codes ":0") ∷ []
unfolding unflatten_kvmap flatten_kvmap kvmap_put
unflatten_reverses = refl

get-unflatten-flatten_example :
    kvmap_get (unflatten_kvmap (flatten_kvmap sample)) display ≡ kvmap_get sample display
get-unflatten-flatten_example = get-unflatten-flatten sample display ((refl, tt), (tt, tt))
