-- ===== src/Master/Reachable.antt =====
-- main.c: which remotes can be reached from the master over the neighbors, and the warnings of
-- check_remotes.
pub mod Marking
pub mod Checking
pub mod Applied
use enthrall.Prelude.{
  ℕ, zero, suc, ◌+◌, ◌==◌, ◌*◌, Text, codes, Bool, true, false, Option, none, some, is_some, List,
  [], ◌∷◌, ◌++◌, length, if◌then◌else◌,
}
use enthrall.Edge.{Direction, left, right, up, down}
use enthrall.Master.{NodeRef, master, remote, Remote, Master, with_remote, node_at}

-- The order of `for_each_direction`.
abbrev pub directions : List Direction
directions = left ∷ right ∷ up ∷ down ∷ []

-- Its body with a call for each neighbor, where a call may fail to end.
abbrev pub each_neighbor :
    (Option NodeRef → Master → Option Master)
    → NodeRef
    → List Direction
    → Option Master
    → Option Master
each_neighbor call n ds none = none
each_neighbor call n [] (some m) = some m
each_neighbor call n (dir ∷ ds) (some m) =
    each_neighbor call n ds (call ((node_at m n).neighbors dir) m)

abbrev pub set_reachable : ℕ → Master → Master
set_reachable i m = with_remote i (λ r. record r { reachable = true }) m

abbrev pub unless_seen : Bool → (Option Master → Option Master) → Master → Option Master
unless_seen true continue m = some m
unless_seen false continue m = continue (some m)

-- The recursion is on the depth of the calls; `none` is a depth that is not enough.
unfoldable pub mark_reachable : ℕ → Option NodeRef → Master → Option Master
mark_reachable depth none m = some m
mark_reachable depth (some master) m = some m
mark_reachable zero (some (remote i)) m = none
mark_reachable (suc depth) (some (remote i)) m =
    unless_seen (m.store i).reachable (each_neighbor (mark_reachable depth) (remote i) directions)
      (set_reachable i m)

-- The loop for `num_neighbors`.
abbrev pub num_neighbors : Remote → List Direction → ℕ → ℕ
num_neighbors r [] n = n
num_neighbors r (dir ∷ ds) n =
    num_neighbors r ds (if is_some (r.node.neighbors dir) then n + 1 else n)

abbrev pub not_reachable : Text → Text
not_reachable name = codes "Warning: remote '" ++ (name ++ codes "' is not reachable\n")

abbrev pub no_neighbors : Text → Text
no_neighbors name = codes "Warning: remote '" ++ (name ++ codes "' has no neighbors\n")

abbrev pub check_remote : Remote → List Text
check_remote r =
    (if r.reachable then [] else not_reachable r.node.name ∷ [])
    ++ (if num_neighbors r directions 0 == 0 then no_neighbors r.node.name ∷ [] else [])

-- The loop over the enabled remotes.
abbrev pub check_each : List ℕ → (ℕ → Remote) → List Text
check_each [] store = []
check_each (i ∷ rest) store =
    let later = check_each rest store in
    if (store i).enabled then check_remote (store i) ++ later else later

abbrev pub with_warnings : Option Master → Option (List Text × Master)
with_warnings none = none
with_warnings (some m) = some (check_each m.remotes m.store, m)

-- The warnings, and what the program is left with. Each call but the last of a path sets a flag, so a
-- depth of one more than there are remotes is enough.
unfoldable pub check_remotes : Master → Option (List Text × Master)
check_remotes m =
    with_warnings (each_neighbor (mark_reachable (length m.remotes + 1)) master directions (some m))
