-- ===== src/Master/Linking.antt =====
-- main.c: what a link makes of the nodes' neighbors, and which remotes are enabled.
use enthrall.Prelude.{
  ℕ, ◌==◌, ◌≡◌, refl, ap, ◌∙◌, Text, Bool, true, false, ◌&&◌, Option, none, some, List, [], ◌∷◌,
  if◌then◌else◌, All,
}
use enthrall.Edge.{Direction}
use enthrall.Master.{NodeRef, master, remote, same_node, Remote, Master, node_at}
use enthrall.Master.Events.{same_direction}
use enthrall.Master.Topology.{
  set_neighbor, apply_link, search_by, find_remote, RemoteEnable, enable,
}

-- Whether a side of a node is that end of a link.
abbrev pub is_end : NodeRef → Direction → NodeRef → Option Direction → Bool
is_end k d n none = false
is_end k d n (some dir) = same_node k n && same_direction d dir

pub set_neighbor_lem :
    (n : NodeRef) (dir : Direction) (to : NodeRef) (m : Master) (k : NodeRef) (d : Direction)
    → (node_at (set_neighbor n dir to m) k).neighbors d
      ≡ (if is_end k d n (some dir) then some to else (node_at m k).neighbors d)
unfolding set_neighbor
set_neighbor_lem master dir to m master d = refl
set_neighbor_lem master dir to m (remote j) d = refl
set_neighbor_lem (remote i) dir to m master d = refl
set_neighbor_lem (remote i) dir to m (remote j) d = by_same (j == i)
  where
    by_same :
        (b : Bool)
        → (if b
              then record (m.store j) {
                node = record (m.store j).node {
                  neighbors =
                      λ e. if same_direction e dir then some to else (m.store j).node.neighbors e;
                };
              }
              else m.store j).node.neighbors
            d
          ≡ (if b && same_direction d dir then some to else (m.store j).node.neighbors d)
    by_same true = refl
    by_same false = refl

-- After a link the node at its one end has the node at its other end as a neighbor, and the other way
-- round where the link has a direction back, which wins where both ends are one; all other neighbors
-- are as before.
pub link-neighbors :
    (a : NodeRef) (a_dir : Direction) (b : NodeRef) (b_dir : Option Direction) (m : Master)
    (k : NodeRef) (d : Direction)
    → (node_at (apply_link a a_dir b b_dir m) k).neighbors d ≡ (
        if is_end k d b b_dir
        then some a
        else if is_end k d a (some a_dir)
        then some b
        else (node_at m k).neighbors d)
unfolding apply_link
link-neighbors a a_dir b none m k d = set_neighbor_lem a a_dir b m k d
link-neighbors a a_dir b (some b_dir) m k d =
    set_neighbor_lem b b_dir a (set_neighbor a a_dir b m) k d
    ∙ ap (λ x. if is_end k d b (some b_dir) then some a else x) (set_neighbor_lem a a_dir b m k d)

-- Two states whose names lead to the same remotes.
abbrev SameNames : Master → Master → Type 0
SameNames m m' = (name : Text) → find_remote name m' ≡ find_remote name m

pub search_same :
    (field : Remote → Text) (name : Text) (is : List ℕ) (store store' : ℕ → Remote)
    → ((j : ℕ) → field (store' j) ≡ field (store j))
    → search_by field name is store' ≡ search_by field name is store
search_same field name [] store store' e = refl
search_same field name (i ∷ rest) store store' e =
    rw (e i, search_same field name rest store store' e) refl

abbrev able : Bool → Remote → Remote
able b r = record r { enabled = b }

-- The last setting that names a remote.
abbrev pub is_named : Option ℕ → ℕ → Bool
is_named none j = false
is_named (some i) j = j == i

abbrev pub later_or : Option Bool → Bool → Bool
later_or none b = b
later_or (some c) b = c

abbrev pub last_setting : List RemoteEnable → Master → ℕ → Option Bool
last_setting [] m j = none
last_setting (s ∷ rest) m j = elim (last_setting rest m j) [
  | some c ↦ some c
  | none ↦ if is_named (find_remote s.name m) j then some s.enable else none
]

-- Every setting names a remote.
abbrev pub AreDefined : List RemoteEnable → Master → Type 0
AreDefined settings m = All (λ s. (i : ℕ) × (find_remote s.name m ≡ some i)) settings

-- What a remote that no setting names is to be: the opposite of the last setting, else enabled.
abbrev pub opposite_of : Option Bool → Bool
opposite_of none = true
opposite_of (some true) = false
opposite_of (some false) = true

abbrev pub last_of_all : List RemoteEnable → Option Bool
last_of_all [] = none
last_of_all (s ∷ rest) = elim (last_of_all rest) [ some b ↦ some b | none ↦ some s.enable ]
