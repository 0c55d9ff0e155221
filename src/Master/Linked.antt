-- ===== src/Master/Linked.antt =====
-- main.c: apply_topology makes just the links of the configuration between nodes that are enabled.
use enthrall.Prelude.{ℕ, ◌≡◌, Text, Bool, true, Option, none, some, List, [], ◌∷◌, if◌then◌else◌}
use enthrall.Edge.{Direction}
use enthrall.Master.{NodeRef, master, remote, Master, node_at}
use enthrall.Master.Topology.{Link, find_node}
use enthrall.Master.Linking.{is_end}

-- The master, and the remotes that are enabled.
abbrev pub is_on : Master → NodeRef → Bool
is_on m master = true
is_on m (remote i) = (m.store i).enabled

-- The neighbor that a node has on a side after a link, if its two ends are those nodes and `old` was
-- the neighbor before.
abbrev pub after_link :
    Link → (a b : Option NodeRef) → Master → NodeRef → Direction → Option NodeRef → Option NodeRef
after_link ln none b m k d old = old
after_link ln (some a) none m k d old = old
after_link ln (some a) (some b) m k d old =
    let made =
      if is_end k d b ln.b_dir
      then some a
      else if is_end k d a (some ln.a_dir)
      then some b
      else old in
    if is_on m a then if is_on m b then made else old else old

-- The same after all the links, of which a later one wins.
abbrev pub after_links : List Link → Master → NodeRef → Direction → Option NodeRef → Option NodeRef
after_links [] m k d old = old
after_links (ln ∷ rest) m k d old =
    after_links rest m k d (after_link ln (find_node ln.a_name m) (find_node ln.b_name m) m k d old)

-- Two states whose names lead to the same nodes, with the same ones enabled.
record IsAlike (m n : Master) : Type 0 where
  names : (name : Option Text) → find_node name n ≡ find_node name m
  enabled : (j : ℕ) → (n.store j).enabled ≡ (m.store j).enabled

-- What is true of a state in which the links so far are made.
record Links (m n : Master) (wanted : NodeRef → Direction → Option NodeRef) : Type 0 where
  alike : IsAlike m n
  made : (k : NodeRef) (d : Direction) → (node_at n k).neighbors d ≡ wanted k d
