-- ===== src/Master/Reachable/Applied.antt =====
-- main.c: apply_topology leaves no neighbor that is not a node, which is what check_remotes needs.
use enthrall.Prelude.{
  ℕ, ◌==◌, ◌≡◌, refl, sym, ap, subst, Text, str_eq, Bool, true, false, ◌&&◌, Option, none, some,
  List, [], ◌∷◌, Bool-cases, inl, inr, if◌then◌else◌,
}
use enthrall.Edge.{Direction}
use enthrall.Master.{NodeRef, master, remote, Remote, Master, node_at}
use enthrall.Master.Topology.{
  Link, search_by, or_else, find_remote, as_node, find_node, set_neighbor, apply_link, node_enabled,
  apply_resolved, apply_links, apply_topology,
}
use enthrall.Master.Linking.{is_end, set_neighbor_lem}
use enthrall.Master.Reachable.Marking.{Listed, Known, IsClosed}
use enthrall.Master.Reachable.Checking.{IsUnmarked}

search-Listed :
    (field : Remote → Text) (name : Text) (is : List ℕ) (store : ℕ → Remote) (i : ℕ)
    → search_by field name is store ≡ some i
    → Listed i is
search-Listed field name [] store i e = absurd (cc e)
search-Listed field name (j ∷ rest) store i e = elim (Bool-cases (str_eq name (field (store j)))) [
  | inl t ↦ inl (cc (rw t at e))
  | inr f ↦ inr (search-Listed field name rest store i (rw f at e))
]

or_else-Known :
    (is : List ℕ) (o p : Option ℕ)
    → Known is (as_node o)
    → Known is (as_node p)
    → Known is (as_node (or_else o p))
or_else-Known is none p h k = k
or_else-Known is (some i) p h k = h

search-Known :
    (field : Remote → Text) (name : Text) (m : Master) (o : Option ℕ)
    → search_by field name m.remotes m.store ≡ o
    → Known m.remotes (as_node o)
search-Known field name m none e = tt
search-Known field name m (some i) e = search-Listed field name m.remotes m.store i e

find_node-Known : (name : Option Text) (m : Master) → Known m.remotes (find_node name m)
unfolding find_node find_remote
find_node-Known none m = tt
find_node-Known (some name) m = elim (Bool-cases (str_eq name m.self.name)) [
  | inl t ↦ rw t tt
  | inr f ↦ rw f (
      or_else-Known m.remotes (search_by (λ r. r.node.name) name m.remotes m.store)
        (search_by (λ r. r.hostname) name m.remotes m.store)
        (search-Known (λ r. r.node.name) name m _ refl)
        (search-Known (λ r. r.hostname) name m _ refl))
]

-- What is true of the nodes before and after.
abbrev pub IsReady : Master → Type 0
IsReady m = IsClosed m × IsUnmarked m

become : (m m' : Master) → some m ≡ some m' → IsReady m → IsReady m'
become m m' e r = subst IsReady (some_back e) r
  where
    unwrap : Option Master → Master
    unwrap none = m
    unwrap (some k) = k

    some_back : some m ≡ some m' → m ≡ m'
    some_back e = ap unwrap e

set_neighbor_remotes :
    (n : NodeRef) (dir : Direction) (to : NodeRef) (m : Master)
    → (set_neighbor n dir to m).remotes ≡ m.remotes
unfolding set_neighbor
set_neighbor_remotes master dir to m = refl
set_neighbor_remotes (remote i) dir to m = refl

set_neighbor-IsUnmarked :
    (n : NodeRef) (dir : Direction) (to : NodeRef) (m : Master)
    → IsUnmarked m
    → IsUnmarked (set_neighbor n dir to m)
unfolding set_neighbor
set_neighbor-IsUnmarked master dir to m u j = u j
set_neighbor-IsUnmarked (remote i) dir to m u j = elim (Bool-cases (j == i)) [
  | inl t ↦ rw t (u j)
  | inr f ↦ rw f (u j)
]

set_neighbor-IsReady :
    (n : NodeRef) (dir : Direction) (to : NodeRef) (m : Master)
    → Known m.remotes (some to)
    → IsReady m
    → IsReady (set_neighbor n dir to m)
set_neighbor-IsReady n dir to m k (c, u) = (
  λ p d.
      subst (λ is. Known is ((node_at (set_neighbor n dir to m) p).neighbors d))
        (sym (set_neighbor_remotes n dir to m))
        (subst (λ o. Known m.remotes o) (sym (set_neighbor_lem n dir to m p d))
          (either (is_end p d n (some dir)) ((node_at m p).neighbors d) (c p d))),
  set_neighbor-IsUnmarked n dir to m u,
)
  where
    either :
        (b : Bool) (o : Option NodeRef)
        → Known m.remotes o
        → Known m.remotes (if b then some to else o)
    either true o h = k
    either false o h = h

apply_link-IsReady :
    (a : NodeRef) (a_dir : Direction) (b : NodeRef) (b_dir : Option Direction) (m : Master)
    → Known m.remotes (some a)
    → Known m.remotes (some b)
    → IsReady m
    → IsReady (apply_link a a_dir b b_dir m)
unfolding apply_link
apply_link-IsReady a a_dir b none m ka kb r = set_neighbor-IsReady a a_dir b m kb r
apply_link-IsReady a a_dir b (some b_dir) m ka kb r =
    set_neighbor-IsReady b b_dir a (set_neighbor a a_dir b m)
      (subst (λ is. Known is (some a)) (sym (set_neighbor_remotes a a_dir b m)) ka)
      (set_neighbor-IsReady a a_dir b m kb r)

resolved-IsReady :
    (ln : Link) (a b : Option NodeRef) (m m' : Master)
    → Known m.remotes a
    → Known m.remotes b
    → IsReady m
    → apply_resolved ln a b m ≡ some m'
    → IsReady m'
resolved-IsReady ln none b m m' ka kb r e = absurd (cc e)
resolved-IsReady ln (some a) none m m' ka kb r e = absurd (cc e)
resolved-IsReady ln (some a) (some b) m m' ka kb r e =
    elim (Bool-cases (node_enabled a m && node_enabled b m)) [
      | inl t ↦
          become (apply_link a ln.a_dir b ln.b_dir m) m' (rw t at e)
            (apply_link-IsReady a ln.a_dir b ln.b_dir m ka kb r)
      | inr f ↦ become m m' (rw f at e) r
    ]

links-IsReady :
    (links : List Link) (o : Option Master) (m' : Master)
    → ((m : Master) → o ≡ some m → IsReady m)
    → apply_links links o ≡ some m'
    → IsReady m'
links-IsReady links none m' r e = absurd (cc e)
links-IsReady [] (some m) m' r e = r m' e
links-IsReady (ln ∷ rest) (some m) m' r e =
    links-IsReady rest (apply_resolved ln (find_node ln.a_name m) (find_node ln.b_name m) m) m'
      (λ n q.
        resolved-IsReady ln (find_node ln.a_name m) (find_node ln.b_name m) m n
          (find_node-Known ln.a_name m) (find_node-Known ln.b_name m) (r m refl) q)
      e

-- Where every neighbor is a node and no remote is marked, as at the start, this is so after the links of
-- the configuration have been applied, if their names are all those of nodes.
pub apply_topology-IsReady :
    (links : List Link) (m m' : Master) → IsReady m → apply_topology links m ≡ some m' → IsReady m'
unfolding apply_topology
apply_topology-IsReady links m m' r e = links-IsReady links (some m) m' (λ n q. become m n q r) e
