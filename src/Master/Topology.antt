-- ===== src/Master/Topology.antt =====
-- main.c: names are resolved to nodes, the configured links are applied, and remotes are enabled.
use enthrall.Prelude.{
  ℕ, Text, str_eq, Bool, true, not, ◌&&◌, Option, none, some, List, [], ◌∷◌, if◌then◌else◌,
}
use enthrall.Edge.{Direction}
use enthrall.Master.{NodeRef, master, remote, Remote, Master, with_remote, with_node}
use enthrall.Master.Events.{same_direction}

-- The two loops of `find_remote`, each over what it compares.
abbrev pub search_by : (Remote → Text) → Text → List ℕ → (ℕ → Remote) → Option ℕ
search_by field name [] store = none
search_by field name (i ∷ rest) store =
    let later = search_by field name rest store in
    if str_eq name (field (store i)) then some i else later

abbrev pub or_else : Option ℕ → Option ℕ → Option ℕ
or_else none o = o
or_else (some i) o = some i

unfoldable pub find_remote : Text → Master → Option ℕ
find_remote name m =
    or_else (search_by (λ r. r.node.name) name m.remotes m.store)
      (search_by (λ r. r.hostname) name m.remotes m.store)

abbrev pub as_node : Option ℕ → Option NodeRef
as_node none = none
as_node (some i) = some (remote i)

-- A null name is `none`, and stands for the master.
unfoldable pub find_node : Option Text → Master → Option NodeRef
find_node none m = some master
find_node (some name) m =
    if str_eq name m.self.name then some master else as_node (find_remote name m)

-- `struct link`, with names; the second direction may be absent.
pub record Link : Type 0 where
  pub a_name : Option Text
  pub a_dir : Direction
  pub b_name : Option Text
  pub b_dir : Option Direction

unfoldable pub set_neighbor : NodeRef → Direction → NodeRef → Master → Master
set_neighbor n dir to m =
    with_node n
      (λ k. record k { neighbors = λ d. if same_direction d dir then some to else k.neighbors d }) m

abbrev pub link_back : NodeRef → Option Direction → NodeRef → Master → Master
link_back b none a m = m
link_back b (some dir) a m = set_neighbor b dir a m

-- A neighbor that is replaced is only warned of.
unfoldable pub apply_link : NodeRef → Direction → NodeRef → Option Direction → Master → Master
apply_link a a_dir b b_dir m = link_back b b_dir a (set_neighbor a a_dir b m)

unfoldable pub node_enabled : NodeRef → Master → Bool
node_enabled master m = true
node_enabled (remote i) m = (m.store i).enabled

abbrev pub apply_resolved : Link → Option NodeRef → Option NodeRef → Master → Option Master
apply_resolved ln none b m = none
apply_resolved ln (some a) none m = none
apply_resolved ln (some a) (some b) m =
    if node_enabled a m && node_enabled b m
    then some (apply_link a ln.a_dir b ln.b_dir m)
    else some m

abbrev pub apply_links : List Link → Option Master → Option Master
apply_links links none = none
apply_links [] (some m) = some m
apply_links (ln ∷ rest) (some m) =
    apply_links rest (apply_resolved ln (find_node ln.a_name m) (find_node ln.b_name m) m)

-- `none` is the exit of `initdie`: a name that no node has.
unfoldable pub apply_topology : List Link → Master → Option Master
apply_topology links m = apply_links links (some m)

-- `struct remote_enable`
pub record RemoteEnable : Type 0 where
  pub name : Text
  pub enable : Bool

-- The opposite of the last setting, and true where there is none.
unfoldable pub default_enable : List RemoteEnable → Bool
default_enable [] = true
default_enable (s ∷ []) = not s.enable
default_enable (s ∷ t ∷ rest) = default_enable (t ∷ rest)

abbrev pub enable : Bool → ℕ → Master → Master
enable b i m = with_remote i (λ r. record r { enabled = b }) m

abbrev pub enable_all : Bool → List ℕ → Master → Master
enable_all b [] m = m
enable_all b (i ∷ rest) m = enable_all b rest (enable b i m)

abbrev pub apply_setting : Option ℕ → Bool → Master → Option Master
apply_setting none b m = none
apply_setting (some i) b m = some (enable b i m)

abbrev pub apply_settings : List RemoteEnable → Option Master → Option Master
apply_settings settings none = none
apply_settings [] (some m) = some m
apply_settings (s ∷ rest) (some m) =
    apply_settings rest (apply_setting (find_remote s.name m) s.enable m)

-- `none` is the exit of `initdie`.
unfoldable pub set_enabled_remotes : List RemoteEnable → Master → Option Master
set_enabled_remotes settings m =
    apply_settings settings (some (enable_all (default_enable settings) m.remotes m))
