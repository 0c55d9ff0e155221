-- ===== src/Master/Pointing.antt =====
-- main.c: without a mouse switch in the configuration the pointer moves no focus.
use enthrall.Prelude.{
  ℕ, ◌==◌, ◌≡◌, refl, sym, ◌∙◌, subst, Bool, true, false, Option, none, some, List, [], ◌∷◌,
  Bool-cases, inl, inr, if◌then◌else◌,
}
use enthrall.Message.{Xypoint}
use enthrall.Edge.{
  Direction, left, right, up, down, Edgeevent, depart, arrive, EdgeState, Dirmask, after_record,
  trigger_edgeevent, record_edgeevent, edge_change, point_edgemask,
}
use enthrall.Master.{NodeRef, master, remote, Node, Host, Master, with_node, node_at}
use enthrall.Master.Events.{
  obey_trigger, edge_round, edge_rounds, check_edgeevents, same_mask, same_direction,
}
use enthrall.Master.Sane.{same_states}

-- The edges' histories and masks apart, two states are the same as far as messages, connections, focus
-- and effects go.
pub record OnlyEdges (m m' : Master) : Type 0 where
  pub focused : m'.focused_node ≡ m.focused_node
  pub last : m'.last_focused_node ≡ m.last_focused_node
  pub performed : m'.effects ≡ m.effects
  pub scheduled : m'.calls ≡ m.calls
  pub channels : (j : ℕ) → (m'.store j).msgchan ≡ (m.store j).msgchan
  pub states : (j : ℕ) → (m'.store j).state ≡ (m.store j).state

same_edges : (m : Master) → OnlyEdges m m
same_edges m = record {
  focused = refl;
  last = refl;
  performed = refl;
  scheduled = refl;
  channels = λ j. refl;
  states = λ j. refl;
}

join-OnlyEdges : (m m' m'' : Master) → OnlyEdges m m' → OnlyEdges m' m'' → OnlyEdges m m''
join-OnlyEdges m m' m'' a b = record {
  focused = b.focused ∙ a.focused;
  last = b.last ∙ a.last;
  performed = b.performed ∙ a.performed;
  scheduled = b.scheduled ∙ a.scheduled;
  channels = λ j. b.channels j ∙ a.channels j;
  states = λ j. b.states j ∙ a.states j;
}

pub node-OnlyEdges : (n : NodeRef) (f : Node → Node) (m : Master) → OnlyEdges m (with_node n f m)
node-OnlyEdges master f m = record {
  focused = refl;
  last = refl;
  performed = refl;
  scheduled = refl;
  channels = λ j. refl;
  states = λ j. refl;
}
node-OnlyEdges (remote i) f m = record {
  focused = refl;
  last = refl;
  performed = refl;
  scheduled = refl;
  channels = λ j. elim (Bool-cases (j == i)) [ inl t ↦ rw t refl | inr n ↦ rw n refl ];
  states = same_states i (λ r. record r { node = f r.node }) m.store (λ r. refl);
}

choice :
    (b : Bool) (m m' m'' : Master)
    → OnlyEdges m m'
    → OnlyEdges m m''
    → OnlyEdges m (if b then m' else m'')
choice true m m' m'' a b = a
choice false m m' m'' a b = b

module _ (h : Host) (quiet : h.config.mouseswitch ≡ none) where
  obey-OnlyEdges :
      (r : EdgeState × Bool) (ev : Edgeevent) (now : ℕ) (dir : Direction) (x y : ℕ)
      (modkeys : List ℕ) (m : Master)
      → OnlyEdges m (obey_trigger h (after_record r ev none now) dir x y modkeys m)
  obey-OnlyEdges (es, true) ev now dir x y modkeys m = same_edges m
  obey-OnlyEdges (es, false) depart now dir x y modkeys m = same_edges m
  obey-OnlyEdges (es, false) arrive now dir x y modkeys m = same_edges m

  round-OnlyEdges :
      (o : Option Edgeevent) (node : NodeRef) (dir : Direction) (x y : ℕ) (modkeys : List ℕ)
      (m : Master)
      → OnlyEdges m (edge_round h o node dir x y modkeys m)
  unfolding trigger_edgeevent
  round-OnlyEdges none node dir x y modkeys m = same_edges m
  round-OnlyEdges (some ev) node dir x y modkeys m =
      let es = (node_at m node).edgehist dir in
      let now = h.get_microtime m.answers in
      let r = record_edgeevent es ev now in
      let m' =
        with_node node
          (λ n. record n { edgehist = λ d. if same_direction d dir then r.0 else n.edgehist d })
          m in
      join-OnlyEdges m m' _ (node-OnlyEdges node _ m) (
        subst (λ ms. OnlyEdges m' (obey_trigger h (after_record r ev ms now) dir x y modkeys m'))
          (sym quiet) (obey-OnlyEdges r ev now dir x y modkeys m'))

  rounds-OnlyEdges :
      (dirs : List Direction) (old new : Dirmask) (node : NodeRef) (x y : ℕ) (modkeys : List ℕ)
      (m : Master)
      → OnlyEdges m (edge_rounds h dirs old new node x y modkeys m)
  rounds-OnlyEdges [] old new node x y modkeys m = same_edges m
  rounds-OnlyEdges (d ∷ dirs) old new node x y modkeys m =
      join-OnlyEdges m (edge_round h (edge_change old new d) node d x y modkeys m) _
        (round-OnlyEdges (edge_change old new d) node d x y modkeys m)
        (rounds-OnlyEdges dirs old new node x y modkeys _)

  -- Where the configuration has no mouse switch, a pointer position changes no focus, sends no message,
  -- schedules nothing, has no effect on the platform and changes no connection state.
  pub check-OnlyEdges :
      (node : NodeRef) (pt : Xypoint) (modkeys : List ℕ) (m : Master)
      → OnlyEdges m (check_edgeevents h node pt modkeys m)
  unfolding check_edgeevents
  check-OnlyEdges node pt modkeys m =
      let dim = (node_at m node).dimensions in
      let new = point_edgemask pt dim in
      let old = (node_at m node).edgemask in
      let m' = with_node node (λ n. record n { edgemask = new }) m in
      choice (same_mask new old) m m' _ (node-OnlyEdges node _ m) (
        join-OnlyEdges m m' _ (node-OnlyEdges node _ m) (
          rounds-OnlyEdges (left ∷ right ∷ up ∷ down ∷ []) old new node
            (h.floats.quot (h.floats.of_int pt.x) (h.floats.of_int dim.x.hi))
            (h.floats.quot (h.floats.of_int pt.y) (h.floats.of_int dim.y.hi)) modkeys m'))
