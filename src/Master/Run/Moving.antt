-- ===== src/Master/Run/Moving.antt =====
-- main.c: a switch of the focus and a pointer position keep what holds of the focus, where the queues
-- have room.
use enthrall.Prelude.{
  ℕ, ◌+◌, ◌≤◌, ◌≡◌, refl, sym, ap, ◌∙◌, subst, Bool, true, false, Option, none, some, List, [], ◌∷◌,
  Bool-cases, inl, inr, if◌then◌else◌,
}
use enthrall.Message.{Xypoint}
use enthrall.Edge.{
  Direction, left, right, up, down, Edgeevent, Dirmask, Trigger, out_of_sync, nothing, switches,
  aborted, point_edgemask, edge_change, trigger_edgeevent,
}
use enthrall.Master.{
  NodeRef, master, remote, same_node, Node, is_connected, Host, Master, node_at, with_node,
}
use enthrall.Master.Focus.{choose_target, focus_target, focus_node, focus_neighbor}
use enthrall.Master.Events.{
  same_direction, same_mask, put_pointer, edgeswitch_reposition, reposition_if, obey_trigger,
  edge_round, edge_rounds, check_edgeevents,
}
use enthrall.Master.Showing.{grabbed}
use enthrall.Master.Sane.{IsSane, states-IsSane, enqueue-IsSane, same_node_remote}
use enthrall.Master.Focusing.{HasRoom}
use enthrall.Master.Pointing.{OnlyEdges, node-OnlyEdges}
use enthrall.Master.Switch.{switch_room, stay-IsSane, focus-Focuses, focus_absent-IsSane}
use enthrall.Master.Run.{IsRoomy, AreRoomy, IsRoomyMove}

edges-IsSane : (m m' : Master) → OnlyEdges m m' → IsSane m → IsSane m'
edges-IsSane m m' e s = states-IsSane m m' e.states e.focused (ap grabbed e.performed) s

edges-IsRoomy :
    (modkeys : List ℕ) (m m' : Master) → OnlyEdges m m' → IsRoomy modkeys m → IsRoomy modkeys m'
edges-IsRoomy modkeys m m' e r i c =
    subst (λ ch. ch.num_queued + switch_room modkeys ≤ 64) (sym (e.channels i))
      (r i (ap is_connected (sym (e.states i)) ∙ c))

same_node_eq : (n k : NodeRef) → same_node n k ≡ true → n ≡ k
same_node_eq master master e = refl
same_node_eq master (remote j) e = absurd (cc e)
same_node_eq (remote i) master e = absurd (cc e)
same_node_eq (remote i) (remote j) e = ap remote (same_node_remote i j e)

room_of_focus :
    (modkeys : List ℕ) (m : Master)
    → IsSane m
    → IsRoomy modkeys m
    → HasRoom (switch_room modkeys) m.focused_node m
room_of_focus modkeys m s r = by_node m.focused_node refl
  where
    by_node : (n : NodeRef) → m.focused_node ≡ n → HasRoom (switch_room modkeys) n m
    by_node master e = tt
    by_node (remote i) e = (s.live i e, r i (s.live i e))

module _ (h : Host) where
  to-IsSane :
      (n : NodeRef) (modkeys : List ℕ) (via : Bool) (m : Master)
      → IsSane m
      → IsRoomy modkeys m
      → HasRoom (switch_room modkeys) n m
      → choose_target h (some n) m ≡ (n, m)
      → IsSane (focus_node h (some n) modkeys via m).0
  unfolding focus_node
  to-IsSane n modkeys via m s r room chosen = elim (Bool-cases (same_node n m.focused_node)) [
    | inr apart ↦ (focus-Focuses h n modkeys via m s apart (room_of_focus modkeys m s r) room).sane
    | inl t ↦ rw chosen (
        subst (λ k. IsSane (focus_target h m.focused_node k modkeys via m).0)
          (sym (same_node_eq n m.focused_node t)) (stay-IsSane h m.focused_node modkeys via m s).1)
  ]

  -- `focus_node`, wherever it is asked to go.
  pub focus-IsSane :
      (o : Option NodeRef) (modkeys : List ℕ) (via : Bool) (m : Master)
      → IsSane m
      → IsRoomy modkeys m
      → IsSane (focus_node h o modkeys via m).0
  unfolding focus_node choose_target
  focus-IsSane none modkeys via m s r = (stay-IsSane h m.focused_node modkeys via m s).1
  focus-IsSane (some master) modkeys via m s r = to-IsSane master modkeys via m s r tt refl
  focus-IsSane (some (remote i)) modkeys via m s r =
      elim (Bool-cases (is_connected (m.store i).state)) [
        | inl t ↦ to-IsSane (remote i) modkeys via m s r (t, r i t) (rw t refl)
        | inr f ↦ (focus_absent-IsSane h i modkeys via m s f).1
      ]

  put-IsSane : (n : NodeRef) (pt : Xypoint) (m : Master) → IsSane m → IsSane (put_pointer h n pt m)
  put-IsSane master pt m s = states-IsSane m _ (λ j. refl) refl refl s
  put-IsSane (remote i) pt m s = enqueue-IsSane h i _ m s

  reposition-IsSane :
      (r : Master × Bool) (dir : Direction) (x y : ℕ)
      → IsSane r.0
      → IsSane (reposition_if h r dir x y)
  unfolding edgeswitch_reposition
  reposition-IsSane (m, true) dir x y s = put-IsSane m.focused_node _ m s
  reposition-IsSane (m, false) dir x y s = s

  obey-IsSane :
      (t : Trigger) (dir : Direction) (x y : ℕ) (modkeys : List ℕ) (m : Master)
      → IsSane m
      → IsRoomy modkeys m
      → IsSane (obey_trigger h t dir x y modkeys m)
  unfolding focus_neighbor
  obey-IsSane out_of_sync dir x y modkeys m s r = s
  obey-IsSane nothing dir x y modkeys m s r = s
  obey-IsSane switches dir x y modkeys m s r =
      reposition-IsSane (focus_neighbor h dir modkeys false m) dir x y
        (focus-IsSane ((node_at m m.focused_node).neighbors dir) modkeys false m s r)
  obey-IsSane aborted dir x y modkeys m s r = states-IsSane m _ (λ j. refl) refl refl s

  round-IsSane :
      (o : Option Edgeevent) (node : NodeRef) (dir : Direction) (x y : ℕ) (modkeys : List ℕ)
      (m : Master)
      → IsSane m
      → IsRoomy modkeys m
      → IsSane (edge_round h o node dir x y modkeys m)
  round-IsSane none node dir x y modkeys m s r = s
  round-IsSane (some ev) node dir x y modkeys m s r =
      let t =
        trigger_edgeevent h.config.mouseswitch ((node_at m node).edgehist dir) ev
          (h.get_microtime m.answers) in
      let F : Node → Node =
        λ n. record n { edgehist = λ d. if same_direction d dir then t.0 else n.edgehist d } in
      let e = node-OnlyEdges node F m in
      obey-IsSane t.1 dir x y modkeys (with_node node F m) (edges-IsSane m _ e s)
        (edges-IsRoomy modkeys m _ e r)

  rounds-IsSane :
      (dirs : List Direction) (old new : Dirmask) (node : NodeRef) (x y : ℕ) (modkeys : List ℕ)
      (m : Master)
      → IsSane m
      → AreRoomy h dirs old new node x y modkeys m
      → IsSane (edge_rounds h dirs old new node x y modkeys m)
  rounds-IsSane [] old new node x y modkeys m s r = s
  rounds-IsSane (dir ∷ dirs) old new node x y modkeys m s (r, rest) =
      rounds-IsSane dirs old new node x y modkeys _
        (round-IsSane (edge_change old new dir) node dir x y modkeys m s r) rest

  pub check-IsSane :
      (node : NodeRef) (pt : Xypoint) (modkeys : List ℕ) (m : Master)
      → IsSane m
      → IsRoomyMove h node pt modkeys m
      → IsSane (check_edgeevents h node pt modkeys m)
  unfolding check_edgeevents
  check-IsSane node pt modkeys m s r =
      let dim = (node_at m node).dimensions in
      let new = point_edgemask pt dim in
      let old = (node_at m node).edgemask in
      let moved =
        edges-IsSane m (with_node node (λ n. record n { edgemask = new }) m)
          (node-OnlyEdges node _ m) s in
      elim (Bool-cases (same_mask new old)) [
        | inl t ↦ rw t moved
        | inr f ↦
            rw f (rounds-IsSane (left ∷ right ∷ up ∷ down ∷ []) old new node _ _ modkeys _ moved r)
      ]
