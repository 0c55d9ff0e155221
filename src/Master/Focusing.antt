-- ===== src/Master/Focusing.antt =====
-- main.c: a switch of the focus, where the two nodes' channels have room for what it sends.
use enthrall.Prelude.{
  ℕ, suc, ◌+◌, ◌==◌, ◌≤◌, ◌≡◌, refl, sym, ap, ◌∙◌, subst, ltb, Bool, true, false, arith,
}
use enthrall.Message.{Message}
use enthrall.Msgchan.{mc_enqueue_message}
use enthrall.Master.{NodeRef, master, remote, same_node, is_connected, Host, Master, with_remote}
use enthrall.Master.Remotes.{enqueue_message}
use enthrall.Master.Showing.{grabbed}
use enthrall.Master.Failing.{at_address_self, at_address_other}

-- A remote is connected, and its queue takes `k` more messages.
abbrev pub IsLive : ℕ → ℕ → Master → Type 0
IsLive k j m = (is_connected (m.store j).state ≡ true) × ((m.store j).msgchan.num_queued + k ≤ 64)

abbrev pub HasRoom : ℕ → NodeRef → Master → Type 0
HasRoom k master m = Unit {0}
HasRoom k (remote j) m = IsLive k j m

-- `mc_enqueue_message` where it does not fail.
abbrev queue : ℕ → Message → Master → Master
queue i msg m =
    with_remote i (λ r. record r { msgchan = (mc_enqueue_message (m.store i).msgchan msg).0 }) m

module _ (h : Host) where
  enqueue_queue :
      (k i : ℕ) (msg : Message) (m : Master)
      → IsLive (suc k) i m
      → enqueue_message h i msg m ≡ queue i msg m
  unfolding enqueue_message mc_enqueue_message
  enqueue_queue k i msg m l =
      let e : ltb 64 ((m.store i).msgchan.num_queued + 1) ≡ false = ground (arith, l.1) in rw e refl

  queue-IsLive_self :
      (k i : ℕ) (msg : Message) (m : Master) → IsLive (suc k) i m → IsLive k i (queue i msg m)
  unfolding mc_enqueue_message
  queue-IsLive_self k i msg m l =
      rw
        (at_address_self i
          (λ r. record r { msgchan = (mc_enqueue_message (m.store i).msgchan msg).0 }) m.store)
        (l.0, omega (arith, l.1))

  queue-IsLive_other :
      (k i j : ℕ) (msg : Message) (m : Master)
      → (j == i) ≡ false
      → IsLive k j m
      → IsLive k j (queue i msg m)
  queue-IsLive_other k i j msg m n l =
      rw
        (at_address_other i j
          (λ r. record r { msgchan = (mc_enqueue_message (m.store i).msgchan msg).0 }) m.store n)
        l

-- Two nodes in the middle of a switch, each with room for so many messages.
pub record Switching (start to : NodeRef) (g : Bool) (a b : ℕ) (m : Master) : Type 0 where
  pub focused : m.focused_node ≡ start
  pub grabs : grabbed m.effects ≡ g
  pub start_room : HasRoom a start m
  pub to_room : HasRoom b to m

less-HasRoom : (k : ℕ) (n : NodeRef) (m : Master) → HasRoom (suc k) n m → HasRoom k n m
less-HasRoom k master m r = r
less-HasRoom k (remote i) m r = (r.0, omega (arith, r.1))

store-HasRoom :
    (k : ℕ) (n : NodeRef) (m m' : Master) → m'.store ≡ m.store → HasRoom k n m → HasRoom k n m'
store-HasRoom k master m m' e r = r
store-HasRoom k (remote j) m m' e r =
    subst (λ s. (is_connected (s j).state ≡ true) × ((s j).msgchan.num_queued + k ≤ 64)) (sym e) r

-- What a change of neither a channel nor the focus leaves.
pub still-Switching :
    (start to : NodeRef) (g g' : Bool) (a b : ℕ) (m m' : Master)
    → m'.store ≡ m.store
    → m'.focused_node ≡ m.focused_node
    → grabbed m'.effects ≡ g'
    → Switching start to g a b m
    → Switching start to g' a b m'
still-Switching start to g g' a b m m' st f e s = record {
  focused = f ∙ s.focused;
  grabs = e;
  start_room = store-HasRoom a start m m' st s.start_room;
  to_room = store-HasRoom b to m m' st s.to_room;
}

module _ (h : Host) (start to : NodeRef) (g : Bool) (apart : same_node to start ≡ false) where
  abbrev Now : ℕ → ℕ → Master → Type 0
  Now a b m = Switching start to g a b m

  pub less_start : (a b : ℕ) (m : Master) → Now (suc a) b m → Now a b m
  less_start a b m s = record {
    focused = s.focused;
    grabs = s.grabs;
    start_room = less-HasRoom a start m s.start_room;
    to_room = s.to_room;
  }

  pub less_to : (a b : ℕ) (m : Master) → Now a (suc b) m → Now a b m
  less_to a b m s = record {
    focused = s.focused;
    grabs = s.grabs;
    start_room = s.start_room;
    to_room = less-HasRoom b to m s.to_room;
  }

  queue_to-HasRoom :
      (k i : ℕ) (n : NodeRef) (msg : Message) (m : Master)
      → same_node n (remote i) ≡ false
      → HasRoom k n m
      → HasRoom k n (queue i msg m)
  queue_to-HasRoom k i master msg m e r = r
  queue_to-HasRoom k i (remote j) msg m e r = queue-IsLive_other h k i j msg m e r

  -- A message to the one node, and to the other.
  pub to_start :
      (i : ℕ)
      → start ≡ remote i
      → (a b : ℕ) (msg : Message) (m : Master) → Now (suc a) b m
      → Now a b (enqueue_message h i msg m)
  to_start i e a b msg m s =
      let l : IsLive (suc a) i m = subst (λ n. HasRoom (suc a) n m) e s.start_room in
      subst (Now a b) (sym (enqueue_queue h a i msg m l)) record {
        focused = s.focused;
        grabs = s.grabs;
        start_room =
            subst (λ n. HasRoom a n (queue i msg m)) (sym e) (queue-IsLive_self h a i msg m l);
        to_room = queue_to-HasRoom b i to msg m (sym (ap (same_node to) e) ∙ apart) s.to_room;
      }

  same_node_sym : (n k : NodeRef) → same_node n k ≡ same_node k n
  same_node_sym master master = refl
  same_node_sym master (remote i) = refl
  same_node_sym (remote i) master = refl
  same_node_sym (remote i) (remote j) = ground arith

  pub to_target :
      (j : ℕ)
      → to ≡ remote j
      → (a b : ℕ) (msg : Message) (m : Master) → Now a (suc b) m
      → Now a b (enqueue_message h j msg m)
  to_target j e a b msg m s =
      let l : IsLive (suc b) j m = subst (λ n. HasRoom (suc b) n m) e s.to_room in
      subst (Now a b) (sym (enqueue_queue h b j msg m l)) record {
        focused = s.focused;
        grabs = s.grabs;
        start_room =
            queue_to-HasRoom a j start msg m
              (ap (same_node start) (sym e) ∙ same_node_sym start to ∙ apart) s.start_room;
        to_room =
            subst (λ n. HasRoom b n (queue j msg m)) (sym e) (queue-IsLive_self h b j msg m l);
      }
