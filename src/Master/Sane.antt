-- ===== src/Master/Sane.antt =====
-- main.c: what holds of the focus between events, and the operations that keep it whatever happens.
use enthrall.Prelude.{
  ℕ, ◌==◌, ◌≡◌, refl, sym, ap, ◌∙◌, Bool, true, false, arith, Bool-cases, inl, inr, ==_iff,
}
use enthrall.Message.{Message}
use enthrall.Msgchan.{mc_enqueue_message}
use enthrall.Master.{
  NodeRef, master, remote, same_node, Remote, is_connected, at_address, Host, Master, with_remote,
}
use enthrall.Master.Remotes.{disconnect_remote, fail_remote, check_backlog, enqueue_message}
use enthrall.Master.Showing.{grabbed}
use enthrall.Master.Failing.{at_address_other, FocusAfter, fail-Fails, disconnect-Disconnects, cut}

abbrev pub is_remote : NodeRef → Bool
is_remote master = false
is_remote (remote i) = true

-- A remote that has the focus is connected, and the platform was last asked to grab the inputs, and not
-- to release them, just when a remote has it.
pub record IsSane (m : Master) : Type 0 where
  pub live : (i : ℕ) → m.focused_node ≡ remote i → is_connected (m.store i).state ≡ true
  pub grabs : grabbed m.effects ≡ is_remote m.focused_node

pub same_node_remote : (i j : ℕ) → same_node (remote i) (remote j) ≡ true → i ≡ j
same_node_remote i j e = (==_iff i j).0 e

-- A state in which only remotes without the focus have changed, other than their structures' rest.
pub moved-IsSane :
    (b : Bool) (i : ℕ) (m m' : Master)
    → same_node (remote i) m.focused_node ≡ b
    → ((j : ℕ) → (j == i) ≡ false → (m'.store j).state ≡ (m.store j).state)
    → FocusAfter b m m'
    → IsSane m
    → IsSane m'
moved-IsSane true i m m' e o f s = record {
  live = λ j q. not_master j (sym f.0 ∙ q);
  grabs = f.1 ∙ sym (ap is_remote f.0);
}
  where
    not_master : (j : ℕ) → master ≡ remote j → is_connected (m'.store j).state ≡ true
    not_master j q = cc
moved-IsSane false i m m' e o f s = record {
  live = λ j q.
      let p : m.focused_node ≡ remote j = sym f.0 ∙ q in
      ap is_connected (o j (other j (sym (ap (same_node (remote i)) p) ∙ e))) ∙ s.live j p;
  grabs = f.1 ∙ s.grabs ∙ sym (ap is_remote f.0);
}
  where
    other : (j : ℕ) → (i == j) ≡ false → (j == i) ≡ false
    other j n = ground arith

-- Operations that leave the focus and the effects alone, and every state but that of a remote without
-- the focus.
pub quietly-IsSane :
    (i : ℕ) (f : Remote → Remote) (m m' : Master)
    → same_node (remote i) m.focused_node ≡ false
    → m'.store ≡ at_address i f m.store
    → FocusAfter false m m'
    → IsSane m
    → IsSane m'
quietly-IsSane i f m m' e st fo s =
    moved-IsSane false i m m' e
      (λ j n. ap (λ r. r.state) (ap (λ x. x j) st ∙ at_address_other i j f m.store n)) fo s

-- Operations that leave every state alone.
pub states-IsSane :
    (m m' : Master)
    → ((j : ℕ) → (m'.store j).state ≡ (m.store j).state)
    → m'.focused_node ≡ m.focused_node
    → grabbed m'.effects ≡ grabbed m.effects
    → IsSane m
    → IsSane m'
states-IsSane m m' o f g s = record {
  live = λ j q. ap is_connected (o j) ∙ s.live j (sym f ∙ q);
  grabs = g ∙ s.grabs ∙ sym (ap is_remote f);
}

-- An update that keeps the state.
pub same_states :
    (i : ℕ) (f : Remote → Remote) (store : ℕ → Remote)
    → ((r : Remote) → (f r).state ≡ r.state)
    → (j : ℕ) → (at_address i f store j).state ≡ (store j).state
same_states i f store k j = elim (Bool-cases (j == i)) [
  | inl t ↦ rw t (k (store j))
  | inr n ↦ rw n refl
]

module _ (h : Host) where
  pub fail-IsSane : (i : ℕ) (m : Master) → IsSane m → IsSane (fail_remote h i m)
  fail-IsSane i m s =
      let d = fail-Fails h i m in
      moved-IsSane (same_node (remote i) m.focused_node) i m (fail_remote h i m) refl
        (λ j n. ap (λ r. r.state) (d.others j n)) d.focus s

  pub disconnect-IsSane : (i : ℕ) (m : Master) → IsSane m → IsSane (disconnect_remote h i m)
  disconnect-IsSane i m s =
      let d = disconnect-Disconnects h i m in
      moved-IsSane (same_node (remote i) m.focused_node) i m (disconnect_remote h i m) refl
        (λ j n.
          ap (λ x. (x j).state) d.stored ∙ ap (λ r. r.state) (at_address_other i j cut m.store n))
        d.focus s

  pub enqueue-IsSane :
      (i : ℕ) (msg : Message) (m : Master) → IsSane m → IsSane (enqueue_message h i msg m)
  unfolding enqueue_message
  enqueue-IsSane i msg m s =
      let r = mc_enqueue_message (m.store i).msgchan msg in
      checked r.1 (with_remote i (λ rmt. record rmt { msgchan = r.0 }) m) (
        states-IsSane m _ (same_states i (λ rmt. record rmt { msgchan = r.0 }) m.store (λ r. refl))
          refl refl s)
    where
      checked : (b : Bool) (m : Master) → IsSane m → IsSane (check_backlog h b i m)
      checked false m s = s
      checked true m s = fail-IsSane i m s
