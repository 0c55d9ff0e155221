-- ===== src/Master/Failing.antt =====
-- main.c: what is left of a remote that fails, and where the focus is then.
use enthrall.Prelude.{
  ℕ, ◌+◌, ◌==◌, ◌≡◌, refl, ap, ◌∙◌, ltb, Bool, true, false, Option, none, some, List, [], ◌∷◌, ◌++◌,
  Bool-cases, ◌⊎◌, inl, inr, ==_iff,
}
use enthrall.Msgchan.{mc_close}
use enthrall.Timer.{ScheduledCall, insert_call, schedule_call}
use enthrall.Master.{
  master, remote, same_node, Remote, cs_failed, cs_permfailed, at_address, reconnect_remote_cb,
  Host, Master, with_remote, Callback,
}
use enthrall.Master.Remotes.{
  close_all, kill_child, drop_connection, focus_back, disconnect_remote, after_failure, fail_remote,
}
use enthrall.Master.Showing.{grabbed, killings, focus_master-FocusesMaster}

pub at_address_self :
    (i : ℕ) (f : Remote → Remote) (store : ℕ → Remote) → at_address i f store i ≡ f (store i)
at_address_self i f store = rw ((==_iff i i).1 refl) refl

pub at_address_other :
    (i j : ℕ) (f : Remote → Remote) (store : ℕ → Remote)
    → (j == i) ≡ false
    → at_address i f store j ≡ store j
at_address_other i j f store n = rw n refl

at_address_twice :
    (i j : ℕ) (f g : Remote → Remote) (store : ℕ → Remote)
    → at_address i f (at_address i g store) j ≡ at_address i (λ r. f (g r)) store j
at_address_twice i j f g store = elim (Bool-cases (j == i)) [
  | inl t ↦ rw t refl
  | inr n ↦ rw n refl
]

-- Where the focus is after a disconnection, by whether it was on the remote.
abbrev pub FocusAfter : Bool → Master → Master → Type 0
FocusAfter true m m' = (m'.focused_node ≡ master) × (grabbed m'.effects ≡ false)
FocusAfter false m m' =
    (m'.focused_node ≡ m.focused_node) × (grabbed m'.effects ≡ grabbed m.effects)

abbrev pub cut : Remote → Remote
cut r = record r { sshpid = none; msgchan = (mc_close r.msgchan).0 }

close-grabbed :
    (h : Host) (fds : List ℕ) (m : Master)
    → ((close_all h fds m).store ≡ m.store)
      × ((close_all h fds m).focused_node ≡ m.focused_node)
      × (grabbed (close_all h fds m).effects ≡ grabbed m.effects)
      × (killings (close_all h fds m).effects ≡ killings m.effects)
close-grabbed h [] m = (refl, refl, refl, refl)
close-grabbed h (fd ∷ fds) m = close-grabbed h fds _

-- The child, if there is one.
abbrev pub child_of : Option ℕ → List ℕ
child_of none = []
child_of (some pid) = pid ∷ []

kill-grabbed :
    (h : Host) (pid : Option ℕ) (m : Master)
    → ((kill_child h pid m).store ≡ m.store)
      × ((kill_child h pid m).focused_node ≡ m.focused_node)
      × (grabbed (kill_child h pid m).effects ≡ grabbed m.effects)
      × (killings (kill_child h pid m).effects ≡ child_of pid ++ killings m.effects)
kill-grabbed h none m = (refl, refl, refl, refl)
kill-grabbed h (some pid) m = (refl, refl, refl, refl)

-- A call on the list, by its id and what it does.
abbrev pub Pending : ℕ → Callback → List (ScheduledCall Callback) → Type 0
Pending t cb [] = ⊥
Pending t cb (c ∷ rest) = ((c.id ≡ t) × (c.action ≡ cb)) ⊎ Pending t cb rest

insert-Pending :
    (new : ScheduledCall Callback) (calls : List (ScheduledCall Callback))
    → Pending new.id new.action (insert_call new calls)
unfolding insert_call
insert-Pending new [] = inl (refl, refl)
insert-Pending new (c ∷ rest) = elim (Bool-cases (ltb new.calltime c.calltime)) [
  | inl t ↦ rw t (inl (refl, refl))
  | inr f ↦ rw f (inr (insert-Pending new rest))
]

-- Where a remote is left by its failure, by whether it has failed more often than it may.
abbrev pub Left : Bool → ℕ → Master → Type 0
Left true i m = (m.store i).state ≡ cs_permfailed
Left false i m =
    ((m.store i).state ≡ cs_failed)
    × ((t : ℕ) × ((m.store i).reconnect_timer ≡ some t) × Pending t (reconnect_remote_cb i) m.calls)

module _ (h : Host) where
  -- What `disconnect_remote` does.
  pub record Disconnects (i : ℕ) (m m' : Master) : Type 0 where
    pub stored : m'.store ≡ at_address i cut m.store
    pub focus : FocusAfter (same_node (remote i) m.focused_node) m m'
    pub killed : killings m'.effects ≡ child_of (m.store i).sshpid ++ killings m.effects

  drop-Drops :
      (i : ℕ) (m : Master)
      → ((drop_connection h i m).store ≡ at_address i cut m.store)
        × FocusAfter false m (drop_connection h i m)
        × (killings (drop_connection h i m).effects
            ≡ child_of (m.store i).sshpid ++ killings m.effects)
  unfolding drop_connection
  drop-Drops i m =
      let c = close-grabbed h (mc_close (m.store i).msgchan).1 m in
      let k = kill-grabbed h (m.store i).sshpid (close_all h (mc_close (m.store i).msgchan).1 m) in
      (
        ap (at_address i cut) (k.0 ∙ c.0),
        (k.1 ∙ c.1, k.2 ∙ c.2),
        k.3 ∙ ap (◌++◌ (child_of (m.store i).sshpid)) c.3,
      )

  pub disconnect-Disconnects : (i : ℕ) (m : Master) → Disconnects i m (disconnect_remote h i m)
  unfolding disconnect_remote
  disconnect-Disconnects i m =
      let d = back (same_node (remote i) m.focused_node) m (drop-Drops i m) in
      record { stored = d.0; focus = d.1; killed = d.2 }
    where
      back :
          (b : Bool) (m : Master)
          → ((drop_connection h i m).store ≡ at_address i cut m.store)
            × FocusAfter false m (drop_connection h i m)
            × (killings (drop_connection h i m).effects
                ≡ child_of (m.store i).sshpid ++ killings m.effects)
          → ((focus_back h b (drop_connection h i m)).store ≡ at_address i cut m.store)
            × FocusAfter b m (focus_back h b (drop_connection h i m))
            × (killings (focus_back h b (drop_connection h i m)).effects
                ≡ child_of (m.store i).sshpid ++ killings m.effects)
      back false m d = d
      back true m d =
          let f = focus_master-FocusesMaster h (drop_connection h i m) in
          (f.stored ∙ d.0, (f.focused, f.released), f.killed ∙ d.2)

  pub record Fails (i : ℕ) (m m' : Master) : Type 0 where
    pub others : (j : ℕ) → (j == i) ≡ false → m'.store j ≡ m.store j
    pub gone : (m'.store i).sshpid ≡ none
    pub killed : killings m'.effects ≡ child_of (m.store i).sshpid ++ killings m.effects
    pub counted : (m'.store i).failcount ≡ (m.store i).failcount + 1
    pub left : Left (ltb h.config.max_tries ((m.store i).failcount + 1)) i m'
    pub focus : FocusAfter (same_node (remote i) m.focused_node) m m'

  -- What holds of the remote's structure before its state is set.
  abbrev Counted : ℕ → Master → Master → Type 0
  Counted i m m' =
      ((j : ℕ)
        → m'.store j ≡ at_address i (λ r. record (cut r) { failcount = r.failcount + 1 }) m.store j)
      × FocusAfter (same_node (remote i) m.focused_node) m m'
      × (killings m'.effects ≡ child_of (m.store i).sshpid ++ killings m.effects)

  focus_move :
      (b : Bool) (m m' m'' : Master)
      → m''.focused_node ≡ m'.focused_node
      → grabbed m''.effects ≡ grabbed m'.effects
      → FocusAfter b m m'
      → FocusAfter b m m''
  focus_move true m m' m'' e g f = (e ∙ f.0, g ∙ f.1)
  focus_move false m m' m'' e g f = (e ∙ f.0, g ∙ f.1)

  abbrev counted : Remote → Remote
  counted r = record (cut r) { failcount = r.failcount + 1 }

  tally_self : (i : ℕ) (m m' : Master) → Counted i m m' → m'.store i ≡ counted (m.store i)
  tally_self i m m' c = c.0 i ∙ at_address_self i counted m.store

  tally_other :
      (i j : ℕ) (m m' : Master) → Counted i m m' → (j == i) ≡ false → m'.store j ≡ m.store j
  tally_other i j m m' c n = c.0 j ∙ at_address_other i j counted m.store n

  abbrev count_failure : ℕ → Master → Master
  count_failure i m = with_remote i (λ r. record r { failcount = r.failcount + 1 }) m

  after-Fails :
      (b : Bool) (i : ℕ) (m m' : Master)
      → ltb h.config.max_tries ((m.store i).failcount + 1) ≡ b
      → Counted i m m'
      → Fails i m (after_failure h b i m')
  unfolding schedule_call
  after-Fails true i m m' e c =
      let F : Remote → Remote = λ r. record r { state = cs_permfailed } in
      let r = at_address_self i F m'.store ∙ ap F (tally_self i m m' c) in
      record {
        others = λ j n. at_address_other i j F m'.store n ∙ tally_other i j m m' c n;
        gone = ap (λ x. x.sshpid) r;
        killed = c.2;
        counted = ap (λ x. x.failcount) r;
        left = rw e (ap (λ x. x.state) r);
        focus = focus_move (same_node (remote i) m.focused_node) m m' _ refl refl c.1;
      }
  after-Fails false i m m' e c =
      let F : Remote → Remote =
        λ r. record r { state = cs_failed; reconnect_timer = some m'.answers } in
      let r = at_address_self i F m'.store ∙ ap F (tally_self i m m' c) in
      record {
        others = λ j n. at_address_other i j F m'.store n ∙ tally_other i j m m' c n;
        gone = ap (λ x. x.sshpid) r;
        killed = c.2;
        counted = ap (λ x. x.failcount) r;
        left = rw e (
          ap (λ x. x.state) r,
          (m'.answers, ap (λ x. x.reconnect_timer) r, insert-Pending _ m'.calls),
        );
        focus = focus_move (same_node (remote i) m.focused_node) m m' _ refl refl c.1;
      }

  -- The child process of a remote that fails is killed and waited for, if it has one, and no other is; its
  -- pid is forgotten, and the remote has one failure more. It is given up when it has
  -- failed more often than the configuration allows; otherwise its timer is that of a call on the list
  -- which will reconnect it. If the focus was on it, the master has the focus, with the inputs
  -- released; otherwise the focus and the grab stay. No other remote is touched.
  pub fail-Fails : (i : ℕ) (m : Master) → Fails i m (fail_remote h i m)
  unfolding fail_remote
  fail-Fails i m =
      let d = disconnect-Disconnects i m in
      let c : Counted i m (count_failure i (disconnect_remote h i m)) = (
        λ j.
            ap (λ s. at_address i (λ r. record r { failcount = r.failcount + 1 }) s j) d.stored
            ∙ at_address_twice i j (λ r. record r { failcount = r.failcount + 1 }) cut m.store,
        focus_move (same_node (remote i) m.focused_node) m (disconnect_remote h i m) _ refl refl
            d.focus,
        d.killed,
      ) in
      let e : ltb h.config.max_tries ((count_failure i (disconnect_remote h i m)).store i).failcount
          ≡ ltb h.config.max_tries ((m.store i).failcount + 1) =
        ap (λ r. ltb h.config.max_tries r.failcount) (tally_self i m _ c) in
      rw e (after-Fails _ i m _ refl c)
