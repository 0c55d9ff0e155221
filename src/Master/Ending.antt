-- ===== src/Master/Ending.antt =====
-- main.c: what becomes of the child processes when the program ends.
use enthrall.Prelude.{
  ℕ, ◌==◌, ◌≡◌, refl, sym, ap, ◌∙◌, subst, Bool, true, false, Option, none, some, List, [], ◌∷◌,
  ◌++◌, append_assoc, Bool-cases, inl, inr, ◌⊎◌, if◌then◌else◌, All, All-map, ==_iff,
}
use enthrall.Master.{
  Connstate, cs_connected, cs_settingup, cs_new, cs_failed, cs_permfailed, Host, Master,
}
use enthrall.Master.Remotes.{disconnect_remote}
use enthrall.Master.Actions.{shut_down, shutdown_master, is_live}
use enthrall.Master.Showing.{killings}
use enthrall.Master.Failing.{child_of, disconnect-Disconnects}
use enthrall.Master.Acting.{round, round_state, shut-All}

-- The child is among these.
abbrev pub IsAmong : Option ℕ → List ℕ → Type 0
IsAmong none pids = Unit {0}
IsAmong (some pid) [] = ⊥
IsAmong (some pid) (p ∷ pids) = (pid ≡ p) ⊎ IsAmong (some pid) pids

left-IsAmong : (o : Option ℕ) (ps qs : List ℕ) → IsAmong o ps → IsAmong o (ps ++ qs)
left-IsAmong none ps qs a = tt
left-IsAmong (some p) [] qs a = absurd a
left-IsAmong (some p) (q ∷ ps) qs (inl e) = inl e
left-IsAmong (some p) (q ∷ ps) qs (inr a) = inr (left-IsAmong (some p) ps qs a)

right-IsAmong : (o : Option ℕ) (ps qs : List ℕ) → IsAmong o qs → IsAmong o (ps ++ qs)
right-IsAmong none ps qs a = tt
right-IsAmong (some p) [] qs a = a
right-IsAmong (some p) (q ∷ ps) qs a = inr (right-IsAmong (some p) ps qs a)

child-IsAmong : (o : Option ℕ) → IsAmong o (child_of o)
child-IsAmong none = tt
child-IsAmong (some p) = inl refl

-- A remote that was connected or being set up has its child among those that were killed, and none left.
abbrev pub IsEnded : Connstate → (pid pid' : Option ℕ) → List ℕ → Type 0
IsEnded cs_connected pid pid' pids = (pid' ≡ none) × IsAmong pid pids
IsEnded cs_settingup pid pid' pids = (pid' ≡ none) × IsAmong pid pids
IsEnded cs_new pid pid' pids = Unit {0}
IsEnded cs_failed pid pid' pids = Unit {0}
IsEnded cs_permfailed pid pid' pids = Unit {0}

module _ (h : Host) where
  live-IsEnded :
      (s : Connstate) (pid pid' : Option ℕ) (pids : List ℕ)
      → (is_live h s ≡ true → pid' ≡ none)
      → (is_live h s ≡ true → IsAmong pid pids)
      → IsEnded s pid pid' pids
  live-IsEnded cs_connected pid pid' pids e a = (e refl, a refl)
  live-IsEnded cs_settingup pid pid' pids e a = (e refl, a refl)
  live-IsEnded cs_new pid pid' pids e a = tt
  live-IsEnded cs_failed pid pid' pids e a = tt
  live-IsEnded cs_permfailed pid pid' pids e a = tt

  -- What a round of the loop kills, and that a child is only forgotten when it is killed.
  record Rounds (i : ℕ) (m m' : Master) : Type 0 where
    pids : List ℕ
    killed : killings m'.effects ≡ pids ++ killings m.effects
    own : is_live h (m.store i).state ≡ true → IsAmong (m.store i).sshpid pids
    others : (j : ℕ) → ((m'.store j).sshpid ≡ (m.store j).sshpid) ⊎ IsAmong (m.store j).sshpid pids

  round-Rounds : (i : ℕ) (m : Master) → Rounds i m (round h i m)
  round-Rounds i m = by_live (is_live h (m.store i).state) refl
    where
      cut_pid :
          (j : ℕ)
          → (((disconnect_remote h i m).store j).sshpid ≡ (m.store j).sshpid)
            ⊎ IsAmong (m.store j).sshpid (child_of (m.store i).sshpid)
      cut_pid j = elim (Bool-cases (j == i)) [
        | inl t ↦ inr (
            subst (λ k. IsAmong (m.store j).sshpid (child_of (m.store k).sshpid)) ((==_iff j i).0 t)
              (child-IsAmong (m.store j).sshpid))
        | inr f ↦ inl (ap (λ x. (x j).sshpid) (disconnect-Disconnects h i m).stored ∙ rw f refl)
      ]

      by_live :
          (b : Bool)
          → is_live h (m.store i).state ≡ b
          → Rounds i m (if b then disconnect_remote h i m else m)
      by_live true e = record {
        pids = child_of (m.store i).sshpid;
        killed = (disconnect-Disconnects h i m).killed;
        own = λ _. child-IsAmong (m.store i).sshpid;
        others = cut_pid;
      }
      by_live false e = record {
        pids = [];
        killed = refl;
        own = λ t. absurd (cc (e, t));
        others = λ j. inl refl;
      }

  -- What the whole loop kills.
  record Kills (is : List ℕ) (m m' : Master) : Type 0 where
    pids : List ℕ
    killed : killings m'.effects ≡ pids ++ killings m.effects
    each : All (λ j. is_live h (m.store j).state ≡ true → IsAmong (m.store j).sshpid pids) is

  shut-Kills : (is : List ℕ) (m : Master) → Kills is m (shut_down h is m)
  shut-Kills [] m = record { pids = []; killed = refl; each = tt }
  shut-Kills (i ∷ rest) m =
      let r = round-Rounds i m in
      let k = shut-Kills rest (round h i m) in
      record {
        pids = k.pids ++ r.pids;
        killed =
            k.killed
            ∙ ap (◌++◌ k.pids) r.killed
            ∙ sym (append_assoc k.pids r.pids (killings m.effects));
        each = (
          λ l. right-IsAmong (m.store i).sshpid k.pids r.pids (r.own l),
          All-map
              (λ j met l. elim (r.others j) [
                | inl e ↦ left-IsAmong (m.store j).sshpid k.pids r.pids (
                    subst (λ o. IsAmong o k.pids) e
                      (met (ap (is_live h) (round_state h i m j) ∙ l)))
                | inr a ↦ right-IsAmong (m.store j).sshpid k.pids r.pids a
              ])
              rest k.each,
        );
      }

  All-IsEnded :
      (is : List ℕ) (m m' : Master) (pids : List ℕ)
      → All (λ j. is_live h (m.store j).state ≡ true → (m'.store j).sshpid ≡ none) is
      → All (λ j. is_live h (m.store j).state ≡ true → IsAmong (m.store j).sshpid pids) is
      → All (λ j. IsEnded (m.store j).state (m.store j).sshpid (m'.store j).sshpid pids) is
  All-IsEnded [] m m' pids a b = tt
  All-IsEnded (i ∷ rest) m m' pids a b = (
    live-IsEnded (m.store i).state (m.store i).sshpid (m'.store i).sshpid pids a.0 b.0,
    All-IsEnded rest m m' pids a.1 b.1,
  )

  -- When the master has shut down, its list of remotes is empty; and the child of each remote of it that
  -- was connected or being set up has been killed and waited for, and its pid is forgotten.
  pub shutdown-IsEnded :
      (m : Master)
      → (pids : List ℕ) × (killings (shutdown_master h m).effects ≡ pids ++ killings m.effects)
        × All
            (λ j.
              IsEnded
                (m.store j).state
                (m.store j).sshpid
                ((shutdown_master h m).store j).sshpid
                pids)
            m.remotes
        × ((shutdown_master h m).remotes ≡ [])
  unfolding shutdown_master
  shutdown-IsEnded m =
      let k = shut-Kills m.remotes m in
      (
        k.pids,
        k.killed,
        All-IsEnded m.remotes m (shut_down h m.remotes m) k.pids (shut-All h m.remotes m) k.each,
        emptied m.remotes m,
      )
    where
      emptied : (is : List ℕ) (m : Master) → (shut_down h is m).remotes ≡ []
      emptied [] m = refl
      emptied (i ∷ rest) m = emptied rest (round h i m)
