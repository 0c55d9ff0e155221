-- ===== src/RemoteSide/Replies.antt =====
-- remote.c: what goes back to the master, log lines apart, and what the platform is told.
use enthrall.Prelude.{
  ℕ, ◌+◌, ◌≤◌, ◌≡◌, refl, ◌∙◌, ltb, leb, min, Text, Bool, true, false, List, [], ◌∷◌, ◌++◌, arith,
  Bool-cases, inl, inr, if◌then◌else◌,
}
use enthrall.Message.{
  Msgbody, setup, ready, moverel, moveabs, mousepos, clickevent, keyevent, getclipboard,
  setclipboard, logmsg, setbrightness, setloglevel, Message, new_message,
}
use enthrall.Msgchan.{mc_enqueue_message}
use enthrall.RemoteSide.{Host, Session, mlog, set_level, set_loglevel}

abbrev pub is_log : Msgbody → Bool
is_log (logmsg t) = true
is_log (setup v l kvs) = false
is_log (ready r) = false
is_log (moverel dx dy) = false
is_log (moveabs pt) = false
is_log (mousepos pt) = false
is_log (clickevent b pr) = false
is_log (keyevent k pr) = false
is_log getclipboard = false
is_log (setclipboard t) = false
is_log (setbrightness f) = false
is_log (setloglevel l) = false

-- The bodies in a queue that are not lines of the log.
abbrev pub replies : List Message → List Msgbody
replies [] = []
replies (m ∷ ms) = if is_log m.body then replies ms else m.body ∷ replies ms

replies_snoc_log :
    (ms : List Message) (t : Text) → replies (ms ++ (new_message (logmsg t) ∷ [])) ≡ replies ms
replies_snoc_log [] t = refl
replies_snoc_log (m ∷ ms) t = rw (replies_snoc_log ms t) refl

pub replies_snoc :
    (ms : List Message) (b : Msgbody)
    → is_log b ≡ false
    → replies (ms ++ (new_message b ∷ [])) ≡ replies ms ++ (b ∷ [])
replies_snoc [] b e = rw e refl
replies_snoc (m ∷ ms) b e = elim (Bool-cases (is_log m.body)) [
  | inl t ↦ rw (t, replies_snoc ms b e) refl
  | inr f ↦ rw (f, replies_snoc ms b e) refl
]

-- Up to `n` lines of the log were added, and nothing else happened.
pub record Logs (n : ℕ) (s s' : Session) : Type 0 where
  pub kept : replies s'.stdio_msgchan.queue ≡ replies s.stdio_msgchan.queue
  pub grown : s'.stdio_msgchan.num_queued ≤ s.stdio_msgchan.num_queued + n
  pub performed : s'.effects ≡ s.effects
  pub running : s'.exited ≡ s.exited
  pub started : s'.initialized ≡ s.initialized

pub no_Logs : (n : ℕ) (s : Session) → Logs n s s
no_Logs n s = record {
  kept = refl;
  grown = omega arith;
  performed = refl;
  running = refl;
  started = refl;
}

pub mlog-Logs : (level : ℕ) (t : Text) (s : Session) → Logs 1 s (mlog level t s)
unfolding mlog mc_enqueue_message
mlog-Logs level t s = elim (Bool-cases (ltb s.loglevel level)) [
  | inl e ↦ rw e (no_Logs 1 s)
  | inr e ↦ rw e (record {
    kept = replies_snoc_log s.stdio_msgchan.queue t;
    grown = omega arith;
    performed = refl;
    running = refl;
    started = refl;
  })
]

pub join-Logs : (n k : ℕ) (s s' s'' : Session) → Logs n s s' → Logs k s' s'' → Logs (n + k) s s''
join-Logs n k s s' s'' a b = record {
  kept = b.kept ∙ a.kept;
  grown = omega (arith, a.grown, b.grown);
  performed = b.performed ∙ a.performed;
  running = b.running ∙ a.running;
  started = b.started ∙ a.started;
}

level-Logs : (level : ℕ) (s : Session) → Logs 1 s (set_level level s)
level-Logs level s =
    let l = mlog-Logs 0 _ (record s { loglevel = level }) in
    record {
      kept = l.kept;
      grown = l.grown;
      performed = l.performed;
      running = l.running;
      started = l.started;
    }

pub loglevel-Logs : (h : Host) (level : ℕ) (s : Session) → Logs 2 s (set_loglevel h level s)
unfolding set_loglevel
loglevel-Logs h level s = elim (Bool-cases (leb 8 level)) [
  | inl e ↦ rw e (join-Logs 1 1 s _ _ (mlog-Logs 1 _ s) (level-Logs 7 _))
  | inr e ↦ rw e (join-Logs 1 1 s s _ (no_Logs 1 s) (level-Logs level s))
]

-- A line of the log leaves the level.
pub mlog-loglevel : (level : ℕ) (t : Text) (s : Session) → (mlog level t s).loglevel ≡ s.loglevel
unfolding mlog
mlog-loglevel level t s = elim (Bool-cases (ltb s.loglevel level)) [
  | inl e ↦ rw e refl
  | inr e ↦ rw e refl
]

-- The level is set, the highest of them where it is too high.
pub set_loglevel_lem :
    (h : Host) (level : ℕ) (s : Session) → (set_loglevel h level s).loglevel ≡ min level 7
unfolding set_loglevel
set_loglevel_lem h level s = elim (Bool-cases (leb 8 level)) [
  | inl e ↦ rw e (mlog-loglevel 0 _ _ ∙ high level e)
  | inr e ↦ rw e (mlog-loglevel 0 _ _ ∙ low level e)
]
  where
    high : (n : ℕ) → leb 8 n ≡ true → 7 ≡ min n 7
    high n e = ground arith

    low : (n : ℕ) → leb 8 n ≡ false → n ≡ min n 7
    low n e = ground arith
