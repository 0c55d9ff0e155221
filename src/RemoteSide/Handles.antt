-- ===== src/RemoteSide/Handles.antt =====
-- remote.c: every request is carried out and answered, and a message out of place ends the process.
use enthrall.Prelude.{
  ℕ, ◌+◌, ◌==◌, ◌≤◌, ◌≡◌, refl, sym, ap, ◌∙◌, subst, ltb, min, codes, Bool, true, false, List, [],
  ◌∷◌, ◌++◌, append-nil, arith, Bool-cases, inl, inr, if◌then◌else◌,
}
use enthrall.Message.{
  Msgbody, setup, ready, moverel, moveabs, mousepos, clickevent, keyevent, getclipboard,
  setclipboard, logmsg, setbrightness, setloglevel, new_message, msgtype, msgtype_name,
}
use enthrall.Msgchan.{mc_enqueue_message}
use enthrall.RemoteSide.{
  Effect, moves_mousepos, sets_mousepos, does_clickevent, does_keyevent, sets_clipboard,
  sets_display_brightness, Host, Session, perform, mlog, enqueue_message, handle_message, dispatch,
  mc_read_cb,
}
use enthrall.RemoteSide.Replies.{
  is_log, replies, replies_snoc, Logs, no_Logs, mlog-Logs, loglevel-Logs, mlog-loglevel,
  set_loglevel_lem,
}

module _ (h : Host) where
  -- What a remote that is set up answers to a request, if anything, by the effects before.
  abbrev pub answer : Msgbody → List Effect → List Msgbody
  answer (moverel dx dy) es = mousepos (h.get_mousepos (moves_mousepos dx dy ∷ es)) ∷ []
  answer getclipboard es = setclipboard (h.get_clipboard_text es) ∷ []
  answer (moveabs pt) es = []
  answer (clickevent b pr) es = []
  answer (keyevent k pr) es = []
  answer (setclipboard t) es = []
  answer (setbrightness f) es = []
  answer (setloglevel l) es = []
  answer (setup v l kvs) es = []
  answer (ready dim) es = []
  answer (mousepos pt) es = []
  answer (logmsg t) es = []

  -- What the platform is asked to do.
  abbrev pub order : Msgbody → List Effect
  order (moverel dx dy) = moves_mousepos dx dy ∷ []
  order (moveabs pt) = sets_mousepos pt ∷ []
  order (clickevent b pr) = does_clickevent b pr ∷ []
  order (keyevent k pr) = does_keyevent k pr ∷ []
  order (setclipboard t) = sets_clipboard t ∷ []
  order (setbrightness f) = sets_display_brightness f ∷ []
  order getclipboard = []
  order (setloglevel l) = []
  order (setup v l kvs) = []
  order (ready dim) = []
  order (mousepos pt) = []
  order (logmsg t) = []

  abbrev pub is_request : Msgbody → Bool
  is_request (moverel dx dy) = true
  is_request (moveabs pt) = true
  is_request (clickevent b pr) = true
  is_request (keyevent k pr) = true
  is_request getclipboard = true
  is_request (setclipboard t) = true
  is_request (setbrightness f) = true
  is_request (setloglevel l) = true
  is_request (setup v l kvs) = false
  is_request (ready dim) = false
  is_request (mousepos pt) = false
  is_request (logmsg t) = false

  -- The level of the log that is to be in force then.
  abbrev pub level_after : Msgbody → ℕ → ℕ
  level_after (setloglevel l) level = min l 7
  level_after (moverel dx dy) level = level
  level_after (moveabs pt) level = level
  level_after (clickevent b pr) level = level
  level_after (keyevent k pr) level = level
  level_after (setclipboard t) level = level
  level_after (setbrightness f) level = level
  level_after getclipboard level = level
  level_after (setup v l kvs) level = level
  level_after (ready dim) level = level
  level_after (mousepos pt) level = level
  level_after (logmsg t) level = level

  pub record Handles (body : Msgbody) (s s' : Session) : Type 0 where
    pub replied :
        replies s'.stdio_msgchan.queue ≡ replies s.stdio_msgchan.queue ++ answer body s.effects
    pub ordered : s'.effects ≡ order body ++ s.effects
    pub levelled : s'.loglevel ≡ level_after body s.loglevel
    pub running : s'.exited ≡ s.exited
    pub started : s'.initialized ≡ s.initialized

  -- What `enqueue_message` does where the queue has room.
  pub record Queues (b : Msgbody) (s s' : Session) : Type 0 where
    pub queued : replies s'.stdio_msgchan.queue ≡ replies s.stdio_msgchan.queue ++ (b ∷ [])
    pub performed : s'.effects ≡ s.effects
    pub levelled : s'.loglevel ≡ s.loglevel
    pub running : s'.exited ≡ s.exited
    pub started : s'.initialized ≡ s.initialized

  pub enqueue-Queues :
      (b : Msgbody) (s : Session)
      → is_log b ≡ false
      → s.stdio_msgchan.num_queued + 1 ≤ 64
      → Queues b s (enqueue_message h (new_message b) s)
  unfolding enqueue_message mc_enqueue_message
  enqueue-Queues b s e r =
      let f : ltb 64 (s.stdio_msgchan.num_queued + 1) ≡ false = ground arith in
      rw f (record {
        queued = replies_snoc s.stdio_msgchan.queue b e;
        performed = refl;
        levelled = refl;
        running = refl;
        started = refl;
      })

  -- An order that is not answered.
  performs :
      (body : Msgbody) (e : Effect) (s : Session)
      → answer body s.effects ≡ []
      → order body ≡ e ∷ []
      → level_after body s.loglevel ≡ s.loglevel
      → Handles body s (perform e s)
  performs body e s a o l = record {
    replied = rw a (sym (append-nil _));
    ordered = rw o refl;
    levelled = sym l;
    running = refl;
    started = refl;
  }

  handle-Handles :
      (body : Msgbody) (s : Session)
      → is_request body ≡ true
      → s.stdio_msgchan.num_queued + 1 ≤ 64
      → Handles body s (handle_message h body s)
  unfolding handle_message
  handle-Handles (moverel dx dy) s q r =
      let s' = perform (moves_mousepos dx dy) s in
      let k = enqueue-Queues (mousepos (h.get_mousepos s'.effects)) s' refl r in
      record {
        replied = k.queued;
        ordered = k.performed;
        levelled = k.levelled;
        running = k.running;
        started = k.started;
      }
  handle-Handles getclipboard s q r =
      let k = enqueue-Queues (setclipboard (h.get_clipboard_text s.effects)) s refl r in
      record {
        replied = k.queued;
        ordered = k.performed;
        levelled = k.levelled;
        running = k.running;
        started = k.started;
      }
  handle-Handles (moveabs pt) s q r = performs (moveabs pt) (sets_mousepos pt) s refl refl refl
  handle-Handles (clickevent b pr) s q r =
      performs (clickevent b pr) (does_clickevent b pr) s refl refl refl
  handle-Handles (keyevent k pr) s q r =
      performs (keyevent k pr) (does_keyevent k pr) s refl refl refl
  handle-Handles (setclipboard t) s q r =
      performs (setclipboard t) (sets_clipboard t) s refl refl refl
  handle-Handles (setbrightness f) s q r =
      performs (setbrightness f) (sets_display_brightness f) s refl refl refl
  handle-Handles (setloglevel l) s q r =
      let k = loglevel-Logs h l s in
      record {
        replied = k.kept ∙ sym (append-nil _);
        ordered = k.performed;
        levelled = set_loglevel_lem h l s;
        running = k.running;
        started = k.started;
      }
  handle-Handles (setup v l kvs) s q r = cc
  handle-Handles (ready dim) s q r = cc
  handle-Handles (mousepos pt) s q r = cc
  handle-Handles (logmsg t) s q r = cc

  after_log :
      (body : Msgbody) (s s' s'' : Session)
      → Logs 1 s s'
      → s'.loglevel ≡ s.loglevel
      → Handles body s' s''
      → Handles body s s''
  after_log body s s' s'' l v k = record {
    replied =
        k.replied
        ∙ ap (λ q. q ++ answer body s'.effects) l.kept
        ∙ ap (λ e. replies s.stdio_msgchan.queue ++ answer body e) l.performed;
    ordered = k.ordered ∙ ap (◌++◌ (order body)) l.performed;
    levelled = k.levelled ∙ ap (level_after body) v;
    running = k.running ∙ l.running;
    started = k.started ∙ l.started;
  }

  -- The debug line of `mc_read_cb`.
  abbrev pub received_line : Msgbody → Session → Session
  received_line body s =
      if msgtype body == 3
      then s
      else mlog 7 (codes "received " ++ msgtype_name (msgtype body) ++ (10 ∷ [])) s

  pub received-Logs : (body : Msgbody) (s : Session) → Logs 1 s (received_line body s)
  received-Logs body s = elim (Bool-cases (msgtype body == 3)) [
    | inl e ↦ rw e (no_Logs 1 s)
    | inr e ↦ rw e (mlog-Logs 7 _ s)
  ]

  received-loglevel : (body : Msgbody) (s : Session) → (received_line body s).loglevel ≡ s.loglevel
  received-loglevel body s = elim (Bool-cases (msgtype body == 3)) [
    | inl e ↦ rw e refl
    | inr e ↦ rw e (mlog-loglevel 7 _ s)
  ]

  -- A remote that is set up, and whose queue takes two more messages, carries out every request: the
  -- platform is given just the order that the message stands for; lines of the log apart, just the
  -- answer to it is queued behind what was queued before, a MOVEREL being answered with the position
  -- after the move; the level of the log is the one that a SETLOGLEVEL gives, or the highest if
  -- that is too high, and otherwise stays; and the process goes on.
  pub request-Handles :
      (body : Msgbody) (s : Session)
      → s.initialized ≡ true
      → is_request body ≡ true
      → s.stdio_msgchan.num_queued + 2 ≤ 64
      → Handles body s (mc_read_cb h body s)
  unfolding mc_read_cb
  request-Handles body s i q r =
      let l = received-Logs body s in
      subst (λ b. Handles body s (dispatch h b body (received_line body s))) (sym i)
        (after_log body s (received_line body s) (handle_message h body (received_line body s)) l
          (received-loglevel body s)
          (handle-Handles body (received_line body s) q (omega (arith, l.grown))))
