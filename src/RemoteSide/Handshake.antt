-- ===== src/RemoteSide/Handshake.antt =====
-- remote.c: the handshake, and the end of the process where the protocol is broken.
use enthrall.Prelude.{
  ℕ, ◌+◌, ◌==◌, ◌≤◌, ◌≡◌, refl, sym, ap, ◌∙◌, subst, Bool, true, false, List, [], ◌∷◌, ◌++◌, arith,
}
use enthrall.Kvmap.{Kvent, unflatten_kvmap}
use enthrall.Message.{
  Msgbody, setup, ready, moverel, moveabs, mousepos, clickevent, keyevent, getclipboard,
  setclipboard, logmsg, setbrightness, setloglevel, new_message,
}
use enthrall.RemoteSide.{
  Host, Session, set_loglevel, check_version, start_platform, handle_setup_msg, handle_message,
  set_initialized, dispatch, mc_read_cb, enqueue_message,
}
use enthrall.RemoteSide.Replies.{replies, Logs, join-Logs, loglevel-Logs}
use enthrall.RemoteSide.Handles.{is_request, Queues, enqueue-Queues, received_line, received-Logs}

module _ (h : Host) where
  -- A remote that is ready for requests, with its screen's dimensions on the way to the master.
  pub record Greets (s s' : Session) : Type 0 where
    pub replied :
        replies s'.stdio_msgchan.queue
        ≡ replies s.stdio_msgchan.queue ++ (ready h.get_screen_dimensions ∷ [])
    pub running : s'.exited ≡ false
    pub started : s'.initialized ≡ true
    pub performed : s'.effects ≡ s.effects

  greet :
      (s s1 s2 : Session)
      → s.exited ≡ false
      → Logs 3 s s1
      → Queues h (ready h.get_screen_dimensions) s1 s2
      → Greets s (set_initialized h s2.exited s2)
  greet s s1 s2 x l q =
      let e : s2.exited ≡ false = q.running ∙ l.running ∙ x in
      subst (λ b. Greets s (set_initialized h b s2)) (sym e)
        record {
          replied = q.queued ∙ ap (λ r. r ++ (ready h.get_screen_dimensions ∷ [])) l.kept;
          running = e;
          started = refl;
          performed = q.performed ∙ l.performed;
        }

  -- A new remote whose queue takes four more messages and whose platform can be initialized with the
  -- parameters of a SETUP message of the right version becomes ready on that message, and answers, lines
  -- of the log apart, with just a READY message that has its screen's dimensions.
  pub setup-Greets :
      (loglevel : ℕ) (kvs : List Kvent) (s : Session)
      → s.initialized ≡ false
      → s.exited ≡ false
      → h.platform_init (unflatten_kvmap kvs) ≡ true
      → s.stdio_msgchan.num_queued + 4 ≤ 64
      → Greets s (mc_read_cb h (setup 0 loglevel kvs) s)
  unfolding mc_read_cb handle_setup_msg
  setup-Greets loglevel kvs s i x p r =
      let s0 = received_line h (setup 0 loglevel kvs) s in
      let s1 = set_loglevel h loglevel s0 in
      let l =
        join-Logs 1 2 s s0 s1 (received-Logs h (setup 0 loglevel kvs) s)
          (loglevel-Logs h loglevel s0) in
      let s2 = enqueue_message h (new_message (ready h.get_screen_dimensions)) s1 in
      subst (λ b. Greets s (dispatch h b (setup 0 loglevel kvs) s0)) (sym i)
        (subst
          (λ b. Greets s (set_initialized h (start_platform h b s1).exited (start_platform h b s1)))
          (sym p) (greet s s1 s2 x l (enqueue-Queues h _ s1 refl (omega (arith, l.grown)))))

  -- What a remote takes in its state: before the handshake a SETUP of the right version only, and
  -- requests only after it.
  abbrev pub is_proper : Bool → Msgbody → Bool
  is_proper true body = is_request h body
  is_proper false (setup v l kvs) = v == 0
  is_proper false (ready dim) = false
  is_proper false (moverel dx dy) = false
  is_proper false (moveabs pt) = false
  is_proper false (mousepos pt) = false
  is_proper false (clickevent b pr) = false
  is_proper false (keyevent k pr) = false
  is_proper false getclipboard = false
  is_proper false (setclipboard t) = false
  is_proper false (logmsg t) = false
  is_proper false (setbrightness f) = false
  is_proper false (setloglevel l) = false

  kept_exited : (s : Session) → s.exited ≡ true → (set_initialized h s.exited s).exited ≡ true
  kept_exited s e = subst (λ b. (set_initialized h b s).exited ≡ true) (sym e) e

  improper_exits :
      (b : Bool) (body : Msgbody) (s : Session)
      → is_proper b body ≡ false
      → (dispatch h b body s).exited ≡ true
  unfolding handle_setup_msg handle_message
  improper_exits false (setup v l kvs) s e =
      kept_exited (check_version h (v == 0) v l kvs s) (rw e refl)
  improper_exits false (ready dim) s e = refl
  improper_exits false (moverel dx dy) s e = refl
  improper_exits false (moveabs pt) s e = refl
  improper_exits false (mousepos pt) s e = refl
  improper_exits false (clickevent b pr) s e = refl
  improper_exits false (keyevent k pr) s e = refl
  improper_exits false getclipboard s e = refl
  improper_exits false (setclipboard t) s e = refl
  improper_exits false (logmsg t) s e = refl
  improper_exits false (setbrightness f) s e = refl
  improper_exits false (setloglevel l) s e = refl
  improper_exits true (setup v l kvs) s e = refl
  improper_exits true (ready dim) s e = refl
  improper_exits true (mousepos pt) s e = refl
  improper_exits true (logmsg t) s e = refl
  improper_exits true (moverel dx dy) s e = cc
  improper_exits true (moveabs pt) s e = cc
  improper_exits true (clickevent b pr) s e = cc
  improper_exits true (keyevent k pr) s e = cc
  improper_exits true getclipboard s e = cc
  improper_exits true (setclipboard t) s e = cc
  improper_exits true (setbrightness f) s e = cc
  improper_exits true (setloglevel l) s e = cc

  -- A remote that gets a message out of place ends: before the handshake anything but a SETUP message
  -- of the right version, after it anything but a request.
  pub read_improper :
      (body : Msgbody) (s : Session)
      → is_proper s.initialized body ≡ false
      → (mc_read_cb h body s).exited ≡ true
  unfolding mc_read_cb
  read_improper body s e = improper_exits s.initialized body (received_line h body s) e
