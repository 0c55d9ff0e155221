-- ===== src/RemoteSide.antt =====
-- remote.c: the process on the other machine, which waits for a SETUP message and then carries out what
-- the master asks for; with `set_loglevel` and `mlog` of main.c as they work there.
pub mod Replies
pub mod Handles
pub mod Handshake
mod Tests
use enthrall.Prelude.{
  ℕ, ◌==◌, ltb, leb, Text, codes, get_or, ◌++◌, Bool, true, false, not, List, [], ◌∷◌,
  if◌then◌else◌,
}
use enthrall.Prelude.Int.{ℤ}
use enthrall.Kvmap.{Kvmap, Kvent, unflatten_kvmap}
use enthrall.Message.{
  Xypoint, Rectangle, Msgbody, setup, ready, moverel, moveabs, mousepos, clickevent, keyevent,
  getclipboard, setclipboard, logmsg, setbrightness, setloglevel, Message, new_message, msgtype,
  msgtype_name,
}
use enthrall.Msgchan.{mc_init, Msgchan, mc_enqueue_message, mc_close}

-- The calls of the platform that change something.
pub data Effect : Type 0 where
  moves_mousepos : ℤ → ℤ → Effect
  sets_mousepos : Xypoint → Effect
  does_clickevent : (button pressrel : ℕ) → Effect
  does_keyevent : (keycode pressrel : ℕ) → Effect
  sets_clipboard : Text → Effect
  sets_display_brightness : ℕ → Effect
  exits_platform : Effect

-- What the platform answers, by the calls made before; and "%u" and "%d" of printf(3).
pub record Host : Type 0 where
  pub get_mousepos : List Effect → Xypoint
  pub get_clipboard_text : List Effect → Text
  pub get_screen_dimensions : Rectangle
  pub platform_init : Kvmap → Bool
  pub decimal : ℕ → Text

-- The static variables of remote.c and the log level; `exited` when `exit(1)` has been called. The
-- latest effect stands first.
pub record Session : Type 0 where
  pub stdio_msgchan : Msgchan
  pub initialized : Bool
  pub loglevel : ℕ
  pub effects : List Effect
  pub exited : Bool

abbrev pub perform : Effect → Session → Session
perform e s = record s { effects = e ∷ s.effects }

abbrev pub exit : Session → Session
exit s = record s { exited = true }

-- On a remote a line of the log is a message to the master; a full queue is not looked at.
unfoldable pub mlog : ℕ → Text → Session → Session
mlog level text s = if ltb s.loglevel level then s else record s {
  stdio_msgchan = (mc_enqueue_message s.stdio_msgchan (new_message (logmsg text))).0;
}

abbrev pub ll_bug : ℕ
ll_bug = 1

abbrev pub ll_error : ℕ
ll_error = 2

abbrev pub ll_debug2 : ℕ
ll_debug2 = 7

abbrev pub errlog : Text → Session → Session
errlog text s = mlog ll_error (codes "Error: " ++ text) s

abbrev pub levelnames : List Text
levelnames =
    codes "[NONE]"
    ∷ codes "BUG"
    ∷ codes "ERROR"
    ∷ codes "WARN"
    ∷ codes "INFO"
    ∷ codes "VERBOSE"
    ∷ codes "DEBUG"
    ∷ codes "DEBUG2"
    ∷ []

abbrev pub set_level : ℕ → Session → Session
set_level level s =
    mlog 0 (codes "Log level set to " ++ get_or levelnames level [] ++ (10 ∷ []))
      (record s { loglevel = level })

module _ (h : Host) where
  unfoldable pub set_loglevel : ℕ → Session → Session
  set_loglevel level s =
      if leb 8 level
      then set_level ll_debug2 (
          mlog ll_bug
            (codes "BUG (please report!): Attempted to set loglevel to bogus level "
              ++ h.decimal level
              ++ (10 ∷ []))
            s)
      else set_level level s

  unfoldable pub shutdown_remote : Session → Session
  shutdown_remote s =
      let s' = record s { stdio_msgchan = (mc_close s.stdio_msgchan).0 } in
      if s.initialized then perform exits_platform s' else s'

  unfoldable pub enqueue_message : Message → Session → Session
  enqueue_message msg s =
      let r = mc_enqueue_message s.stdio_msgchan msg in
      let s' = record s { stdio_msgchan = r.0 } in
      if r.1 then exit (errlog (codes "failed to enqueue message" ++ (10 ∷ [])) s') else s'

  -- The default branch of `handle_message`.
  abbrev pub refuse : Msgbody → Session → Session
  refuse body s = exit (
      shutdown_remote
        (errlog (codes "unhandled message type: " ++ h.decimal (msgtype body) ++ (10 ∷ [])) s))

  unfoldable pub handle_message : Msgbody → Session → Session
  handle_message (moverel dx dy) s =
      let s' = perform (moves_mousepos dx dy) s in
      enqueue_message (new_message (mousepos (h.get_mousepos s'.effects))) s'
  handle_message (moveabs pt) s = perform (sets_mousepos pt) s
  handle_message (clickevent b pr) s = perform (does_clickevent b pr) s
  handle_message (keyevent k pr) s = perform (does_keyevent k pr) s
  handle_message getclipboard s =
      enqueue_message (new_message (setclipboard (h.get_clipboard_text s.effects))) s
  handle_message (setclipboard text) s = perform (sets_clipboard text) s
  handle_message (setbrightness f) s = perform (sets_display_brightness f) s
  handle_message (setloglevel l) s = set_loglevel l s
  handle_message (setup v l kvs) s = refuse (setup v l kvs) s
  handle_message (ready dim) s = refuse (ready dim) s
  handle_message (mousepos pt) s = refuse (mousepos pt) s
  handle_message (logmsg text) s = refuse (logmsg text) s

  abbrev pub start_platform : Bool → Session → Session
  start_platform false s = exit (errlog (codes "platform_init() failed" ++ (10 ∷ [])) s)
  start_platform true s = enqueue_message (new_message (ready h.get_screen_dimensions)) s

  abbrev pub not_setup : Msgbody → Session → Session
  not_setup body s = exit (
      errlog
        (codes "unexpected message type "
          ++ h.decimal (msgtype body)
          ++ codes " instead of SETUP"
          ++ (10 ∷ []))
        s)

  abbrev pub check_version : Bool → (vers loglevel : ℕ) → List Kvent → Session → Session
  check_version false vers loglevel kvs s =
      exit (errlog (codes "unsupported protocol version " ++ h.decimal vers ++ (10 ∷ [])) s)
  check_version true vers loglevel kvs s =
      start_platform (h.platform_init (unflatten_kvmap kvs)) (set_loglevel loglevel s)

  unfoldable pub handle_setup_msg : Msgbody → Session → Session
  handle_setup_msg (setup vers loglevel kvs) s = check_version (vers == 0) vers loglevel kvs s
  handle_setup_msg (ready dim) s = not_setup (ready dim) s
  handle_setup_msg (moverel dx dy) s = not_setup (moverel dx dy) s
  handle_setup_msg (moveabs pt) s = not_setup (moveabs pt) s
  handle_setup_msg (mousepos pt) s = not_setup (mousepos pt) s
  handle_setup_msg (clickevent b pr) s = not_setup (clickevent b pr) s
  handle_setup_msg (keyevent k pr) s = not_setup (keyevent k pr) s
  handle_setup_msg getclipboard s = not_setup getclipboard s
  handle_setup_msg (setclipboard t) s = not_setup (setclipboard t) s
  handle_setup_msg (logmsg t) s = not_setup (logmsg t) s
  handle_setup_msg (setbrightness f) s = not_setup (setbrightness f) s
  handle_setup_msg (setloglevel l) s = not_setup (setloglevel l) s

  -- `exit` does not return, so that the flag is set only where the handler has returned.
  abbrev pub set_initialized : Bool → Session → Session
  set_initialized true s = s
  set_initialized false s = record s { initialized = true }

  abbrev pub dispatch : Bool → Msgbody → Session → Session
  dispatch true body s = handle_message body s
  dispatch false body s = let s' = handle_setup_msg body s in set_initialized s'.exited s'

  unfoldable pub mc_read_cb : Msgbody → Session → Session
  mc_read_cb body s =
      let logged =
        if msgtype body == 3
        then s
        else mlog ll_debug2 (codes "received " ++ msgtype_name (msgtype body) ++ (10 ∷ [])) s in
      dispatch s.initialized body logged

  -- `err` is strerror(3) of the error.
  unfoldable pub mc_err_cb : (err : Text) → Session → Session
  mc_err_cb err s =
      exit (
        shutdown_remote
          (errlog (codes "msgchan error, remote terminating: " ++ err ++ (10 ∷ [])) s))

-- Standard output and input.
unfoldable pub run_remote : Session → Session
run_remote s = record s { stdio_msgchan = mc_init s.stdio_msgchan 1 0 }
