-- ===== src/RemoteSide/Tests.antt =====
-- A new remote, and one that is set up.
use enthrall.Prelude.{◌≡◌, refl, codes, true, false, [], ◌∷◌, arith, none}
use enthrall.Prelude.Int.{pos}
use enthrall.Message.{setup, moverel, getclipboard}
use enthrall.Msgchan.{Msgchan, empty_send}
use enthrall.RemoteSide.{Host, Session, mc_read_cb}
use enthrall.RemoteSide.Handles.{Handles, request-Handles}
use enthrall.RemoteSide.Handshake.{Greets, setup-Greets, read_improper}

abbrev host : Host
host = record {
  get_mousepos = λ es. record { x = pos 3; y = pos 4 };
  get_clipboard_text = λ es. codes "text";
  get_screen_dimensions = record {
    x = record { lo = pos 0; hi = pos 639 };
    y = record { lo = pos 0; hi = pos 479 };
  };
  platform_init = λ params. true;
  decimal = λ n. n ∷ [];
}

abbrev channel : Msgchan
channel = record {
  send_fd = 1;
  recv_fd = 0;
  send_mon = record { registered = true; reads = false; writes = false };
  recv_mon = record { registered = true; reads = true; writes = false };
  recv_msgbuf = record { hdrbuf = []; plbuf = none; bytes_recvd = 0 };
  send_msgbuf = empty_send;
  queue = [];
  num_queued = 0;
}

abbrev new : Session
new = record {
  stdio_msgchan = channel;
  initialized = false;
  loglevel = 7;
  effects = [];
  exited = false;
}

abbrev running : Session
running = record new { initialized = true }

setup-Greets_example : Greets host new (mc_read_cb host (setup 0 4 []) new)
setup-Greets_example = setup-Greets host 4 [] new refl refl refl (omega arith)

request-Handles_example :
    Handles host
      (moverel (pos 1) (pos 2))
      running
      (mc_read_cb host (moverel (pos 1) (pos 2)) running)
request-Handles_example =
    request-Handles host (moverel (pos 1) (pos 2)) running refl refl (omega arith)

read_improper_example : (mc_read_cb host getclipboard new).exited ≡ true
read_improper_example = read_improper host getclipboard new refl
