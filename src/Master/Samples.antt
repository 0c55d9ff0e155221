-- ===== src/Master/Samples.antt =====
-- A master with two remotes for the tests: the first one connected, the second one not yet.
use enthrall.Prelude.{
  ℕ, ◌+◌, ◌*◌, ◌==◌, ◌≡◌, refl, codes, true, false, none, some, [], ◌∷◌, if◌then◌else◌,
}
use enthrall.Prelude.Int.{pos, abs}
use enthrall.Message.{Rectangle}
use enthrall.Msgchan.{Msgchan, Monitor, empty_send}
use enthrall.Edge.{zeroed}
use enthrall.Master.{
  master, remote, Node, Connstate, cs_settingup, cs_connected, is_connected, Remote, Floats, Host,
  Master, fh_flash_active, ns_no, grabs_inputs,
}
use enthrall.Master.Sane.{IsSane}

abbrev pub screen : Rectangle
screen = record { x = record { lo = pos 0; hi = pos 639 }; y = record { lo = pos 0; hi = pos 479 } }

abbrev pub node : Node
node = record {
  name = codes "n";
  dimensions = screen;
  neighbors = λ d. none;
  edgehist = λ d. zeroed;
  edgemask = record { at_left = false; at_right = false; at_up = false; at_down = false };
}

abbrev watched : Monitor
watched = record { registered = true; reads = true; writes = false }

abbrev channel : Msgchan
channel = record {
  send_fd = 4;
  recv_fd = 4;
  send_mon = watched;
  recv_mon = watched;
  recv_msgbuf = record { hdrbuf = []; plbuf = none; bytes_recvd = 0 };
  send_msgbuf = empty_send;
  queue = [];
  num_queued = 0;
}

abbrev pub remote_in : Connstate → Remote
remote_in c = record {
  node = node;
  reachable = true;
  hostname = codes "h";
  params = [];
  state = c;
  sshpid = some 100;
  failcount = 0;
  reconnect_timer = none;
  scrollmult = pos 1;
  msgchan = channel;
  enabled = true;
}

abbrev floats : Floats
floats = record {
  of_nat = λ n. n;
  of_int = abs;
  mul = λ x y. x * y;
  quot = λ x y. x;
  add = λ x y. x + y;
  sub = λ x y. x;
  to_uint64 = λ x. x;
  lrintf = pos;
}

abbrev pub host : Host
host = record {
  config = record {
    max_tries = 10;
    max_interval = 30000000;
    focus_hint = fh_flash_active 5 1000 3;
    mouseswitch = none;
    show_nullswitch = ns_no;
  };
  floats = floats;
  get_microtime = λ n. n;
  fork = λ n. 200 + n;
  socketpair = λ n. 10 + n;
  get_clipboard_text = λ n. codes "text";
}

-- The address 1 is that of the connected remote.
abbrev pub initial : Master
initial = record {
  remotes = 1 ∷ 2 ∷ [];
  store = λ i. if i == 1 then remote_in cs_connected else remote_in cs_settingup;
  self = node;
  focused_node = master;
  last_focused_node = none;
  loglevel = 4;
  calls = [];
  answers = 0;
  effects = [];
}

pub initial-IsSane : IsSane initial
initial-IsSane = record { live = λ i e. no i e; grabs = refl }
  where
    no : (i : ℕ) → master ≡ remote i → is_connected (initial.store i).state ≡ true
    no i e = cc

-- The remote has the focus.
abbrev pub away : Master
away = record initial { focused_node = remote 1; effects = grabs_inputs ∷ [] }
