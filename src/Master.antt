-- ===== src/Master.antt =====
-- main.c on the master: the nodes, the configuration, what the program keeps while it runs, and the
-- system calls and platform functions it uses.
pub mod Remotes
pub mod Send
pub mod Connect
pub mod Focus
pub mod Events
pub mod Actions
pub mod Topology
pub mod Showing
pub mod Failing
pub mod Sane
pub mod Keeping
pub mod Handling
pub mod Pointing
pub mod Focusing
pub mod Transfer
pub mod Switch
pub mod Acting
pub mod Ending
pub mod Linked
pub mod Linking
pub mod Reachable
pub mod Binding
pub mod Run
mod Samples
mod Tests
use enthrall.Prelude.{
  ℕ, ◌+◌, ◌==◌, Text, Bool, true, false, Option, none, some, List, [], ◌∷◌, if◌then◌else◌,
}
use enthrall.Prelude.Int.{ℤ}
use enthrall.Kvmap.{Kvmap}
use enthrall.Message.{Xypoint, Rectangle}
use enthrall.Msgchan.{Msgchan}
use enthrall.Timer.{ScheduledCall, schedule_call}
use enthrall.Edge.{Direction, EdgeState, Dirmask, Multitap}

-- A `struct node*` that is not null: the master's node, or that of the remote at an address.
pub data NodeRef : Type 0 where
  master : NodeRef
  remote : ℕ → NodeRef

abbrev pub same_node : NodeRef → NodeRef → Bool
same_node master master = true
same_node master (remote i) = false
same_node (remote i) master = false
same_node (remote i) (remote j) = i == j

-- `struct node`; its field `remote` is the constructor of the reference to it.
pub record Node : Type 0 where
  pub name : Text
  pub dimensions : Rectangle
  pub neighbors : Direction → Option NodeRef
  pub edgehist : Direction → EdgeState
  pub edgemask : Dirmask

pub data Connstate : Type 0 where
  cs_new cs_settingup cs_failed cs_permfailed cs_connected : Connstate

abbrev pub is_connected : Connstate → Bool
is_connected cs_new = false
is_connected cs_settingup = false
is_connected cs_failed = false
is_connected cs_permfailed = false
is_connected cs_connected = true

abbrev pub is_settingup : Connstate → Bool
is_settingup cs_new = false
is_settingup cs_settingup = true
is_settingup cs_failed = false
is_settingup cs_permfailed = false
is_settingup cs_connected = false

abbrev pub is_failed : Connstate → Bool
is_failed cs_new = false
is_failed cs_settingup = false
is_failed cs_failed = true
is_failed cs_permfailed = false
is_failed cs_connected = false

-- `struct remote`, without what only execvp(3) reads. A pid that is not positive is `none`; a timer is
-- the id of its call.
pub record Remote : Type 0 where
  pub node : Node
  pub reachable : Bool
  pub hostname : Text
  pub params : Kvmap
  pub state : Connstate
  pub sshpid : Option ℕ
  pub failcount : ℕ
  pub reconnect_timer : Option ℕ
  pub scrollmult : ℤ
  pub msgchan : Msgchan
  pub enabled : Bool

-- `struct focus_hint` by its type; the brightness is the bit pattern of a `float`.
pub data FocusHint : Type 0 where
  fh_none : FocusHint
  fh_dim_inactive fh_flash_active : (brightness duration fade_steps : ℕ) → FocusHint

pub data ShowNullswitch : Type 0 where
  ns_no ns_yes ns_hotkeyonly : ShowNullswitch

-- The part of `struct config` that is fixed when the program has started.
pub record Config : Type 0 where
  pub max_tries : ℕ
  pub max_interval : ℕ
  pub focus_hint : FocusHint
  pub mouseswitch : Option Multitap
  pub show_nullswitch : ShowNullswitch

-- What a scheduled call is to do: the functions that main.c schedules, with their arguments.
pub data Callback : Type 0 where
  reconnect_remote_cb : ℕ → Callback
  set_brightness_cb : NodeRef → (brightness : ℕ) → Callback

-- The calls that act on the world outside.
pub data Effect : Type 0 where
  grabs_inputs : Effect
  ungrabs_inputs : (restore_mousepos : Bool) → Effect
  sets_display_brightness : ℕ → Effect
  sets_clipboard : Text → Effect
  sets_mousepos : Xypoint → Effect
  closes : (fd : ℕ) → Effect
  kills : (pid : ℕ) → Effect
  logs : Text → Effect
  exits aborts : Effect

-- The arithmetic of `float`, on bit patterns.
pub record Floats : Type 0 where
  pub of_nat : ℕ → ℕ
  pub of_int : ℤ → ℕ
  pub mul : ℕ → ℕ → ℕ
  pub quot : ℕ → ℕ → ℕ
  pub add : ℕ → ℕ → ℕ
  pub sub : ℕ → ℕ → ℕ
  pub to_uint64 : ℕ → ℕ
  pub lrintf : ℕ → ℤ

-- The bit pattern of 1.0.
abbrev pub float_one : ℕ
float_one = 1065353216

-- The configuration, and what the system and the platform answer: each answer may depend on the number
-- of answers before it. Where socketpair(2) or fork(2) fails the program exits, which is no state here.
pub record Host : Type 0 where
  pub config : Config
  pub floats : Floats
  pub get_microtime : ℕ → ℕ
  pub fork : ℕ → ℕ
  pub socketpair : ℕ → ℕ
  pub get_clipboard_text : ℕ → Text

-- What the program keeps. `remotes` is the list of the remotes' addresses and `store` what is there;
-- `answers` counts the host's answers, and the latest effect stands first.
pub record Master : Type 0 where
  pub remotes : List ℕ
  pub store : ℕ → Remote
  pub self : Node
  pub focused_node : NodeRef
  pub last_focused_node : Option NodeRef
  pub loglevel : ℕ
  pub calls : List (ScheduledCall Callback)
  pub answers : ℕ
  pub effects : List Effect

abbrev pub at_address : ℕ → (Remote → Remote) → (ℕ → Remote) → ℕ → Remote
at_address i f store j = if j == i then f (store j) else store j

abbrev pub with_remote : ℕ → (Remote → Remote) → Master → Master
with_remote i f m = record m { store = at_address i f m.store }

abbrev pub act : Effect → Master → Master
act e m = record m { effects = e ∷ m.effects }

abbrev pub node_at : Master → NodeRef → Node
node_at m master = m.self
node_at m (remote i) = (m.store i).node

abbrev pub with_node : NodeRef → (Node → Node) → Master → Master
with_node master f m = record m { self = f m.self }
with_node (remote i) f m = with_remote i (λ r. record r { node = f r.node }) m

-- `schedule_call`; the timer it returns is the count of answers before the call.
abbrev pub schedule : Host → Callback → ℕ → Master → Master
schedule h cb delay m = record m {
  calls = schedule_call m.answers (h.get_microtime m.answers) cb delay m.calls;
  answers = m.answers + 1;
}
