-- ===== src/Master/Tests.antt =====
-- The master with two remotes: the first one connected, the second one not yet.
use enthrall.Prelude.{
  ℕ, ◌+◌, ◌==◌, ◌≡◌, ◌≤◌, ◌↔◌, Text, str_eq, Bool, Option, refl, codes, true, false, none, some,
  List, [], ◌∷◌, ◌++◌, arith, if◌then◌else◌, All,
}
use enthrall.Edge.{Direction, left, right}
use enthrall.Master.{NodeRef, master, remote, cs_settingup, cs_connected, Master, node_at}
use enthrall.Master.Remotes.{fail_remote}
use enthrall.Master.Focus.{focus_node}
use enthrall.Hotkeys.{Xhotkey}
use enthrall.Keystring.XKeys.{XServer, x_parse_keystring}
use enthrall.Master.Binding.{Hotkey, focuses_name, acts, KeyPlatform}
use enthrall.Master.Actions.{Action, at_quit, action_cb, at_focus, ft_node, shutdown_master}
use enthrall.Master.Send.{send_keyevent}
use enthrall.Master.Run.{IsRoomy, switches_focus, types, stops, goes_on, remote_of}
use enthrall.Master.Run.Keeping.{Run-IsSane}
use enthrall.Master.Reachable.{check_remotes}
use enthrall.Master.Reachable.Marking.{Known, with_marks, marks}
use enthrall.Master.Reachable.Checking.{IsLinked, HasNeighbor, check_remotes_lem}
use enthrall.Master.Reachable.Applied.{IsReady, apply_topology-IsReady}
use enthrall.Master.Failing.{Fails, fail-Fails}
use enthrall.Master.Sane.{IsSane}
use enthrall.Master.Switch.{Focuses, focus-Focuses}
use enthrall.Master.Topology.{
  Link, apply_topology, find_node, node_enabled, apply_link, RemoteEnable, find_remote,
}
use enthrall.Master.Ending.{IsEnded, shutdown-IsEnded}
use enthrall.Master.Showing.{killings}
use enthrall.Master.Samples.{remote_in, host, initial, initial-IsSane, away}

fail-Fails_example : Fails host 1 away (fail_remote host 1 away)
fail-Fails_example = fail-Fails host 1 away

focus-Focuses_example :
    Focuses (remote 1) initial (focus_node host (some (remote 1)) (7 ∷ 8 ∷ []) true initial)
focus-Focuses_example =
    focus-Focuses host (remote 1) (7 ∷ 8 ∷ []) true initial initial-IsSane refl tt
      (refl, omega arith)

shutdown-IsEnded_example :
    (pids : List ℕ) × (killings (shutdown_master host away).effects ≡ pids ++ killings away.effects)
    × All
        (λ j.
          IsEnded
            (away.store j).state
            (away.store j).sshpid
            ((shutdown_master host away).store j).sshpid
            pids)
        (1 ∷ 2 ∷ [])
    × ((shutdown_master host away).remotes ≡ [])
shutdown-IsEnded_example = shutdown-IsEnded host away

-- The names of the remotes are those of their nodes.
abbrev settings : List RemoteEnable
settings = record { name = codes "n"; enable = false } ∷ []

-- The first remote, by its host name, is to the right of the master.
abbrev links : List Link
links = record { a_name = none; a_dir = right; b_name = some (codes "h"); b_dir = some left } ∷ []

abbrev blank : Master
blank = record initial { store = λ i. record (initial.store i) { reachable = false } }

blank-IsReady : IsReady blank
blank-IsReady = (λ n d. known n d, λ j. refl)
  where
    by_test :
        (b : Bool) (i : ℕ) (d : Direction)
        → Known
            (1 ∷ 2 ∷ [])
            ((if b then remote_in cs_connected else remote_in cs_settingup).node.neighbors d)
    by_test true i d = tt
    by_test false i d = tt

    known : (n : NodeRef) (d : Direction) → Known blank.remotes ((node_at blank n).neighbors d)
    known master d = tt
    known (remote i) d = by_test (i == 1) i d

abbrev linked : Master
linked = apply_link master right (remote 1) (some left) blank

links_apply : apply_topology links blank ≡ some linked
unfolding apply_topology find_node find_remote node_enabled
links_apply = refl

IsReady-there : IsReady linked
IsReady-there = apply_topology-IsReady links blank linked blank-IsReady links_apply

check_remotes_lem_example :
    (warnings : List Text) × (m' : Master) × (check_remotes linked ≡ some (warnings, m'))
    × (m' ≡ with_marks (marks m') linked)
    × ((j : ℕ) → (marks m' j ≡ true) ↔ IsLinked linked j)
    × ((warnings ≡ [])
        ↔ All
            (λ i.
              (linked.store i).enabled ≡ true → IsLinked linked i × HasNeighbor (linked.store i))
            linked.remotes)
check_remotes_lem_example = check_remotes_lem linked IsReady-there.0 IsReady-there.1

-- The user goes to the connected remote with a hotkey and types.
initial-IsRoomy : IsRoomy [] initial
initial-IsRoomy i e = by_test (i == 1)
  where
    by_test :
        (b : Bool)
        → (if b then remote_in cs_connected else remote_in cs_settingup).msgchan.num_queued + 2 ≤ 64
    by_test true = omega arith
    by_test false = omega arith

abbrev switched : Master
switched = action_cb host (at_focus (ft_node (remote 1))) [] initial

abbrev typed : Master
typed = send_keyevent host (remote_of switched.focused_node) 3 1 switched

Run-IsSane_example : IsSane typed
Run-IsSane_example =
    Run-IsSane host initial typed (record { focused = refl; idle = refl })
      (goes_on (switches_focus (ft_node (remote 1)) [] initial-IsRoomy) (goes_on (types 3 1) stops))

-- A hotkey that goes to the first remote, and one that ends the program.
abbrev hotkeys : List Hotkey
hotkeys =
    record { key_string = codes "mod1+a"; action = focuses_name (some (codes "h")) }
    ∷ record { key_string = codes "a"; action = acts at_quit }
    ∷ []

abbrev parsed_by : Option (Option (ℕ × ℕ)) → Option (ℕ × ℕ)
parsed_by none = none
parsed_by (some r) = r

-- One key has a keysym and a key code.
abbrev server : XServer
server = record {
  string_to_keysym = λ t. if str_eq t (codes "a") then 97 else 0;
  is_modifier_key = λ sym. false;
  keysym_to_keycode = λ sym. 38;
}

abbrev keys : KeyPlatform
keys = record {
  relevant = 13;
  parse = λ t. parsed_by (x_parse_keystring server t);
  grants = λ t. true;
}

abbrev bound : List (Xhotkey Action)
bound =
    record { key = 38; modmask = 0; callback = at_quit }
    ∷ record { key = 38; modmask = 8; callback = at_focus (ft_node (remote 1)) }
    ∷ []
