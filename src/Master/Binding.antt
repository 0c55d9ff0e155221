-- ===== src/Master/Binding.antt =====
-- main.c: bind_hotkeys, which gives the configured hotkeys to the platform.
pub mod Bound
use enthrall.Prelude.{ℕ, Text, Bool, true, false, Option, none, some, List, [], ◌∷◌, if◌then◌else◌}
use enthrall.Hotkeys.{Xhotkey, bind_hotkey}
use enthrall.Master.{NodeRef, Master}
use enthrall.Master.Topology.{find_node}
use enthrall.Master.Actions.{Action, at_focus, ft_node}

-- An action of the configuration: a focus switch to a node by its name, or any other.
pub data NamedAction : Type 0 where
  focuses_name : (name : Option Text) → NamedAction
  acts : Action → NamedAction

-- `struct hotkey`
pub record Hotkey : Type 0 where
  pub key_string : Text
  pub action : NamedAction

abbrev pub focus_resolved : Option NodeRef → Option Action
focus_resolved none = none
focus_resolved (some n) = some (at_focus (ft_node n))

-- `resolve_noderef` for the action's node; `none` is the exit of `initdie`.
unfoldable pub resolve_action : NamedAction → Master → Option Action
resolve_action (focuses_name name) m = focus_resolved (find_node name m)
resolve_action (acts a) m = some a

-- The platform: its relevant modifiers, what its `parse_keystring` makes of a string, and whether the
-- server grants a key.
pub record KeyPlatform : Type 0 where
  pub relevant : ℕ
  pub parse : Text → Option (ℕ × ℕ)
  pub grants : Text → Bool

module _ (p : KeyPlatform) where
  -- `none` is an exit of the program.
  abbrev pub bind_resolved :
      (bind_rest : List (Xhotkey Action) → Option (List (Xhotkey Action)))
      → Text
      → Option Action
      → List (Xhotkey Action)
      → Option (List (Xhotkey Action))
  bind_resolved bind_rest key_string none hotkeys = none
  bind_resolved bind_rest key_string (some a) hotkeys =
      let r = bind_hotkey p.relevant (p.parse key_string) a (p.grants key_string) hotkeys in
      let rest = bind_rest r.0 in if r.1 then rest else none

  unfoldable pub bind_hotkeys :
      List Hotkey → Master → List (Xhotkey Action) → Option (List (Xhotkey Action))
  bind_hotkeys [] m hotkeys = some hotkeys
  bind_hotkeys (k ∷ rest) m hotkeys =
      bind_resolved (bind_hotkeys rest m) k.key_string (resolve_action k.action m) hotkeys
