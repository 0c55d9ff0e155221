-- ===== src/Master/Binding/Bound.antt =====
-- main.c: every configured hotkey is found by its own key, with its action.
use enthrall.Prelude.{◌≡◌, some, List, All}
use enthrall.Hotkeys.{Xhotkey, find_hotkey}
use enthrall.Hotkeys.Binding.{IsUnambiguous, event_of}
use enthrall.Master.{Master}
use enthrall.Master.Actions.{Action}
use enthrall.Master.Binding.{Hotkey, resolve_action, KeyPlatform}

module _ (p : KeyPlatform) (m : Master) where
  abbrev Table : Type 0
  Table = List (Xhotkey Action)

  -- The hotkey answers to its own event.
  abbrev Answers : Table → Xhotkey Action → Type 0
  Answers table x = find_hotkey p.relevant table (event_of p.relevant x) ≡ some x

  -- What was parsed and resolved of a configured hotkey is in the table.
  pub record IsBound (table : Table) (k : Hotkey) : Type 0 where
    pub bound : Xhotkey Action
    pub parsed : p.parse k.key_string ≡ some (bound.key, bound.modmask)
    pub resolved : resolve_action k.action m ≡ some bound.callback
    pub answers : Answers table bound

  -- A table that a hotkey was added to.
  record Adds (table table' : Table) (x : Xhotkey Action) : Type 0 where
    clear : IsUnambiguous p.relevant table'
    kept : (y : Xhotkey Action) → Answers table y → Answers table' y
    new : Answers table' x

  kept-IsBound :
      (table table' : Table) (k : Hotkey)
      → ((y : Xhotkey Action) → Answers table y → Answers table' y)
      → IsBound table k
      → IsBound table' k
  kept-IsBound table table' k keep b = record {
    bound = b.bound;
    parsed = b.parsed;
    resolved = b.resolved;
    answers = keep b.bound b.answers;
  }

  abbrev After : Table → List Hotkey → Table → Type 0
  After table ks table' =
      IsUnambiguous p.relevant table'
      × ((y : Xhotkey Action) → Answers table y → Answers table' y)
      × All (λ k. IsBound table' k) ks
