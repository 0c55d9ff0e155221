-- ===== src/Ssh/Starting.antt =====
-- main.c: what ssh_pubkey_setup loads where `main` calls it, before any remote is enabled.
use enthrall.Prelude.{◌≡◌, Text, Bool, true, false, Option, none, some, List, [], ◌∷◌, ◌++◌, ◌⊎◌}
use enthrall.Ssh.{is_loaded}
use enthrall.Ssh.Keys.{IsLoaded}

module _ (ssh_add : Text → Bool) where
  -- The keys of the agent and the default key, which is added if it is set and not there.
  abbrev pub HasDefault : Option Text → (keys keys' : List Text) → Type 0
  HasDefault none keys keys' = keys' ≡ keys
  HasDefault (some f) keys keys' =
      (IsLoaded f keys × (keys' ≡ keys))
      ⊎ ((is_loaded f keys ≡ false) × (ssh_add f ≡ true) × (keys' ≡ keys ++ (f ∷ [])))
