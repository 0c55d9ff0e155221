-- ===== src/Hotkeys/Binding.antt =====
-- x11.c: no two bound hotkeys answer to one event.
use Prim.Native.Nat.{bit_and}
use enthrall.Prelude.{
  ℕ, ◌==◌, ◌≡◌, refl, ap, ◌∙◌, Bool, true, false, ◌&&◌, Option, none, some, List, [], ◌∷◌,
  if◌then◌else◌, ==_iff, and_true,
}
use enthrall.Hotkeys.{Xhotkey, KeyEvent, match_hotkey, find_hotkey, bind_unless, bind_hotkey}

module _ {A : Type 0} (relevant : ℕ) where
  -- An event that a hotkey matches is matched by none behind it.
  abbrev pub IsUnambiguous : List (Xhotkey A) → Type 0
  IsUnambiguous [] = Unit {0}
  IsUnambiguous (k ∷ rest) =
      ((kev : KeyEvent) → match_hotkey relevant k kev ≡ true → find_hotkey relevant rest kev ≡ none)
      × IsUnambiguous rest

  -- Only the key and the relevant modifiers count.
  match_same :
      (k : Xhotkey A) (e f : KeyEvent)
      → e.keycode ≡ f.keycode
      → bit_and e.state relevant ≡ bit_and f.state relevant
      → match_hotkey relevant k e ≡ match_hotkey relevant k f
  unfolding match_hotkey
  match_same k e f a b =
      ap (λ x. x == k.key && bit_and e.state relevant == bit_and k.modmask relevant) a
      ∙ ap (λ x. f.keycode == k.key && x == bit_and k.modmask relevant) b

  find_same :
      (hotkeys : List (Xhotkey A)) (e f : KeyEvent)
      → e.keycode ≡ f.keycode
      → bit_and e.state relevant ≡ bit_and f.state relevant
      → find_hotkey relevant hotkeys e ≡ find_hotkey relevant hotkeys f
  unfolding find_hotkey
  find_same [] e f a b = refl
  find_same (k ∷ rest) e f a b = rw (match_same k e f a b, find_same rest e f a b) refl

  abbrev pub event_of : Xhotkey A → KeyEvent
  event_of k = record { keycode = k.key; state = k.modmask }

  -- What a hotkey matches is found where its own event is.
  pub matched_finds :
      (k : Xhotkey A) (hotkeys : List (Xhotkey A)) (kev : KeyEvent)
      → match_hotkey relevant k kev ≡ true
      → find_hotkey relevant hotkeys kev ≡ find_hotkey relevant hotkeys (event_of k)
  unfolding match_hotkey
  matched_finds k hotkeys kev e =
      let p =
        and_true (kev.keycode == k.key) (bit_and kev.state relevant == bit_and k.modmask relevant)
          e in
      find_same hotkeys kev (event_of k) ((==_iff kev.keycode k.key).0 p.0) ((==_iff _ _).0 p.1)

  -- What `bind_hotkey` does with a string that is a key, by whether it collides.
  abbrev pub Bound :
      Option (Xhotkey A)
      → Xhotkey A
      → (grabbed : Bool) → List (Xhotkey A)
      → List (Xhotkey A) × Bool
      → Type 0
  Bound (some k) new grabbed hotkeys r = r ≡ (hotkeys, false)
  Bound none new grabbed hotkeys r =
      (r.1 ≡ grabbed)
      × ((kev : KeyEvent)
          → find_hotkey relevant r.0 kev ≡ (
              if match_hotkey relevant new kev then some new else find_hotkey relevant hotkeys kev))

  bind-Bound :
      (o : Option (Xhotkey A)) (new : Xhotkey A) (grabbed : Bool) (hotkeys : List (Xhotkey A))
      → find_hotkey relevant hotkeys (event_of new) ≡ o
      → IsUnambiguous hotkeys
      → IsUnambiguous (bind_unless relevant o (new.key, new.modmask) new.callback grabbed hotkeys).0
        × Bound o new grabbed hotkeys
            (bind_unless relevant o (new.key, new.modmask) new.callback grabbed hotkeys)
  unfolding find_hotkey
  bind-Bound (some k) new grabbed hotkeys e u = (u, refl)
  bind-Bound none new grabbed hotkeys e u =
      ((λ kev m. matched_finds new hotkeys kev m ∙ e, u), (refl, λ kev. refl))

  -- `bind_hotkey` on a key keeps that no event is matched by two of the hotkeys. Where a hotkey answers
  -- to the key already it changes nothing and fails; otherwise it fails just where the server refuses
  -- the key, and from then on the new hotkey is found for the events that it matches, and for any other
  -- event what was found before.
  pub bind_hotkey-IsUnambiguous :
      (new : Xhotkey A) (grabbed : Bool) (hotkeys : List (Xhotkey A))
      → IsUnambiguous hotkeys
      → IsUnambiguous
          (bind_hotkey relevant (some (new.key, new.modmask)) new.callback grabbed hotkeys).0
        × Bound
            (find_hotkey relevant hotkeys (event_of new))
            new
            grabbed
            hotkeys
            (bind_hotkey relevant (some (new.key, new.modmask)) new.callback grabbed hotkeys)
  unfolding bind_hotkey
  bind_hotkey-IsUnambiguous new grabbed hotkeys u =
      bind-Bound (find_hotkey relevant hotkeys (event_of new)) new grabbed hotkeys refl u
