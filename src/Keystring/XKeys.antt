-- ===== src/Keystring/XKeys.antt =====
-- x11.c: the modifiers and the search for keys of its parse_keystring.
use enthrall.Prelude.{
  ℕ, ◌==◌, ◌≡◌, refl, ap, subst, Text, codes, Bool, true, false, Option, none, some, List, [], ◌∷◌,
  if◌then◌else◌, Bool-cases, inl, inr,
}
use enthrall.Keystring.{Modifier, parse_keystring}
use enthrall.Keystring.Described.{IsKeySearch}

-- XStringToKeysym(3), where 0 is NoSymbol, the macro IsModifierKey, and XKeysymToKeycode(3).
pub record XServer : Type 0 where
  pub string_to_keysym : Text → ℕ
  pub is_modifier_key : ℕ → Bool
  pub keysym_to_keycode : ℕ → ℕ

abbrev modifier : Text → ℕ → Modifier
modifier name mask = record { name = name; mask = mask }

-- In the order of the indices, with the masks of the X protocol.
abbrev pub xmodifiers : List Modifier
xmodifiers =
    modifier (codes "shift") 1
    ∷ modifier (codes "lock") 2
    ∷ modifier (codes "control") 4
    ∷ modifier (codes "mod1") 8
    ∷ modifier (codes "mod2") 16
    ∷ modifier (codes "mod3") 32
    ∷ modifier (codes "mod4") 64
    ∷ modifier (codes "mod5") 128
    ∷ []

module _ (x : XServer) where
  abbrev pub nonzero : ℕ → Option ℕ
  nonzero kc = if kc == 0 then none else some kc

  unfoldable pub x_take_key : Text → ℕ → Option ℕ
  x_take_key tmp kc =
      let sym = x.string_to_keysym tmp in
      if sym == 0
      then none
      else if x.is_modifier_key sym
      then none
      else if kc == 0
      then nonzero (x.keysym_to_keycode sym)
      else none

  unfoldable pub x_parse_keystring : Text → Option (Option (ℕ × ℕ))
  x_parse_keystring ks = parse_keystring xmodifiers x_take_key ks

  pub x_take_key-IsKeySearch : IsKeySearch x_take_key
  unfolding x_take_key
  x_take_key-IsKeySearch = record {
    one_key = λ t kc n.
        by_one (x.string_to_keysym t == 0) (x.is_modifier_key (x.string_to_keysym t)) (kc == 0) _ n;
    not_null = λ t kc e.
        by_tests (x.string_to_keysym t == 0) (x.is_modifier_key (x.string_to_keysym t))
          (x.keysym_to_keycode (x.string_to_keysym t)) kc e;
  }
    where
      by_one :
          (a b c : Bool) (o : Option ℕ)
          → c ≡ false
          → (if a then none else if b then none else if c then o else none) ≡ none
      by_one true b c o n = refl
      by_one false true c o n = refl
      by_one false false true o n = absurd (cc n)
      by_one false false false o n = refl

      by_code :
          (code kc : ℕ) → (if code == 0 then none else some code) ≡ some kc → (kc == 0) ≡ false
      by_code code kc e = elim (Bool-cases (code == 0)) [
        | inl t ↦ absurd (cc (rw t at e))
        | inr n ↦
            let back : code ≡ kc =
              ap (λ (o : Option ℕ). elim o [ none ↦ code | some k ↦ k ]) (rw n at e) in
            subst (λ k. (k == 0) ≡ false) back n
      ]

      by_tests :
          (a b : Bool) (code kc : ℕ)
          → (if a then none else if b then none else if code == 0 then none else some code)
            ≡ some kc
          → (kc == 0) ≡ false
      by_tests true b code kc e = absurd (cc e)
      by_tests false true code kc e = absurd (cc e)
      by_tests false false code kc e = by_code code kc e
