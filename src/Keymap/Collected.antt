-- ===== src/Keymap/Collected.antt =====
-- x11.c: get_keymap_modifiers gives the first sixteen of the pressed modifier keys, in order.
use native.Mathlib.Nat.{pow-suc, div-div-eq-div-mul}
use enthrall.Prelude.{
  ℕ, zero, suc, ◌+◌, ◌*◌, ◌/◌, ◌%◌, ◌^◌, ◌==◌, ◌≤◌, ◌<◌, ◌≡◌, refl, sym, ap, ◌∙◌, subst, Bool, true,
  false, List, [], ◌∷◌, ◌++◌, append-nil, append_assoc, length, length-append, length-take, take,
  take-append_left, if◌then◌else◌, Bool-cases, inl, inr, arith, ==_iff,
}
use enthrall.Keymap.{
  Keymap, Modkeys, maxmods, bits, has_bit, take_key, byte_loop, keymap_loop, get_keymap_modifiers,
}

-- The key codes of the bits that are set, from this byte on.
abbrev pub byte_keys : (i byte : ℕ) → List ℕ → List ℕ
byte_keys i byte [] = []
byte_keys i byte (bit ∷ rest) =
    let later = byte_keys i byte rest in if has_bit byte bit then (i * 8 + bit) ∷ later else later

-- The key codes from `kc` on of those of `n` keys whose bit is set, the lowest bit being the first key's.
abbrev pub pressed_in : (kc n byte : ℕ) → List ℕ
pressed_in kc zero byte = []
pressed_in kc (suc n) byte =
    let later = pressed_in (kc + 1) n (byte / 2) in if byte % 2 == 1 then kc ∷ later else later

-- Eight keys for each byte.
abbrev pub pressed : ℕ → List ℕ → List ℕ
pressed kc [] = []
pressed kc (byte ∷ rest) = pressed_in kc 8 byte ++ pressed (kc + 8) rest

-- `n` bits from `b` on.
abbrev bits_from : (b n : ℕ) → List ℕ
bits_from b zero = []
bits_from b (suc n) = b ∷ bits_from (suc b) n

byte_keys_from :
    (i byte b n : ℕ) → byte_keys i byte (bits_from b n) ≡ pressed_in (i * 8 + b) n (byte / 2 ^ b)
byte_keys_from i byte b zero = refl
byte_keys_from i byte b (suc n) =
    let halved : byte / 2 ^ suc b ≡ byte / 2 ^ b / 2 =
      ap (λ k. byte / k) (pow-suc 2 b) ∙ sym (div-div-eq-div-mul byte (2 ^ b) 2) in
    let later =
      byte_keys_from i byte (suc b) n
      ∙ ap (λ q. pressed_in (i * 8 + suc b) n q) halved
      ∙ ap (λ k. pressed_in k n (byte / 2 ^ b / 2)) (next (i * 8) b) in
    ap (λ l. if byte / 2 ^ b % 2 == 1 then (i * 8 + b) ∷ l else l) later
  where
    next : (a b : ℕ) → a + suc b ≡ a + b + 1
    next a b = omega arith

-- The bits of the inner loop are those of the eight keys.
byte_keys-pressed : (i byte : ℕ) → byte_keys i byte bits ≡ pressed_in (i * 8) 8 byte
byte_keys-pressed i byte =
    byte_keys_from i byte 0 8
    ∙ ap (λ k. pressed_in k 8 (byte / 1)) (at_zero (i * 8))
    ∙ ap (pressed_in (i * 8) 8) (by_one byte)
  where
    at_zero : (a : ℕ) → a + 0 ≡ a
    at_zero a = omega arith

    by_one : (a : ℕ) → a / 1 ≡ a
    by_one a = omega arith

module _ (x : Keymap) where
  -- The keycodes of those of them that are modifiers and have one.
  abbrev pub modifiers_of : List ℕ → List ℕ
  modifiers_of [] = []
  modifiers_of (kc ∷ rest) =
      let later = modifiers_of rest in
      let etk = x.keysym_to_keycode (x.keycode_to_keysym kc) in
      if x.is_modifier_key (x.keycode_to_keysym kc)
      then if etk == 0 then later else etk ∷ later
      else later

  -- The two loops over one list of key codes.
  abbrev collect : List ℕ → Modkeys → Modkeys
  collect [] c = c
  collect (kc ∷ rest) c =
      let c' = take_key x kc c in let later = collect rest c' in if c'.out then c' else later

  abbrev stopped : Modkeys → Modkeys → Modkeys
  stopped c later = if c.out then c else later

  stopped_out : (c later : Modkeys) → c.out ≡ true → stopped c later ≡ c
  stopped_out c later t = ap (λ b. if b then c else later) t

  goes_on : (c later : Modkeys) → c.out ≡ false → stopped c later ≡ later
  goes_on c later n = ap (λ b. if b then c else later) n

  same_later : (c l k : Modkeys) → (c.out ≡ false → l ≡ k) → stopped c l ≡ stopped c k
  same_later c l k e = elim (Bool-cases c.out) [
    | inl t ↦ stopped_out c l t ∙ sym (stopped_out c k t)
    | inr n ↦ goes_on c l n ∙ e n ∙ sym (goes_on c k n)
  ]

  collect-append :
      (ks ls : List ℕ) (c : Modkeys)
      → c.out ≡ false
      → collect (ks ++ ls) c ≡ stopped (collect ks c) (collect ls (collect ks c))
  collect-append [] ls c n = sym (goes_on c (collect ls c) n)
  collect-append (kc ∷ ks) ls c n =
      let c' = take_key x kc c in
      let end = collect ks c' in
      elim (Bool-cases c'.out) [
        | inl t ↦
            let q = stopped_out c' end t in
            stopped_out c' (collect (ks ++ ls) c') t
            ∙ sym (stopped_out c' (collect ls c') t)
            ∙ ap (λ d. stopped d (collect ls d)) (sym q)
        | inr e ↦
            goes_on c' (collect (ks ++ ls) c') e
            ∙ collect-append ks ls c' e
            ∙ ap (λ d. stopped d (collect ls d)) (sym (goes_on c' end e))
      ]

  byte-collect :
      (i byte : ℕ) (bs : List ℕ) (c : Modkeys)
      → c.out ≡ false
      → byte_loop x i byte bs c ≡ collect (byte_keys i byte bs) c
  unfolding byte_loop
  byte-collect i byte [] c n = refl
  byte-collect i byte (bit ∷ bs) c n =
      let c' = take_key x (i * 8 + bit) c in
      by_bit (has_bit byte bit) (goes_on c (byte_loop x i byte bs c) n ∙ byte-collect i byte bs c n)
        (same_later c' (byte_loop x i byte bs c') (collect (byte_keys i byte bs) c')
          (λ o. byte-collect i byte bs c' o))
    where
      by_bit :
          (b : Bool)
          → stopped c (byte_loop x i byte bs c) ≡ collect (byte_keys i byte bs) c
          → stopped
              (take_key x (i * 8 + bit) c)
              (byte_loop x i byte bs (take_key x (i * 8 + bit) c))
            ≡ stopped
                (take_key x (i * 8 + bit) c)
                (collect (byte_keys i byte bs) (take_key x (i * 8 + bit) c))
          → stopped
              (if b then take_key x (i * 8 + bit) c else c)
              (byte_loop x i byte bs (if b then take_key x (i * 8 + bit) c else c))
            ≡ collect (if b then (i * 8 + bit) ∷ byte_keys i byte bs else byte_keys i byte bs) c
      by_bit true p q = q
      by_bit false p q = p

  whole_byte :
      (i byte : ℕ) (c : Modkeys)
      → c.out ≡ false
      → (if byte == 0 then c else byte_loop x i byte bits c) ≡ collect (byte_keys i byte bits) c
  whole_byte i byte c n = elim (Bool-cases (byte == 0)) [
    | inr e ↦ rw e (byte-collect i byte bits c n)
    | inl t ↦
        rw t (subst (λ k. c ≡ collect (byte_keys i k bits) c) (sym ((==_iff byte 0).0 t)) refl)
  ]

  keymap-collect :
      (i : ℕ) (state : List ℕ) (c : Modkeys)
      → c.out ≡ false
      → keymap_loop x i state c ≡ collect (pressed (i * 8) state) c
  unfolding keymap_loop
  keymap-collect i [] c n = refl
  keymap-collect i (byte ∷ rest) c n =
      let d = collect (byte_keys i byte bits) c in
      ap (λ e. stopped e (keymap_loop x (i + 1) rest e)) (whole_byte i byte c n)
      ∙ same_later d (keymap_loop x (i + 1) rest d) (collect (pressed ((i + 1) * 8) rest) d)
          (λ o. keymap-collect (i + 1) rest d o)
      ∙ sym (collect-append (byte_keys i byte bits) (pressed ((i + 1) * 8) rest) c n)
      ∙ ap (λ ks. collect (ks ++ pressed ((i + 1) * 8) rest) c) (byte_keys-pressed i byte)
      ∙ ap (λ k. collect (pressed_in (i * 8) 8 byte ++ pressed k rest) c) (eight i)
    where
      eight : (i : ℕ) → (i + 1) * 8 ≡ i * 8 + 8
      eight i = omega arith

  take_all : (n : ℕ) (xs : List ℕ) → length xs ≤ n → take n xs ≡ xs
  take_all zero [] b = refl
  take_all (suc n) [] b = refl
  take_all zero (y ∷ xs) b = absurd (omega arith)
  take_all (suc n) (y ∷ xs) b = ap (λ r. y ∷ r) (take_all n xs (omega arith))

  take_first : (n : ℕ) (xs ys : List ℕ) → length xs ≡ n → take n (xs ++ ys) ≡ xs
  take_first n xs ys e = subst (λ k. take k (xs ++ ys) ≡ xs) e (take-append_left xs ys)

  collect-take :
      (cs : List ℕ) (c : Modkeys)
      → c.out ≡ false
      → length c.keys < 16
      → (collect cs c).keys ≡ take 16 (c.keys ++ modifiers_of cs)
  unfolding take_key
  collect-take [] c n l =
      sym (ap (take 16) (append-nil c.keys) ∙ take_all 16 c.keys (omega (arith, l)))
  collect-take (kc ∷ cs) c n l =
      by_modifier (x.is_modifier_key (x.keycode_to_keysym kc)) (etk == 0)
        (ap (λ d. d.keys) (goes_on c (collect cs c) n) ∙ collect-take cs c n l)
        (elim (Bool-cases (length more == maxmods)) [
          | inl t ↦
              ap (λ d. d.keys) (stopped_out added (collect cs added) t)
              ∙ sym (take_first 16 more (modifiers_of cs) ((==_iff _ _).0 t))
          | inr e ↦
              ap (λ d. d.keys) (goes_on added (collect cs added) e)
              ∙ collect-take cs added e (fewer (length c.keys) (length more) l longer e)
        ]
          ∙ ap (take 16) (append_assoc c.keys (etk ∷ []) (modifiers_of cs)))
    where
      etk : ℕ
      etk = x.keysym_to_keycode (x.keycode_to_keysym kc)

      more : List ℕ
      more = c.keys ++ (etk ∷ [])

      added : Modkeys
      added = record { keys = more; out = length more == maxmods }

      longer : length more ≡ length c.keys + 1
      longer = length-append c.keys (etk ∷ [])

      fewer : (a b : ℕ) → a < 16 → b ≡ a + 1 → (b == 16) ≡ false → b < 16
      fewer a b p q e = ground arith

      by_modifier :
          (a b : Bool)
          → (stopped c (collect cs c)).keys ≡ take 16 (c.keys ++ modifiers_of cs)
          → (stopped added (collect cs added)).keys ≡ take 16 (c.keys ++ (etk ∷ modifiers_of cs))
          → (stopped
              (if a then if b then c else added else c)
              (collect cs (if a then if b then c else added else c))).keys
            ≡ take 16 (
                c.keys
                ++ (if a
                    then if b then modifiers_of cs else etk ∷ modifiers_of cs
                    else modifiers_of cs))
      by_modifier false b p q = p
      by_modifier true true p q = p
      by_modifier true false p q = q

  -- `get_keymap_modifiers` gives the keycodes of the pressed keys that are modifiers and have a keycode, in
  -- the order of the key codes, the first sixteen of them if there are more, and then ET_null: so it never
  -- writes behind the seventeen places that are allocated.
  pub get_keymap_modifiers_lem :
      (keymap_state : List ℕ)
      → (get_keymap_modifiers x keymap_state
          ≡ take maxmods (modifiers_of (pressed 0 keymap_state)) ++ (0 ∷ []))
        × (length (get_keymap_modifiers x keymap_state) ≤ maxmods + 1)
  unfolding get_keymap_modifiers
  get_keymap_modifiers_lem state =
      let start : Modkeys = record { keys = []; out = false } in
      let wanted = modifiers_of (pressed 0 state) in
      let e =
        ap (λ d. d.keys) (keymap-collect 0 state start refl)
        ∙ collect-take (pressed 0 state) start refl (omega arith) in
      (
        ap (λ r. r ++ (0 ∷ [])) e,
        subst (λ r. length (r ++ (0 ∷ [])) ≤ maxmods + 1) (sym e)
            (omega (arith, length-append (take 16 wanted) (0 ∷ []), length-take 16 wanted)),
      )
