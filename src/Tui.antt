-- ===== src/Tui.antt =====
-- internal/tui/remote.go: the parsing of what a terminal sends. Parameters: `unicode/utf8` and
-- `strconv.Atoi`. The loop takes fuel; one unit for each byte is enough.
pub mod Parsing
pub mod Menu
use sshgatew.Prelude.{
  ℕ, zero, suc, ◌+◌, ◌-◌, ◌/◌, ◌%◌, Bool, true, false, not, ◌&&◌, ◌||◌, List, [], ◌∷◌, ◌++◌, Option,
  none, some, any, leb, ltb, ◌==◌, if◌then◌else◌,
}
use sshgatew.Prelude.Int.{ℤ, pos, negsuc}
use sshgatew.Prelude.Lists.{length, take, drop}
use sshgatew.Prelude.Texts.{Text, codes, text_eq, has_prefix, split, to_lower}

pub data InputEvent : Type 0 where
  key : Text → InputEvent
  paste : Text → InputEvent

-- What the code uses of other packages: a rune and its size, the text of a rune, and a number.
pub record Decoder : Type 0 where
  pub full_rune : Text → Bool
  pub decode_rune : Text → ℤ × ℕ
  pub rune_text : ℤ → Text
  pub atoi : Text → Option ℤ

-- strings.Index
unfoldable pub index : Text → Text → Option ℕ
index [] p = if has_prefix [] p then some 0 else none
index (c ∷ s) p =
    let rest = index s p in
    if has_prefix (c ∷ s) p then some 0 else elim rest [ none ↦ none | some n ↦ some (suc n) ]

abbrev pub esc : ℕ
esc = 27

abbrev pub paste_start : Text
paste_start = esc ∷ codes "[200~"

abbrev pub paste_end : Text
paste_end = esc ∷ codes "[201~"

abbrev pub sequences : List (Text × Text)
sequences =
    (codes "[A", codes "up")
    ∷ (codes "[B", codes "down")
    ∷ (codes "[C", codes "right")
    ∷ (codes "[D", codes "left")
    ∷ (codes "[5~", codes "pgup")
    ∷ (codes "[6~", codes "pgdown")
    ∷ (codes "[H", codes "home")
    ∷ (codes "[F", codes "end")
    ∷ (codes "OH", codes "home")
    ∷ (codes "OF", codes "end")
    ∷ []

-- The first sequence that the bytes begin with: its key and its length.
unfoldable pub find_sequence : Text → List (Text × Text) → Option (Text × ℕ)
find_sequence bytes [] = none
find_sequence bytes ((raw, name) ∷ more) =
    let rest = find_sequence bytes more in
    if has_prefix bytes (esc ∷ raw) then some (name, length (esc ∷ raw)) else rest

-- One iteration of the loop: the input ends, or waits for more, or an event or none uses up bytes.
pub data Step : Type 0 where
  last : InputEvent → Step
  wait : Step
  use_up : Option InputEvent → ℕ → Step

pub data Extended : Type 0 where
  other incomplete : Extended
  named : Text → ℕ → Extended

-- The bytes before the first final byte, and that byte.
unfoldable pub find_final : Text → Option (Text × ℕ)
find_final [] = none
find_final (c ∷ s) =
    let rest = find_final s in
    if ltb c 0x40 || ltb 0x7e c
    then elim rest [ none ↦ none | some r ↦ some (c ∷ r.0, r.1) ]
    else some ([], c)

abbrev head_text : List Text → Text
head_text [] = []
head_text (t ∷ ts) = t

module _ (d : Decoder) where
  -- `strings.SplitN(field, ":", 2)[0]` is the part before the first colon.
  unfoldable pub leading_number : Text → Option ℤ
  leading_number field = d.atoi (head_text (split b':' field))

  abbrev is_ctrl : ℤ → Bool
  is_ctrl (pos n) = ltb 0 n && (n - 1) / 4 % 2 == 1
  is_ctrl (negsuc n) = false

  abbrev plain_name : ℤ → Text
  plain_name (pos c) =
      if c == 9
      then codes "tab"
      else if c == 13
      then codes "enter"
      else if c == 27
      then codes "esc"
      else if c == 127
      then codes "backspace"
      else d.rune_text (pos c)
  plain_name (negsuc c) = d.rune_text (negsuc c)

  unfoldable pub extended_key_name : ℤ → ℤ → Text
  extended_key_name code modifiers =
      if is_ctrl modifiers then codes "ctrl+" ++ to_lower (d.rune_text code) else plain_name code

  abbrev or_one : Option ℤ → ℤ
  or_one none = pos 1
  or_one (some m) = m

  abbrev modifiers_of : List Text → ℤ
  modifiers_of (f ∷ m ∷ fs) = or_one (leading_number m)
  modifiers_of fs = pos 1

  abbrev csi_u : List Text → ℕ → Extended
  csi_u fields consumed = elim (leading_number (head_text fields)) [
    | none ↦ other
    | some code ↦ named (extended_key_name code (modifiers_of fields)) consumed
  ]

  abbrev both : Option ℤ → Option ℤ → ℕ → Extended
  both (some m) (some c) consumed = named (extended_key_name c m) consumed
  both m c consumed = other

  abbrev modify_other : List Text → ℕ → Extended
  modify_other (f ∷ m ∷ c ∷ []) consumed =
      if text_eq f (codes "27") then both (leading_number m) (leading_number c) consumed else other
  modify_other fields consumed = other

  unfoldable pub parse_extended_key : Text → Extended
  parse_extended_key bytes =
      if not (has_prefix bytes (esc ∷ b'[' ∷ [])) then other else elim (find_final (drop 2 bytes)) [
        | none ↦ incomplete
        | some r ↦
            if r.1 == b'u'
            then csi_u (split b';' r.0) (length r.0 + 3)
            else if r.1 == b'~'
            then modify_other (split b';' r.0) (length r.0 + 3)
            else other
      ]

  abbrev pub extended_step : Extended → Step
  extended_step (named name n) = use_up (some (key name)) n
  extended_step incomplete = wait
  extended_step other = use_up (some (key (codes "esc"))) 1

  abbrev pub escape_step : Text → Step
  escape_step bytes = elim (find_sequence bytes sequences) [
    | some r ↦ use_up (some (key r.0)) r.1
    | none ↦
        if any (λ s. has_prefix (esc ∷ s.0) bytes) sequences
        then wait
        else extended_step (parse_extended_key bytes)
  ]

  abbrev pub paste_step : Text → Step
  paste_step bytes = elim (index (drop 6 bytes) paste_end) [
    | none ↦ wait
    | some n ↦ use_up (some (paste (take n (drop 6 bytes)))) (6 + n + 6)
  ]

  -- utf8.RuneError
  abbrev is_error : ℤ → Bool
  is_error (pos n) = n == 0xfffd
  is_error (negsuc n) = false

  abbrev pub rune_step : Text → Step
  rune_step bytes =
      let r = d.decode_rune bytes in
      if not (d.full_rune bytes)
      then wait
      else if is_error r.0 && r.1 == 1
      then use_up none 1
      else use_up (some (key (d.rune_text r.0))) r.1

  -- The `switch` on a control character.
  abbrev pub control_step : ℕ → Text → Step
  control_step c bytes =
      if c == 3
      then use_up (some (key (codes "ctrl+c"))) 1
      else if c == 4
      then use_up (some (key (codes "ctrl+d"))) 1
      else if c == 13 || c == 10
      then use_up (some (key (codes "enter"))) 1
      else if c == 8 || c == 127
      then use_up (some (key (codes "backspace"))) 1
      else if c == 9
      then use_up (some (key (codes "tab"))) 1
      else if c == 21
      then use_up (some (key (codes "ctrl+u"))) 1
      else if c == 32
      then use_up (some (key (codes "space"))) 1
      else rune_step bytes

  -- One iteration, on bytes that are not empty.
  unfoldable pub input_step : ℕ → Text → Step
  input_step c rest =
      let bytes = c ∷ rest in
      if text_eq bytes (esc ∷ [])
      then last (key (codes "esc"))
      else if has_prefix paste_start bytes && ltb (length bytes) 6
      then wait
      else if has_prefix bytes paste_start
      then paste_step bytes
      else if c == esc
      then escape_step bytes
      else control_step c bytes

  abbrev pub add_event :
      Option InputEvent → Option (List InputEvent × Text) → Option (List InputEvent × Text)
  add_event e none = none
  add_event none (some r) = some r
  add_event (some e) (some (events, left)) = some (e ∷ events, left)

  -- The events and the bytes that are left; `none` is a lack of fuel.
  unfoldable pub parse_input : ℕ → Text → Option (List InputEvent × Text)
  parse_input fuel [] = some ([], [])
  parse_input zero (c ∷ bytes) = none
  parse_input (suc fuel) (c ∷ bytes) = elim (input_step c bytes) [
    | last e ↦ some (e ∷ [], [])
    | wait ↦ some ([], c ∷ bytes)
    | use_up e n ↦ add_event e (parse_input fuel (drop n (c ∷ bytes)))
  ]
