-- ===== src/Terminal/Keys.antt =====
-- The keys of crates/gocode-tui/src/lib.rs, which events carry, and the actions of
-- crates/gocode-core/src/preferences.rs that they are bound to.
use Prim.Native.Char.{Char, code}
use Prim.Native.String.{String}
use gocode.Base.{
  ℕ, Bool, true, false, not, ◌&&◌, List, [], ◌∷◌, if◌then◌else◌, Option, none, some, str_eq, ◌==◌,
  split_char, to_ascii_lowercase,
}

pub data KeyCode : Type 0 where
  char : Char → KeyCode
  enter : KeyCode
  esc : KeyCode
  tab : KeyCode
  up : KeyCode
  down : KeyCode
  left : KeyCode
  right : KeyCode
  page_up : KeyCode
  page_down : KeyCode
  end_key : KeyCode
  backspace : KeyCode
  function_key : ℕ → KeyCode
  other_key : KeyCode

-- The modifiers that the program reads.
pub record KeyModifiers : Type 0 where
  pub control : Bool
  pub alt : Bool
  pub shift : Bool

pub data KeyAction : Type 0 where
  open_help : KeyAction
  open_model_picker : KeyAction
  send_message : KeyAction
  interrupt_execution : KeyAction
  new_conversation : KeyAction
  toggle_status_panel : KeyAction
  open_command_list : KeyAction
  history_previous : KeyAction
  history_next : KeyAction
  approve : KeyAction
  reject : KeyAction
  toggle_vim_mode : KeyAction

abbrev pub no_modifiers : KeyModifiers
no_modifiers = record { control = false; alt = false; shift = false }

unfoldable pub with_modifier : KeyModifiers → String → KeyModifiers
with_modifier m name =
    if str_eq name "ctrl"
    then record m { control = true }
    else if str_eq name "alt"
    then record m { alt = true }
    else if str_eq name "shift"
    then record m { shift = true }
    else m

-- The modifiers of a binding, and its key after the last plus.
unfoldable pub binding_of : KeyModifiers → List String → Option (KeyModifiers × String)
binding_of m [] = none
binding_of m (key ∷ []) = some (m, key)
binding_of m (name ∷ next ∷ parts) = binding_of (with_modifier m name) (next ∷ parts)

abbrev pub bool_eq : Bool → Bool → Bool
bool_eq true b = b
bool_eq false b = not b

abbrev pub same_modifiers : KeyModifiers → KeyModifiers → Bool
same_modifiers m n = bool_eq m.control n.control && bool_eq m.alt n.alt && bool_eq m.shift n.shift

-- The name of a key in a binding, of those that can be bound.
unfoldable pub key_name : KeyCode → String
key_name (char c) = String.◌∷◌ c ""
key_name enter = "enter"
key_name esc = "esc"
key_name tab = "tab"
key_name up = "up"
key_name down = "down"
key_name left = "left"
key_name right = "right"
key_name page_up = ""
key_name page_down = ""
key_name end_key = ""
key_name backspace = ""
key_name (function_key n) =
    if n == 1
    then "f1"
    else if n == 2
    then "f2"
    else if n == 3
    then "f3"
    else if n == 4
    then "f4"
    else ""
key_name other_key = ""

unfoldable pub key_action_matches :
    (KeyAction → Option String) → KeyAction → KeyCode → KeyModifiers → Bool
key_action_matches keymap action code modifiers = elim (keymap action) [
  | none ↦ false
  | some binding ↦ elim (binding_of no_modifiers (split_char 43 (to_ascii_lowercase binding))) [
    | none ↦ false
    | some (expected, key) ↦
        same_modifiers modifiers expected && not (str_eq key "") && str_eq key (key_name code)
  ]
]
