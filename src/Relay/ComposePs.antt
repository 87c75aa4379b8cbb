-- ===== src/Relay/ComposePs.antt =====
-- crates/rustmote-core/src/relay_lifecycle/mod.rs, `parse_compose_ps_json`. The parser of the
-- `serde_json` crate is an argument; its values are known as far as the program looks into them.
use rustmote.Prelude.{Option, none, some, List, [], ◌∷◌, if◌then◌else◌}
use rustmote.Text.{Text, str, text_eq, trim, lines}
use rustmote.Relay.Lifecycle.{ContainerStatus}

mutual
  pub data Value : Type 0 where
    string : Text → Value
    array : Items → Value
    object : Fields → Value
    scalar : Value

  pub data Items : Type 0 where
    no_items : Items
    item : Value → Items → Items

  pub data Fields : Type 0 where
    no_fields : Fields
    member : Text → Value → Fields → Fields

abbrev field_of : Fields → Text → Option Value
field_of no_fields key = none
field_of (member k v fs) key = if text_eq k key then some v else field_of fs key

-- `Value::get` at a key, and `Value::as_str`.
abbrev pub get : Value → Text → Option Value
get (object fs) key = field_of fs key
get v key = none

abbrev pub as_str : Option Value → Option Text
as_str (some (string s)) = some s
as_str o = none

abbrev unwrap_or : Option Text → Text → Text
unwrap_or none s = s
unwrap_or (some t) s = t

unfoldable pub row_from_value : Value → Option ContainerStatus
row_from_value v = elim (as_str (get v (str "Service"))) [
  | none ↦ none
  | some service ↦ some (record {
    service = service;
    state = unwrap_or (as_str (get v (str "State"))) (str "unknown");
    image = as_str (get v (str "Image"));
  })
]

abbrev add_row : Option ContainerStatus → List ContainerStatus → List ContainerStatus
add_row none rows = rows
add_row (some r) rows = r ∷ rows

rows_of_items : Items → List ContainerStatus
rows_of_items no_items = []
rows_of_items (item v vs) = add_row (row_from_value v) (rows_of_items vs)

module _ (from_str : Text → Option Value) where
  rows_of_lines : List Text → List ContainerStatus
  rows_of_lines [] = []
  rows_of_lines (l ∷ ls) =
      let rest = rows_of_lines ls in
      elim (from_str l) [ none ↦ rest | some v ↦ add_row (row_from_value v) rest ]

  -- An array, or else one object to a line.
  unfoldable pub parse_compose_ps_json : Text → List ContainerStatus
  unfolding rows_of_items rows_of_lines row_from_value
  parse_compose_ps_json raw =
      let trimmed = trim raw in
      elim trimmed [
        | [] ↦ []
        | c ∷ s ↦ elim (from_str (c ∷ s)) [
          | some (array items) ↦ rows_of_items items
          | _ ↦ rows_of_lines (lines (c ∷ s))
        ]
      ]
