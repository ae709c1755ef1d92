-- ===== src/Serial.antt =====
-- lx_serial.c and lx_serial.h: serial ports, their menu items and how one is found by its item.
use lxmax.Common.{
  if◌then◌else◌, Bool, not, List, [], ◌∷◌, ◌++◌, map, take, Option, none, some, ◌>>=◌,
}
use lxmax.Max.{
  Text, Symbol, codes, sym_eq, MaxErr, err_none, err_generic, Atom, a_sym, Max, Hashtab, Platform,
  win, mac,
}
use lxmax.Symbols.{interface_none, not_applicable, unknown}
use lxmax.Text.{is_dot, literal}

-- `t_lx_serial_port`
pub record SerialPort : Type 0 where
  pub description : Symbol
  pub hardware_id : Symbol
  pub port : Symbol

-- `(.*)\)` up to the end of the text: all but the last byte, which is `)`.
port_group : Text → Option Text
port_group [] = none
port_group (c ∷ s) =
    let longer = port_group s >>= (λ p. some (c ∷ p)) in
    elim (if is_dot c then longer else none) [
      | none ↦ if sym_eq (c ∷ s) (codes ")") then some [] else none
      | some p ↦ some p
    ]

-- `std::regex_match` with `(.*) \((.*)\)`: the two groups. The first is greedy.
unfoldable pub port_matches : Text → Option (Text × Text)
unfolding port_group literal
port_matches [] = none
port_matches (c ∷ s) =
    let longer = port_matches s in
    let shortest = literal (codes " (") (c ∷ s) >>= port_group >>= (λ port. some ([], port)) in
    elim (if is_dot c then longer else none) [
      | none ↦ shortest
      | some (description, port) ↦ some (c ∷ description, port)
    ]

module _ (ports : Hashtab SerialPort) where
  -- A loop over the keys that stops at the first port that passes a test.
  pub find_port : (SerialPort → Bool) → List Symbol → Option SerialPort → Option SerialPort
  find_port test [] port = port
  find_port test (key ∷ keys) port =
      let rest = find_port test keys port in
      elim (ports.lookup key) [ none ↦ rest | some p ↦ if test p then some p else rest ]

-- `lx_serial_port_find`: the error code and the new `*port`. `result` is never set between the
-- loops, so the second runs unless the description is `[none]`.
unfoldable pub serial_port_find :
    Hashtab SerialPort → Symbol → Option SerialPort → MaxErr × Option SerialPort
unfolding port_matches find_port
serial_port_find ports s port = elim (port_matches s) [
  | none ↦ (err_generic, port)
  | some (port_description, port_name) ↦ elim ports.getkeys [
    | none ↦ (err_none, port)
    | some keys ↦
        let by_name = find_port ports (λ p. sym_eq p.port port_name) keys port in
        (
          err_none,
          if not (sym_eq port_description interface_none)
              then find_port ports (λ p. sym_eq p.description port_description) keys by_name
              else by_name,
        )
  ]
]

-- `lx_serial_port_to_sym`
unfoldable pub serial_port_to_sym : Platform → SerialPort → Symbol
serial_port_to_sym win p = p.port
serial_port_to_sym mac p =
    let description = if sym_eq p.description not_applicable then unknown else p.description in
    take 255 (description ++ (codes " (" ++ (p.port ++ codes ")")))

-- `lx_serial_port_get_menu_items`: the atoms, or `none` where `argc` and `argv` stay.
unfoldable pub serial_port_get_menu_items : Platform → Max → Hashtab SerialPort → Option (List Atom)
unfolding serial_port_to_sym
serial_port_get_menu_items platform m ports = elim ports.getkeys [
  | none ↦ none
  | some keys ↦ some (
      a_sym interface_none
      ∷ map
          (λ key. elim (ports.lookup key) [
            | none ↦ m.blank
            | some p ↦ a_sym (serial_port_to_sym platform p)
          ])
          keys)
]
