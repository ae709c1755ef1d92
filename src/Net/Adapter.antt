-- ===== src/Net/Adapter.antt =====
-- lx_net.c: network adapters, their menu items and how one is found by its menu item.
use lxmax.Common.{
  ℕ, zero, suc, ◌==◌, leb, if◌then◌else◌, Bool, true, false, ◌&&◌, List, [], ◌∷◌, ◌++◌, map, take,
  length, Option, none, some, ◌>>=◌, ℤ,
}
use lxmax.Max.{
  Text, Symbol, codes, sym_eq, MaxErr, err_none, err_generic, Atom, a_sym, Max, Inet, IpAddress,
  Hashtab,
}
use lxmax.Symbols.{interface_ip_adapter_global, interface_ip_adapter_all}
use lxmax.Text.{span, is_digit, is_cons, is_dot, literal}
use lxmax.Net.Broadcast.{to_directed_broadcast}

-- `t_lx_adapter_address`
pub record AdapterAddress : Type 0 where
  pub address : IpAddress
  pub subnet_mask : IpAddress

-- `t_lx_network_adapter`; an adapter is not changed after `lx_network_adapter_new`.
pub record NetworkAdapter : Type 0 where
  pub name : Symbol
  pub index : ℤ
  pub addresses : List AdapterAddress

-- `memcmp(x, y, 4) == 0`
abbrev pub ip_eq : IpAddress → IpAddress → Bool
ip_eq x y = x.a == y.a && x.b == y.b && x.c == y.c && x.d == y.d

-- `lx_helpers_symbol_join`
pub symbol_join : List Symbol → Text → Symbol
symbol_join [] separator = []
symbol_join (s ∷ []) separator = s
symbol_join (s ∷ t ∷ rest) separator = s ++ (separator ++ symbol_join (t ∷ rest) separator)

-- `\d{1,3}`: the run of digits is taken whole, since no byte after it in the expression is a digit.
octet_text : Text → Option (Text × Text)
octet_text s = let r = span is_digit s in if is_cons r.0 && leb (length r.0) 3 then some r else none

-- `\d{1,3}\.\d{1,3}\.\d{1,3}\.\d{1,3}` and what follows.
dotted : Text → Option (Text × Text)
unfolding octet_text literal
dotted s = do
  (p, s1) ← octet_text s
  s2 ← literal (codes ".") s1
  (q, s3) ← octet_text s2
  s4 ← literal (codes ".") s3
  (u, s5) ← octet_text s4
  s6 ← literal (codes ".") s5
  (v, s7) ← octet_text s6
  some (p ++ (codes "." ++ (q ++ (codes "." ++ (u ++ (codes "." ++ v))))), s7)

-- `(?:\, \d{1,3}…)*\)` up to the end of the text. Each round takes at least one byte, so the length
-- of the text is fuel enough; `,` and `)` differ, so there is nothing to try again.
list_tail : ℕ → Text → Bool
unfolding dotted
list_tail zero s = false
list_tail (suc f) s =
    let more : Bool = elim (literal (codes ", ") s >>= dotted) [
      | none ↦ false
      | some (ip, rest) ↦ list_tail f rest
    ] in
    if sym_eq s (codes ")") then true else more

-- What follows the first group: the second group, if the rest matches.
after_name : Text → Option Text
unfolding list_tail literal
after_name s = do
  s1 ← literal (codes " (") s
  (ip, s2) ← dotted s1
  if list_tail (suc (length s2)) s2 then some ip else none

-- `std::regex_match` with the expression of `lx_network_adapter_find`: its first two groups. The
-- first group is greedy, so the longest one comes first.
pub adapter_matches : Text → Option (Text × Text)
unfolding after_name
adapter_matches [] = none
adapter_matches (c ∷ s) =
    let longer = adapter_matches s in
    let shortest = after_name (c ∷ s) >>= (λ ip. some ([], ip)) in
    elim (if is_dot c then longer else none) [
      | none ↦ shortest
      | some (name, ip) ↦ some (c ∷ name, ip)
    ]

-- One of the adapter's addresses is `ip`.
pub owns : List AdapterAddress → IpAddress → Bool
owns [] ip = false
owns (x ∷ xs) ip = if ip_eq x.address ip then true else owns xs ip

module _ (adapters : Hashtab NetworkAdapter) where
  -- The first loop: it stops at the first adapter of that name.
  pub find_name : List Symbol → Symbol → Option NetworkAdapter → Option NetworkAdapter
  find_name [] name adapter = adapter
  find_name (key ∷ keys) name adapter =
      let rest = find_name keys name adapter in
      elim (adapters.lookup key) [
        | none ↦ rest
        | some a ↦ if sym_eq a.name name then some a else rest
      ]

  -- The second loop: its `break` leaves the loop over addresses only, so the last adapter stays.
  pub find_address : List Symbol → IpAddress → Option NetworkAdapter → Option NetworkAdapter
  unfolding owns
  find_address [] ip adapter = adapter
  find_address (key ∷ keys) ip adapter = find_address keys ip (elim (adapters.lookup key) [
    | none ↦ adapter
    | some a ↦ if owns a.addresses ip then some a else adapter
  ])

module _ (inet : Inet) where
  -- `lx_network_adapter_find`: the error code and the new `*adapter`. `result` is never set before
  -- the second loop, so that loop always runs.
  unfoldable pub network_adapter_find :
      Hashtab NetworkAdapter → Symbol → Option NetworkAdapter → MaxErr × Option NetworkAdapter
  unfolding adapter_matches find_name find_address
  network_adapter_find adapters s adapter = elim (adapter_matches s) [
    | none ↦ (err_generic, adapter)
    | some (name, ip_text) ↦ elim (inet.inet_pton ip_text) [
      | none ↦ (err_none, adapter)
      | some ip ↦ elim adapters.getkeys [
        | none ↦ (err_none, adapter)
        | some keys ↦
            (err_none, find_address adapters keys ip (find_name adapters keys name adapter))
      ]
    ]
  ]

  -- `lx_network_adapter_to_sym`: the buffer holds 255 bytes and the terminator.
  unfoldable pub network_adapter_to_sym : NetworkAdapter → Symbol
  unfolding symbol_join
  network_adapter_to_sym adapter = take 255 (
      adapter.name
      ++ (codes " ("
          ++ (symbol_join (map (λ x. inet.inet_ntop x.address) adapter.addresses) (codes ", ")
              ++ codes ")")))

  -- One atom of the menu: a key that is not found leaves the atom as it was allocated.
  menu_item : Max → Hashtab NetworkAdapter → Symbol → Atom
  unfolding network_adapter_to_sym
  menu_item m adapters key = elim (adapters.lookup key) [
    | none ↦ m.blank
    | some adapter ↦ a_sym (network_adapter_to_sym adapter)
  ]

  -- `lx_network_adapter_get_menu_items`: the atoms, or `none` where `argc` and `argv` stay.
  unfoldable pub network_adapter_get_menu_items : Max → Hashtab NetworkAdapter → Option (List Atom)
  unfolding menu_item
  network_adapter_get_menu_items m adapters = elim adapters.getkeys [
    | none ↦ none
    | some keys ↦ some (
        a_sym interface_ip_adapter_global
        ∷ a_sym interface_ip_adapter_all
        ∷ map (menu_item m adapters) keys)
  ]

-- `lx_network_adapter_get_broadcast_ips`
unfoldable pub network_adapter_get_broadcast_ips : NetworkAdapter → List IpAddress
network_adapter_get_broadcast_ips adapter =
    map (λ x. to_directed_broadcast x.address x.subnet_mask) adapter.addresses
