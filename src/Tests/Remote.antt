-- ===== src/Tests/Remote.antt =====
-- Messages of `lx.config`.
use lxmax.Common.{◌≡◌, refl, true, [], ◌∷◌, List, pos, arith}
use lxmax.Max.{codes, sym_eq, Atom, a_long, a_sym}
use lxmax.Universe.Kinds.{
  universe_protocol_from_sym, universe_type_from_sym, universe_protocol_mode_get_list,
  universe_protocol_interface_get_list,
}
use lxmax.Universe.Attributes.{Setting}
use lxmax.Service.Invariant.{HoldsValid}
use lxmax.Service.Table.{Stores}
use lxmax.Service.QuickPatch.{IsOffered}
use lxmax.Remote.{check_arguments, accepted, is_listed, atoms_of}
use lxmax.Remote.Checks.{check_arguments-IsOffered}
use lxmax.Remote.Edits.{Deletes}
use lxmax.Remote.Reach.{Message, run, run-HoldsValid}
use lxmax.Tests.Fixture.{sys, tables, no_configs, interfaces, service, patch, store, delete}

stores : Stores tables
stores t key c = (store t key c, refl)

pub deletes : Deletes tables
deletes t key c found = (delete t key, refl)

pub empty-HoldsValid : HoldsValid no_configs
empty-HoldsValid k c found = absurd (ground (arith, found))

abbrev messages : List Message
messages =
    Message.add
    ∷ Message.patch (a_long (pos 0) ∷ [])
    ∷ Message.write (5 ∷ []) (Setting.priority (a_long (pos 250)))
    ∷ Message.remove (5 ∷ [])
    ∷ Message.clear
    ∷ []

run-HoldsValid_example : HoldsValid (run sys tables service messages).universes
run-HoldsValid_example = run-HoldsValid sys tables service messages empty-HoldsValid

abbrev arguments : List Atom
arguments =
    a_long (pos 1)
    ∷ a_long (pos 4)
    ∷ a_sym (codes "output")
    ∷ a_sym (codes "sACN")
    ∷ a_sym (codes "multicast")
    ∷ a_sym (codes "[global]")
    ∷ a_long (pos 10)
    ∷ a_long (pos 20)
    ∷ []

arguments_accepted : check_arguments sys interfaces arguments ≡ accepted (pos 1) (pos 4) patch
unfolding check_arguments universe_type_from_sym sym_eq universe_protocol_from_sym
    universe_protocol_mode_get_list universe_protocol_interface_get_list
    lxmax.Net.Adapter.network_adapter_get_menu_items
arguments_accepted = refl

check_arguments_example :
    IsOffered patch
    × (is_listed sys patch.protocol_interface (
          atoms_of sys (
            universe_protocol_interface_get_list sys interfaces.network_adapters
              interfaces.serial_ports patch.protocol))
        ≡ true)
check_arguments_example =
    check_arguments-IsOffered sys interfaces arguments (pos 1) (pos 4) patch arguments_accepted
      (λ e. absurd (ground (arith, e)))
