-- ===== src/Ui/WriteBack.antt =====
-- lx.config.ui.c: a cell that is edited to the value that it shows.
use lxmax.Common.{◌≡◌, refl, sym, ap, ◌∙◌, Bool-cases, Option-cases, inl, inr, some, ℤ, arith}
use lxmax.Max.{System, Symbol, sym_eq, sym_eq_iff, Atom}
use lxmax.Symbols.{universe_config_protocol_universe, universe_config_priority}
use lxmax.Universe.Config.{UniverseConfig}
use lxmax.Universe.Attributes.{Setting, attr_set, protocol_universe, priority}
use lxmax.Universe.Getters.{protocol_universe_get, priority_get, get_universe, get_priority}
use lxmax.Universe.Laws.ReadBack.{protocol_universe_set-get, priority_set-get}
use lxmax.Service.{Tables}
use lxmax.Service.Invariant.{HoldsValid}
use lxmax.Remote.Reach.{written, write_universe}
use lxmax.Sorted.{Listing}
use lxmax.Ui.{ConfigUi, ui_set_value}
use lxmax.Ui.Cells.{cell_value, config_getvalueof, cell_atoms, first_value, get_cell_value}

cell_value-inj : (v w : Atom) → cell_value v ≡ cell_value w → v ≡ w
cell_value-inj v w h = ground (arith, h)

module _ (sys : System) (tables : Tables) (sdk : Listing UniverseConfig) where
  -- A write that does not change the configuration of its row changes no entry of the table.
  ui_set_value-same :
      (x : ConfigUi) (s : Setting) (row : Symbol)
      → ((c : UniverseConfig)
          → x.service.universes.lookup row ≡ some c
          → attr_set sys x.service.interfaces c s ≡ c)
      → (k : Symbol)
      → (ui_set_value sys tables sdk s row x).service.universes.lookup k
        ≡ x.service.universes.lookup k
  unfolding ui_set_value write_universe written
  ui_set_value-same x s row keeps k = elim (Option-cases (x.service.universes.lookup k)) [
    | inl e ↦ rw (e, written) refl
    | inr (c, e) ↦ elim (Bool-cases (sym_eq row k)) [
      | inl same ↦
          let here =
            ap (λ (n : Symbol). x.service.universes.lookup n) ((sym_eq_iff row k).0 same) in
          rw (e, written, same) (ap some (keeps c (here ∙ e)))
      | inr other ↦ rw (e, written, other) refl
    ]
  ]

  shown_universe :
      (null_atom : Atom) (x : ConfigUi) (row : Symbol) (v : Atom) (c : UniverseConfig)
      → get_cell_value sys null_atom universe_config_protocol_universe row x ≡ cell_value v
      → x.service.universes.lookup row ≡ some c
      → v ≡ get_universe sys c.protocol c.protocol_universe
  unfolding get_cell_value cell_atoms first_value config_getvalueof protocol_universe_get sym_eq
  shown_universe null_atom x row v c h e =
      cell_value-inj _ _ (sym (rw (e, cell_atoms, first_value) at h))

  shown_priority :
      (null_atom : Atom) (x : ConfigUi) (row : Symbol) (v : Atom) (c : UniverseConfig)
      → get_cell_value sys null_atom universe_config_priority row x ≡ cell_value v
      → x.service.universes.lookup row ≡ some c
      → v ≡ get_priority sys c.protocol c.priority
  unfolding get_cell_value cell_atoms first_value config_getvalueof priority_get sym_eq
  shown_priority null_atom x row v c h e =
      cell_value-inj _ _ (sym (rw (e, cell_atoms, first_value) at h))

  -- If every entry of the table is a valid configuration under its own name, editing the cell of the
  -- protocol universe, or that of the priority, to the value that it shows changes no entry.
  pub ui_set_value-get_cell_value :
      (null_atom : Atom) (x : ConfigUi) (row : Symbol) (value : ℤ) (v w : Atom)
      → HoldsValid x.service.universes
      → get_cell_value sys null_atom universe_config_protocol_universe row x ≡ cell_value v
      → get_cell_value sys null_atom universe_config_priority row x ≡ cell_value w
      → (k : Symbol)
      → ((ui_set_value sys tables sdk (protocol_universe value v) row x).service.universes.lookup k
          ≡ x.service.universes.lookup k)
        × ((ui_set_value sys tables sdk (priority w) row x).service.universes.lookup k
            ≡ x.service.universes.lookup k)
  unfolding attr_set protocol_universe_get priority_get
  ui_set_value-get_cell_value null_atom x row value v w h p q k = (
    ui_set_value-same x (protocol_universe value v) row
        (λ c e.
          rw (shown_universe null_atom x row v c p e)
            (protocol_universe_set-get sys c value v (h row c e).0))
        k,
    ui_set_value-same x (priority w) row
        (λ c e.
          rw (shown_priority null_atom x row w c q e) (priority_set-get sys c w (h row c e).0))
        k,
  )
