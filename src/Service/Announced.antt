-- ===== src/Service/Announced.antt =====
-- lx_service.c: every call that changes the table of universes sends its notification.
use lxmax.Common.{
  ℕ, zero, suc, ◌≡◌, ◌⊎◌, refl, sym, ap, ◌∙◌, Bool, true, false, Bool-cases, Option-cases, inl, inr,
  List, [], ◌∷◌, ◌++◌, append_assoc, map, Option, none, some, ℤ, pos_part, ltb, arith,
}
use mathlib.Core.List.{append-nil}
use lxmax.Max.{System, Hashtab}
use lxmax.Universe.Config.{UniverseConfig}
use lxmax.Service.{
  Tables, Service, Event, attach, detach, universes_updated, universes_add, universes_remove,
  universes_clear, Patch, patched, patch_stored, patch_round, patch_rounds, universes_quick_patch,
}

-- Whether there is a notification among the events.
abbrev pub announces : List Event → Bool
announces [] = false
announces (universes_updated ∷ es) = true
announces (_ ∷ es) = announces es

announces-left : (es fs : List Event) → announces es ≡ true → announces (es ++ fs) ≡ true
announces-left [] fs h = absurd (ground (arith, h))
announces-left (universes_updated ∷ es) fs h = refl
announces-left (attach s ∷ es) fs h = announces-left es fs h
announces-left (detach s ∷ es) fs h = announces-left es fs h

announces-right : (es fs : List Event) → announces fs ≡ true → announces (es ++ fs) ≡ true
announces-right [] fs h = h
announces-right (universes_updated ∷ es) fs h = refl
announces-right (attach s ∷ es) fs h = announces-right es fs h
announces-right (detach s ∷ es) fs h = announces-right es fs h

-- `y` comes after `x`: `sent` are the events between them, and the table is that of `x` unless they
-- have a notification.
pub record Announced (x y : Service) : Type 0 where
  pub sent : List Event
  pub sent_after : y.events ≡ x.events ++ sent
  pub told : (y.universes ≡ x.universes) ⊎ (announces sent ≡ true)

pub unchanged : (x : Service) → Announced x x
unchanged x = record { sent = []; sent_after = sym (append-nil x.events); told = inl refl }

pub Announced-trans : (x y z : Service) → Announced x y → Announced y z → Announced x z
Announced-trans x y z p q = record {
  sent = p.sent ++ q.sent;
  sent_after =
      q.sent_after ∙ (ap (λ es. es ++ q.sent) p.sent_after ∙ append_assoc x.events p.sent q.sent);
  told = elim p.told [
    | inr a ↦ inr (announces-left p.sent q.sent a)
    | inl same ↦ elim q.told [
      | inr b ↦ inr (announces-right p.sent q.sent b)
      | inl also ↦ inl (also ∙ same)
    ]
  ];
}

module _ (tables : Tables) where
  pub universes_add-Announced :
      (x : Service) (c : UniverseConfig) → Announced x (universes_add tables x c)
  unfolding universes_add
  universes_add-Announced x c = elim (Option-cases (tables.hashtab_store x.universes c.name c)) [
    | inl e ↦ rw (e, universes_add) (unchanged x)
    | inr (t, e) ↦
        rw (e, universes_add)
          (record {
            sent = attach c.name ∷ universes_updated ∷ [];
            sent_after = refl;
            told = inr refl;
          })
  ]

  pub universes_remove-Announced :
      (x : Service) (c : UniverseConfig) → Announced x (universes_remove tables x c)
  unfolding universes_remove
  universes_remove-Announced x c = elim (Option-cases (tables.hashtab_delete x.universes c.name)) [
    | inl e ↦
        rw (e, universes_remove)
          (record { sent = detach c.name ∷ []; sent_after = refl; told = inl refl })
    | inr (t, e) ↦
        rw (e, universes_remove)
          (record {
            sent = detach c.name ∷ universes_updated ∷ [];
            sent_after = refl;
            told = inr refl;
          })
  ]

  pub universes_clear-Announced : (x : Service) → Announced x (universes_clear tables x)
  unfolding universes_clear
  universes_clear-Announced x =
      let detached = map (λ (c : UniverseConfig). detach c.name) (tables.entries x.universes) in
      record {
        sent = detached ++ (universes_updated ∷ []);
        sent_after = refl;
        told = inr (announces-right detached (universes_updated ∷ []) refl);
      }

module _ (sys : System) (tables : Tables) where
  -- The events of the rounds of a quick patch come after those before.
  patch_stored-events :
      (x : Service) (c : UniverseConfig) (r : Option (Hashtab UniverseConfig))
      → (es : List Event) × ((patch_stored sys tables x c r).events ≡ x.events ++ es)
  unfolding patch_stored
  patch_stored-events x c none = ([], sym (append-nil x.events))
  patch_stored-events x c (some t) = (attach c.name ∷ [], refl)

  patch_round-events :
      (p : Patch) (i : ℕ) (x : Service)
      → (es : List Event) × ((patch_round sys tables p i x).events ≡ x.events ++ es)
  unfolding patch_round
  patch_round-events p i x =
      patch_stored-events (record x { names_used = suc x.names_used })
        (patched sys tables x.interfaces p (tables.unique x.names_used) i) _

  patch_rounds-events :
      (p : Patch) (i rounds : ℕ) (x : Service)
      → (es : List Event) × ((patch_rounds sys tables p i rounds x).events ≡ x.events ++ es)
  unfolding patch_rounds
  patch_rounds-events p i zero x = ([], sym (append-nil x.events))
  patch_rounds-events p i (suc rounds) x =
      let first = patch_round-events p i x in
      let rest = patch_rounds-events p (suc i) rounds (patch_round sys tables p i x) in
      (
        first.0 ++ rest.0,
        rest.1 ∙ (ap (λ es. es ++ rest.0) first.1 ∙ append_assoc x.events first.0 rest.0),
      )

  no_rounds :
      (n : ℕ) (p : Patch) (x : Service) → ltb 0 n ≡ false → patch_rounds sys tables p 0 n x ≡ x
  unfolding patch_rounds
  no_rounds zero p x h = refl
  no_rounds (suc n) p x h = absurd (ground (arith, h))

  pub universes_quick_patch-Announced :
      (x : Service) (patch_count : ℤ) (p : Patch)
      → Announced x (universes_quick_patch sys tables x patch_count p)
  unfolding universes_quick_patch
  universes_quick_patch-Announced x patch_count p =
      let rounds = patch_rounds-events p 0 (pos_part patch_count) x in
      elim (Bool-cases (ltb 0 (pos_part patch_count))) [
        | inl positive ↦
            rw (positive, universes_quick_patch)
              (record {
                sent = rounds.0 ++ (universes_updated ∷ []);
                sent_after =
                    ap (λ es. es ++ (universes_updated ∷ [])) rounds.1
                    ∙ append_assoc x.events rounds.0 (universes_updated ∷ []);
                told = inr (announces-right rounds.0 (universes_updated ∷ []) refl);
              })
        | inr empty ↦
            rw (empty, universes_quick_patch, no_rounds (pos_part patch_count) p x empty)
              (unchanged x)
      ]
