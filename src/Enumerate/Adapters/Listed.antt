-- ===== src/Enumerate/Adapters/Listed.antt =====
-- lx_net_win.c: the adapters are those of the first try that is not too short, the last of each name.
use lxmax.Common.{Bool, ℕ, zero, suc, ◌≡◌, ◌↔◌, ◌⊎◌, refl, ◌∙◌, inl, inr, List, some, arith}
use lxmax.Max.{Symbol, sym_eq, IpAddress}
use lxmax.Net.Adapter.{NetworkAdapter}
use lxmax.Enumerate.{Filling, NeverFull, lookup-stored}
use lxmax.Enumerate.Filled.{IsLast, Stores, for_each_iff}
use lxmax.Enumerate.Adapters.{
  network_adapter_new, IpAdapterAddresses, AdaptersResult, error_buffer_overflow, error_other,
  no_error, unicast_entries, add_adapter, try_adapters, fill_table, enumerate_win,
}

result-cases :
    (r : AdaptersResult)
    → ((xs : List IpAdapterAddresses) × (r ≡ no_error xs))
      ⊎ ((r ≡ error_buffer_overflow) ⊎ (r ≡ error_other))
result-cases error_buffer_overflow = inr (inl refl)
result-cases error_other = inr (inr refl)
result-cases (no_error xs) = inl (xs, refl)

module _ (get : ℕ → AdaptersResult × ℕ) where
  -- A call with the adapters as its result, after at most so many calls whose buffer was too short.
  pub data Succeeds : ℕ → ℕ → List IpAdapterAddresses → Type 0 where
    now :
        {tries buffer_length : ℕ} {xs : List IpAdapterAddresses}
        → (get buffer_length).0 ≡ no_error xs
        → Succeeds tries buffer_length xs
    later :
        {tries buffer_length : ℕ} {xs : List IpAdapterAddresses}
        → (get buffer_length).0 ≡ error_buffer_overflow
        → Succeeds tries ((get buffer_length).1) xs
        → Succeeds (suc tries) buffer_length xs

  try_adapters-now :
      (tries buffer_length : ℕ) (xs : List IpAdapterAddresses)
      → (get buffer_length).0 ≡ no_error xs
      → try_adapters get tries buffer_length ≡ no_error xs
  unfolding try_adapters
  try_adapters-now zero buffer_length xs e = e
  try_adapters-now (suc tries) buffer_length xs e = rw (e, try_adapters) refl

  Succeeds-try_adapters :
      {tries buffer_length : ℕ} {xs : List IpAdapterAddresses}
      → Succeeds tries buffer_length xs
      → try_adapters get tries buffer_length ≡ no_error xs
  unfolding try_adapters
  Succeeds-try_adapters (now {tries} {buffer_length} {xs} e) =
      try_adapters-now tries buffer_length xs e
  Succeeds-try_adapters (later e s) = rw (e, try_adapters) (Succeeds-try_adapters s)

  try_adapters-Succeeds :
      (tries buffer_length : ℕ) (xs : List IpAdapterAddresses)
      → try_adapters get tries buffer_length ≡ no_error xs
      → Succeeds tries buffer_length xs
  unfolding try_adapters
  try_adapters-Succeeds zero buffer_length xs h = now h
  try_adapters-Succeeds (suc tries) buffer_length xs h = elim (result-cases (get buffer_length).0) [
    | inl (ys, e) ↦ now (e ∙ (rw (e, try_adapters) at h))
    | inr (inl e) ↦
        later e (try_adapters-Succeeds tries (get buffer_length).1 xs (rw (e, try_adapters) at h))
    | inr (inr e) ↦ absurd (ground (arith, (rw (e, try_adapters) at h)))
  ]

module _ (mask_of_length : ℕ → IpAddress) where
  -- An adapter with its IPv4 addresses.
  abbrev pub listed : IpAdapterAddresses → NetworkAdapter
  listed x = record {
    name = x.friendly_name;
    index = x.if_index;
    addresses = unicast_entries mask_of_length x.unicast_addresses;
  }

  abbrev pub has_name : IpAdapterAddresses → Symbol → Bool
  has_name x k = sym_eq x.friendly_name k

  module _ (filling : Filling NetworkAdapter) (total : NeverFull filling) where
    add_adapter-Stores : Stores has_name listed (add_adapter mask_of_length filling)
    unfolding add_adapter network_adapter_new
    add_adapter-Stores x t k = lookup-stored filling t x.friendly_name (listed x) total k

    -- If no store fails, an adapter is found on Windows exactly when one of the first three calls of
    -- `GetAdaptersAddresses` succeeds, those before it had too short a buffer, and the adapter is made
    -- from the last one of that name in what it returns, with its IPv4 addresses.
    pub enumerate_win_iff :
        (get : ℕ → AdaptersResult × ℕ) (buffer_length : ℕ) (k : Symbol) (y : NetworkAdapter)
        → ((enumerate_win mask_of_length filling get buffer_length).lookup k ≡ some y)
          ↔ (xs : List IpAdapterAddresses) × Succeeds get 2 buffer_length xs
            × (x : IpAdapterAddresses) × IsLast (λ z. has_name z k) xs x
            × (listed x ≡ y)
    unfolding enumerate_win fill_table
    enumerate_win_iff get buffer_length k y =
        let filled = λ (xs : List IpAdapterAddresses).
          for_each_iff has_name listed (add_adapter mask_of_length filling) xs filling.hashtab_new k
            y add_adapter-Stores (filling.hashtab_new_lem k) in
        (
          λ h. elim (result-cases (try_adapters get 2 buffer_length)) [
            | inl (xs, e) ↦
                let r = (filled xs).0 (rw (e, fill_table) at h) in
                (xs, try_adapters-Succeeds get 2 buffer_length xs e, r.0, r.1, r.2)
            | inr (inl e) ↦
                absurd (ground (arith, (rw (e, fill_table) at h), filling.hashtab_new_lem k))
            | inr (inr e) ↦
                absurd (ground (arith, (rw (e, fill_table) at h), filling.hashtab_new_lem k))
          ],
          λ r. rw (Succeeds-try_adapters get r.1, fill_table) ((filled r.0).1 (r.2, r.3, r.4)),
        )
