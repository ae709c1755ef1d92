-- ===== src/Clients.antt =====
-- lx_service.c: how objects subscribe to the service; lx.dmx.read.c and lx.dmx.write.c, whose objects
-- do nothing else. Those of lx.config and lx.config.ui are made and released in the same way.
use lxmax.Common.{
  ℕ, ◌≡◌, ◌==◌, refl, ap, ◌∙◌, Bool, true, false, Bool-cases, inl, inr, not, ◌&&◌, ◌||◌,
  if◌then◌else◌, List, [], ◌∷◌, arith,
}

-- The SDK's registry as a client sees it: whether the service is registered, and which objects are
-- subscribed. A subscription waits for the service where it is not registered yet.
pub record Registrations (R : Type 0) : Type 0 where
  pub is_registered : R → Bool
  pub is_subscribed : R → ℕ → Bool
  pub object_subscribe : R → ℕ → R × Bool
  pub object_unsubscribe : R → ℕ → R
  pub subscribe_found : (r : R) (x : ℕ) → (object_subscribe r x).1 ≡ is_registered r
  pub subscribe_registered :
      (r : R) (x : ℕ) → is_registered ((object_subscribe r x).0) ≡ is_registered r
  pub subscribe_subscribed :
      (r : R) (x y : ℕ) → is_subscribed ((object_subscribe r x).0) y ≡ (x == y || is_subscribed r y)
  pub unsubscribe_registered :
      (r : R) (x : ℕ) → is_registered (object_unsubscribe r x) ≡ is_registered r
  pub unsubscribe_subscribed :
      (r : R) (x y : ℕ)
      → is_subscribed (object_unsubscribe r x) y ≡ (not (x == y) && is_subscribed r y)

-- An object is made, or one that is there is released.
pub data Lifetime : Type 0 where
  create release : ℕ → Lifetime

module _ {R : Type 0} (sdk : Registrations R) where
  -- `lx_service_subscribe`: whether it finds the service.
  unfoldable pub service_subscribe : R → ℕ → R × Bool
  service_subscribe r x = sdk.object_subscribe r x

  -- `lx_service_unsubscribe`, with whether the object has a service.
  unfoldable pub service_unsubscribe : R → ℕ → Bool → R
  service_unsubscribe r x service = if service then sdk.object_unsubscribe r x else r

  -- `lx_dmx_read_free`
  unfoldable pub client_free : R → ℕ → Bool → R
  unfolding service_unsubscribe
  client_free r x service = service_unsubscribe r x service

  -- `lx_dmx_write_new`: whether there is an object. `object_free` calls its free method.
  unfoldable pub client_new : R → ℕ → R × Bool
  unfolding service_subscribe client_free
  client_new r x =
      let s = service_subscribe r x in if s.1 then (s.0, true) else (client_free s.0 x s.1, false)

  -- The registry, and which objects there are.
  unfoldable pub live : R × (ℕ → Bool) → Lifetime → R × (ℕ → Bool)
  unfolding client_new
  live (r, objects) (create x) =
      let c = client_new r x in (c.0, λ y. if c.1 then x == y || objects y else objects y)
  live (r, objects) (release x) =
      if objects x then (client_free r x true, λ y. not (x == y) && objects y) else (r, objects)

  unfoldable pub live_all : R × (ℕ → Bool) → List Lifetime → R × (ℕ → Bool)
  unfolding live
  live_all s [] = s
  live_all s (l ∷ ls) = live_all (live s l) ls

  -- The service is registered, and the subscribed objects are those that there are.
  pub record IsAttached (s : R × (ℕ → Bool)) : Type 0 where
    pub registered : sdk.is_registered s.0 ≡ true
    pub subscribed : (y : ℕ) → sdk.is_subscribed s.0 y ≡ s.1 y

  live-IsAttached : (s : R × (ℕ → Bool)) (l : Lifetime) → IsAttached s → IsAttached (live s l)
  unfolding live client_new client_free service_subscribe service_unsubscribe
  live-IsAttached (r, objects) (create x) a =
      let found = sdk.subscribe_found r x ∙ a.registered in
      rw (found, live, client_new)
        (record {
          registered = sdk.subscribe_registered r x ∙ a.registered;
          subscribed = λ y. sdk.subscribe_subscribed r x y ∙ ap (λ b. x == y || b) (a.subscribed y);
        })
  live-IsAttached (r, objects) (release x) a = elim (Bool-cases (objects x)) [
    | inl there ↦
        rw (there, live)
          (record {
            registered = sdk.unsubscribe_registered r x ∙ a.registered;
            subscribed = λ y.
                sdk.unsubscribe_subscribed r x y ∙ ap (λ b. not (x == y) && b) (a.subscribed y);
          })
    | inr gone ↦ rw (gone, live) a
  ]

  -- While the service is registered, objects that are made and released in any order keep the
  -- subscribed objects those that there are.
  pub live_all-IsAttached :
      (s : R × (ℕ → Bool)) (ls : List Lifetime) → IsAttached s → IsAttached (live_all s ls)
  unfolding live_all
  live_all-IsAttached s [] a = a
  live_all-IsAttached s (l ∷ ls) a = live_all-IsAttached (live s l) ls (live-IsAttached s l a)

  -- Without the service no object is made, and yet the freed object stays subscribed.
  pub client_new-unregistered :
      (r : R) (x : ℕ)
      → sdk.is_registered r ≡ false
      → ((client_new r x).1 ≡ false) × (sdk.is_subscribed ((client_new r x).0) x ≡ true)
  unfolding client_new client_free service_subscribe service_unsubscribe
  client_new-unregistered r x h =
      let missing = sdk.subscribe_found r x ∙ h in
      rw (missing, client_new) (refl, sdk.subscribe_subscribed r x x ∙ ground arith)
