-- ===== src/Tests/Clients.antt =====
-- Runs and instances for objects that subscribe, and for a socket.
use lxmax.Common.{
  ℕ, ◌≡◌, ◌==◌, refl, Bool, true, false, not, ◌&&◌, ◌||◌, List, [], ◌∷◌, map, replicate,
}
use lxmax.Clients.{Registrations, Lifetime, live_all, IsAttached, live_all-IsAttached}
use lxmax.Udp.{Completion, complete, udp_socket_service}
use lxmax.Udp.Received.{heard, read_delivery, udp_socket_service-heard}

-- The registry as whether the service is there, and which objects wait.
abbrev registrations : Registrations (Bool × (ℕ → Bool))
registrations = record {
  is_registered = λ r. r.0;
  is_subscribed = λ r y. r.1 y;
  object_subscribe = λ r x. ((r.0, λ (y : ℕ). x == y || r.1 y), r.0);
  object_unsubscribe = λ r x. (r.0, λ (y : ℕ). not (x == y) && r.1 y);
  subscribe_found = λ r x. refl;
  subscribe_registered = λ r x. refl;
  subscribe_subscribed = λ r x y. refl;
  unsubscribe_registered = λ r x. refl;
  unsubscribe_subscribed = λ r x y. refl;
}

abbrev nobody : ℕ → Bool
nobody y = false

abbrev lifetimes : List Lifetime
lifetimes = Lifetime.create 4 ∷ Lifetime.create 6 ∷ Lifetime.release 4 ∷ Lifetime.release 9 ∷ []

live_all-IsAttached_example :
    IsAttached registrations (live_all registrations ((true, nobody), nobody) lifetimes)
live_all-IsAttached_example =
    live_all-IsAttached registrations ((true, nobody), nobody) lifetimes
      (record { registered = refl; subscribed = λ y. refl })

abbrev completions : List (Completion ℕ)
completions =
    Completion.arrived 1 (7 ∷ 8 ∷ [])
    ∷ Completion.message_size 2 (replicate 3 5)
    ∷ Completion.failed
    ∷ Completion.arrived 1 (9 ∷ [])
    ∷ []

heard_example :
    map read_delivery (complete completions (udp_socket_service (0 ∷ []))).delivered
    ≡ heard completions
heard_example = udp_socket_service-heard (0 ∷ []) completions
