-- ===== src/Udp/Received.antt =====
-- udp_socket_service.cpp: what the callback is given of the datagrams that arrive.
use mathlib.Core.List.{append-nil}
use lxmax.Common.{
  ℕ, ◌≡◌, refl, sym, ap, ◌∙◌, true, false, List, [], ◌∷◌, ◌++◌, append_assoc, map, take, drop,
  length,
}
use lxmax.Wire.Bytes.{take_exact}
use lxmax.Udp.{
  Delivery, UdpSocketService, Completion, arrived, message_size, failed, overwritten, start_receive,
  deliver, handle, complete, udp_socket_service,
}

map-append : {A B : Type 0} (f : A → B) (xs ys : List A) → map f (xs ++ ys) ≡ map f xs ++ map f ys
map-append f [] ys = refl
map-append f (x ∷ xs) ys = ap (λ l. f x ∷ l) (map-append f xs ys)

module _ {E : Type 0} where
  -- The datagrams up to the first error, each cut to 1024 bytes.
  abbrev pub heard : List (Completion E) → List (E × List ℕ)
  heard [] = []
  heard (arrived remote bytes ∷ cs) = (remote, take 1024 bytes) ∷ heard cs
  heard (message_size remote bytes ∷ cs) = (remote, take 1024 bytes) ∷ heard cs
  heard (failed ∷ cs) = []

  -- What the callback reads of the buffer, up to the number of bytes that it is given.
  abbrev pub read_delivery : Delivery E → E × List ℕ
  read_delivery d = (d.remote_endpoint, take d.bytes_received d.buffer)

  deliver-read :
      (remote : E) (bytes : List ℕ) (s : UdpSocketService E)
      → map read_delivery (deliver remote bytes s).delivered
        ≡ map read_delivery s.delivered ++ ((remote, take 1024 bytes) ∷ [])
  unfolding deliver start_receive overwritten
  deliver-read remote bytes s =
      map-append read_delivery s.delivered _
      ∙ ap (λ (l : List ℕ). map read_delivery s.delivered ++ ((remote, l) ∷ []))
          (take_exact (length (take 1024 bytes)) (take 1024 bytes)
            (drop (length (take 1024 bytes)) s.buffer) refl)

  deliver-receives :
      (remote : E) (bytes : List ℕ) (s : UdpSocketService E)
      → (deliver remote bytes s).is_receiving ≡ true
  unfolding deliver start_receive
  deliver-receives remote bytes s = refl

  complete-stopped :
      (cs : List (Completion E)) (s : UdpSocketService E)
      → s.is_receiving ≡ false
      → complete cs s ≡ s
  unfolding complete
  complete-stopped [] s h = refl
  complete-stopped (c ∷ cs) s h = simp (h, complete)

  -- A delivery, and what follows it.
  delivered-read :
      (remote : E) (bytes : List ℕ) (s : UdpSocketService E) (rest : List (E × List ℕ))
      → map read_delivery (deliver remote bytes s).delivered ++ rest
        ≡ map read_delivery s.delivered ++ ((remote, take 1024 bytes) ∷ rest)
  delivered-read remote bytes s rest =
      ap (λ l. l ++ rest) (deliver-read remote bytes s)
      ∙ append_assoc (map read_delivery s.delivered) _ rest

  complete-read :
      (cs : List (Completion E)) (s : UdpSocketService E)
      → s.is_receiving ≡ true
      → map read_delivery (complete cs s).delivered ≡ map read_delivery s.delivered ++ heard cs
  unfolding complete handle
  complete-read [] s h = sym (append-nil _)
  complete-read (arrived remote bytes ∷ cs) s h =
      rw (h, complete)
        (complete-read cs (deliver remote bytes s) (deliver-receives remote bytes s)
          ∙ delivered-read remote bytes s (heard cs))
  complete-read (message_size remote bytes ∷ cs) s h =
      rw (h, complete)
        (complete-read cs (deliver remote bytes s) (deliver-receives remote bytes s)
          ∙ delivered-read remote bytes s (heard cs))
  complete-read (failed ∷ cs) s h =
      rw (h, complete)
        (ap (λ (t : UdpSocketService E). map read_delivery t.delivered)
            (complete-stopped cs (record s { is_receiving = false }) refl)
          ∙ sym (append-nil (map read_delivery s.delivered)))

  -- A socket calls back once for each datagram that arrives before the first error, in order, with
  -- the sender and the first 1024 bytes of it, and never again after that error.
  pub udp_socket_service-heard :
      (buffer : List ℕ) (cs : List (Completion E))
      → map read_delivery (complete cs (udp_socket_service buffer)).delivered ≡ heard cs
  unfolding udp_socket_service start_receive
  udp_socket_service-heard buffer cs = complete-read cs (udp_socket_service buffer) refl
