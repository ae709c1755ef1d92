-- ===== src/Udp.antt =====
-- lxmax/internals: udp_socket_service.cpp, a socket that receives datagrams one after the other.
pub mod Received
use lxmax.Common.{
  ℕ, zero, suc, ◌-◌, ◌≡◌, ◌==◌, refl, sym, ap, ap₂, ◌∙◌, min, Bool, true, false, List, [], ◌∷◌,
  ◌++◌, append_assoc, map, take, drop, length, arith,
}

-- What the callback is given: the sender, the buffer and the number of bytes received.
pub record Delivery (E : Type 0) : Type 0 where
  pub remote_endpoint : E
  pub buffer : List ℕ
  pub bytes_received : ℕ

-- The socket: whether a receive is waiting, its buffer, and the calls of the callback so far.
pub record UdpSocketService (E : Type 0) : Type 0 where
  pub is_receiving : Bool
  pub buffer : List ℕ
  pub delivered : List (Delivery E)

-- How a receive ends: without an error, with `message_size`, or with another error.
pub data Completion (E : Type 0) : Type 0 where
  arrived message_size : E → List ℕ → Completion E
  failed : Completion E

-- The bytes that the system writes over the front of the buffer, which has 1024.
unfoldable pub overwritten : List ℕ → List ℕ → List ℕ
overwritten buffer bytes = take 1024 bytes ++ drop (length (take 1024 bytes)) buffer

module _ {E : Type 0} where
  -- `start_receive` up to its handler.
  unfoldable pub start_receive : UdpSocketService E → UdpSocketService E
  start_receive s = record s { is_receiving = true }

  -- The branch of the handler without an error or with `message_size`.
  unfoldable pub deliver : E → List ℕ → UdpSocketService E → UdpSocketService E
  unfolding start_receive overwritten
  deliver remote bytes s =
      let buffer = overwritten s.buffer bytes in
      start_receive (record s {
        is_receiving = false;
        buffer = buffer;
        delivered =
            s.delivered
            ++ (record {
              remote_endpoint = remote;
              buffer = buffer;
              bytes_received = length (take 1024 bytes);
            }
                ∷ []);
      })

  -- The handler of `start_receive`.
  unfoldable pub handle : Completion E → UdpSocketService E → UdpSocketService E
  unfolding deliver
  handle (arrived remote bytes) s = deliver remote bytes s
  handle (message_size remote bytes) s = deliver remote bytes s
  handle failed s = record s { is_receiving = false }

  -- The system completes the receives that wait, one after the other.
  unfoldable pub complete : List (Completion E) → UdpSocketService E → UdpSocketService E
  unfolding handle
  complete [] s = s
  complete (c ∷ cs) s = elim s.is_receiving [ true ↦ complete cs (handle c s) | false ↦ s ]

  -- `udp_socket_service`, once the socket is bound, with the bytes that its buffer starts with.
  unfoldable pub udp_socket_service : List ℕ → UdpSocketService E
  unfolding start_receive
  udp_socket_service buffer =
      start_receive (record { is_receiving = false; buffer = buffer; delivered = [] })
