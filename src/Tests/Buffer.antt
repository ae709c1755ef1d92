-- ===== src/Tests/Buffer.antt =====
-- Runs and instances for the buffers of channel values.
use lxmax.Common.{◌≡◌, refl, some, none, [], ◌∷◌, replicate, pos}
use lxmax.Buffer.{DmxBuffer, dmx_buffer, resize_loop, resize, write_at, write, read, swap}
use lxmax.Buffer.Resize.{Reached, resize_cases, reached-inert}

-- A buffer as `resize` is meant to make it for the universes 1 and 2.
abbrev two_universes : DmxBuffer
two_universes = record {
  universes = (pos 1, 0) ∷ (pos 2, 512) ∷ [];
  current = replicate 1024 3;
  next = replicate 1024 0;
}

resize_cases_example :
    resize (pos 1 ∷ []) two_universes ≡ elim (pos 1 ∷ []) [ [] ↦ some dmx_buffer | u ∷ rest ↦ none ]
resize_cases_example = resize_cases (pos 1 ∷ []) two_universes

-- A buffer that is resized for no universe, written and exchanged.
exchanged : Reached dmx_buffer
unfolding dmx_buffer resize resize_loop write_at write swap
exchanged =
    Reached.swapped
      (Reached.written (pos 1) (pos 1) (7 ∷ 8 ∷ []) (Reached.resized [] Reached.start refl) refl)
      refl

reached-inert_example :
    (read (pos 1) (pos 1) 2 dmx_buffer ≡ some (0, []))
    × (write (pos 1) (pos 1) (7 ∷ 8 ∷ []) dmx_buffer ≡ some dmx_buffer)
    × (swap dmx_buffer ≡ some dmx_buffer)
reached-inert_example = reached-inert dmx_buffer (pos 1) (pos 1) 2 (7 ∷ 8 ∷ []) exchanged
