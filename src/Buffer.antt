-- ===== src/Buffer.antt =====
-- lxmax/internals/dmx_buffer.cpp and dmx_buffer.hpp: the double buffer of channel values. An access
-- outside of a vector, which is undefined in C++, is `none`.
pub mod Resize
use lxmax.Common.{
  ℕ, ◌+◌, ◌%◌, ◌^◌, ltb, leb, ◌==◌, ◌&&◌, if◌then◌else◌, Bool, Option, none, some, List, [], ◌∷◌,
  ◌++◌, ℤ, pos, negsuc, ◌+ℤ◌, ◌-◌, ◌*◌, bits64, pos_part, neg_part, length, take, drop, replicate,
  ◌>>=◌,
}

-- `LX_DMX_UNIVERSE_LENGTH`
abbrev pub universe_length : ℕ
universe_length = 512

-- `dmx_buffer`: `_universes` as an association list, and the vectors that `_current` and `_next`
-- point to.
pub record DmxBuffer : Type 0 where
  pub universes : List (ℤ × ℕ)
  pub current : List ℕ
  pub next : List ℕ

-- The constructor.
unfoldable pub dmx_buffer : DmxBuffer
dmx_buffer = record { universes = []; current = []; next = [] }

abbrev pub eq_long : ℤ → ℤ → Bool
eq_long a b = (pos_part a == pos_part b) && (neg_part a == neg_part b)

-- `_universes.find`
abbrev pub find : ℤ → List (ℤ × ℕ) → Option ℕ
find u [] = none
find u ((v, offset) ∷ rest) = let r = find u rest in if eq_long u v then some offset else r

-- `std::vector::resize`
abbrev pub vector_resize : ℕ → List ℕ → List ℕ
vector_resize n l = take n l ++ replicate (n - length l) 0

-- `std::copy_n` to and from a position of a vector.
unfoldable pub write_at : List ℕ → ℕ → List ℕ → Option (List ℕ)
write_at l i values =
    if leb (i + length values) (length l)
    then some (take i l ++ (values ++ drop (i + length values) l))
    else none

unfoldable pub read_at : List ℕ → ℕ → ℕ → Option (List ℕ)
read_at l i n = if leb (i + n) (length l) then some (take n (drop i l)) else none

-- The loop of `resize`, with `i`, `_universes`, `_current`, `updated_universes` and `_next`. The
-- position that is written is that of the next universe, as `i` has been advanced; the branch for a
-- universe that is not found uses the end of the map.
unfoldable pub resize_loop :
    List ℤ → ℕ → DmxBuffer → List (ℤ × ℕ) → List ℕ → Option (List (ℤ × ℕ) × List ℕ)
resize_loop [] i b updated next = some (updated, next)
resize_loop (u ∷ us) i b updated next = find u b.universes >>= (λ (offset : ℕ).
    read_at b.current offset universe_length >>= (λ (values : List ℕ).
      write_at next (i + universe_length) values >>= (λ (written : List ℕ).
        resize_loop us (i + universe_length) b (updated ++ ((u, i) ∷ [])) written)))

-- `dmx_buffer::resize`; `universes` is the set in its order.
unfoldable pub resize : List ℤ → DmxBuffer → Option DmxBuffer
resize universes b =
    let n = length universes * universe_length in
    resize_loop universes 0 b [] (vector_resize n b.next) >>= (λ (r : List (ℤ × ℕ) × List ℕ).
      write_at (vector_resize n b.current) 0 r.1
      >>= (λ (copied : List ℕ). some (record { universes = r.0; current = copied; next = r.1 })))

-- The position of a channel, from the offset of its universe.
unfoldable pub place : ℕ → ℤ → Option ℕ
unfolding ◌+ℤ◌
place offset channel = elim (pos offset +ℤ (channel +ℤ negsuc 0)) [
  | pos i ↦ some i
  | negsuc i ↦ none
]

-- `dmx_buffer::write`; the source buffer has `channel_count` values.
unfoldable pub write : ℤ → ℤ → List ℕ → DmxBuffer → Option DmxBuffer
write universe channel src b = elim (find universe b.universes) [
  | none ↦ some b
  | some offset ↦ place offset channel >>= (λ (i : ℕ).
      write_at b.next i src >>= (λ (written : List ℕ). some (record b { next = written })))
]

-- `dmx_buffer::read`: the count it returns, and the values it copies. The sum of its test is one of
-- `size_t`.
unfoldable pub read : ℤ → ℤ → ℕ → DmxBuffer → Option (ℕ × List ℕ)
unfolding ◌+ℤ◌
read universe channel channel_count b =
    if ltb universe_length ((bits64 (channel +ℤ negsuc 0) + channel_count) % 2 ^ 64)
    then some (0, [])
    else elim (find universe b.universes) [
      | none ↦ some (0, [])
      | some offset ↦ place offset channel >>= (λ (i : ℕ).
          read_at b.current i channel_count >>= (λ (values : List ℕ). some (channel_count, values)))
    ]

-- `dmx_buffer::swap`
unfoldable pub swap : DmxBuffer → Option DmxBuffer
swap b =
    write_at b.current 0 b.next
    >>= (λ (copied : List ℕ). some (record b { current = b.next; next = copied }))
