-- ===== src/Buffer/Resize.antt =====
-- dmx_buffer.cpp: `resize`, and the buffers that a program can reach with it.
use lxmax.Common.{
  ℕ, zero, suc, ◌+◌, ◌-◌, ◌*◌, ◌≤◌, ◌≡◌, refl, sym, ◌∙◌, some, none, Option-cases, List, [], ◌∷◌,
  ◌++◌, length, take, drop, replicate, arith, ℤ, inl, inr, length-append, length-take,
}
use lxmax.Wire.Bytes.{length-drop}
use lxmax.Buffer.{
  universe_length, DmxBuffer, dmx_buffer, find, vector_resize, write_at, read_at, resize_loop,
  resize, write, read, swap,
}

length-replicate : (n : ℕ) → length {A = ℕ} (replicate n 0) ≡ n
length-replicate zero = refl
length-replicate (suc n) = omega (arith, length-replicate n)

read_at-length : (l : List ℕ) (i n : ℕ) (s : List ℕ) → read_at l i n ≡ some s → length s ≡ n
unfolding read_at
read_at-length l i n s e = ground (arith, length-take n (drop i l), length-drop i l)

write_at-length :
    (l : List ℕ) (i : ℕ) (s t : List ℕ) → write_at l i s ≡ some t → length t ≡ length l
unfolding write_at
write_at-length l i s t e =
    let r = drop (i + length s) l in
    ground (
      arith,
      length-append (take i l) (s ++ r),
      length-append s r,
      length-take i l,
      length-drop (i + length s) l,
    )

write_at-inside :
    (l : List ℕ) (i : ℕ) (s t : List ℕ) → write_at l i s ≡ some t → i + length s ≤ length l
unfolding write_at
write_at-inside l i s t e = ground arith

vector_resize-length : (n : ℕ) (l : List ℕ) → length (vector_resize n l) ≡ n
vector_resize-length n l = omega (
  arith,
  length-append (take n l) (replicate (n - length l) 0),
  length-take n l,
  length-replicate (n - length l),
)

-- An iteration of the loop, where what follows it is undefined for each vector of the same length.
loop_step :
    (u : ℤ) (us : List ℤ) (i : ℕ) (b : DmxBuffer) (updated : List (ℤ × ℕ)) (next : List ℕ)
    → ((w : List ℕ)
        → length w ≡ length next
        → i + 2 * universe_length ≤ length next
        → resize_loop us (i + universe_length) b (updated ++ ((u, i) ∷ [])) w ≡ none)
    → resize_loop (u ∷ us) i b updated next ≡ none
unfolding resize_loop
loop_step u us i b updated next k = elim (Option-cases (find u b.universes)) [
  | inl e ↦ rw e refl
  | inr (offset, e) ↦ rw e (elim (Option-cases (read_at b.current offset universe_length)) [
    | inl r ↦ rw r refl
    | inr (values, r) ↦ rw r (elim (Option-cases (write_at next (i + universe_length) values)) [
      | inl w ↦ rw w refl
      | inr (written, w) ↦ rw w (
          k written (write_at-length next (i + universe_length) values written w) (
            omega (
              arith,
              write_at-inside next (i + universe_length) values written w,
              read_at-length b.current offset universe_length values r,
            )))
    ])
  ])
]

-- The loop is undefined as soon as it has an iteration: the last one is past the end.
resize_loop-undefined :
    (us : List ℤ) (u : ℤ) (i : ℕ) (b : DmxBuffer) (updated : List (ℤ × ℕ)) (next : List ℕ)
    → length next ≡ i + (1 + length us) * universe_length
    → resize_loop (u ∷ us) i b updated next ≡ none
resize_loop-undefined [] u i b updated next h =
    loop_step u [] i b updated next (λ w e f. absurd (omega (arith, h, f)))
resize_loop-undefined (v ∷ us) u i b updated next h =
    loop_step u (v ∷ us) i b updated next (λ w e f.
      resize_loop-undefined us v (i + universe_length) b (updated ++ ((u, i) ∷ [])) w
        (omega (arith, h, e)))

resize-empty : (b : DmxBuffer) → resize [] b ≡ some dmx_buffer
unfolding resize resize_loop write_at dmx_buffer
resize-empty b =
    let e : 0 - length b.current ≡ 0 = omega arith in
    let f : 0 - length b.next ≡ 0 = omega arith in rw (e, f) refl

resize-undefined : (u : ℤ) (us : List ℤ) (b : DmxBuffer) → resize (u ∷ us) b ≡ none
unfolding resize
resize-undefined u us b =
    let n = length (u ∷ us) * universe_length in
    rw
      (resize_loop-undefined us u 0 b [] (vector_resize n b.next)
        (omega (arith, vector_resize-length n b.next)))
      refl

-- `resize` is defined for the empty set only, where it empties the buffer: for every other set it
-- reads through the end of the map or writes past the end of the vector, whatever the buffer is.
pub resize_cases :
    (us : List ℤ) (b : DmxBuffer) → resize us b ≡ elim us [ [] ↦ some dmx_buffer | u ∷ rest ↦ none ]
resize_cases [] b = resize-empty b
resize_cases (u ∷ us) b = resize-undefined u us b

-- The buffers that the calls reach, as long as each is defined.
pub data Reached : DmxBuffer → Type 0 where
  start : Reached dmx_buffer
  resized : {b c : DmxBuffer} (us : List ℤ) → Reached b → resize us b ≡ some c → Reached c
  written :
      {b c : DmxBuffer} (u d : ℤ) (src : List ℕ) → Reached b → write u d src b ≡ some c → Reached c
  swapped : {b c : DmxBuffer} → Reached b → swap b ≡ some c → Reached c

some_inj : (b c : DmxBuffer) → some b ≡ some c → b ≡ c
some_inj b c e = ground arith

write-empty : (u d : ℤ) (src : List ℕ) → write u d src dmx_buffer ≡ some dmx_buffer
unfolding write dmx_buffer
write-empty u d src = refl

read-empty : (u d : ℤ) (n : ℕ) → read u d n dmx_buffer ≡ some (0, [])
unfolding read dmx_buffer
read-empty u d n = ground arith

swap-empty : swap dmx_buffer ≡ some dmx_buffer
unfolding swap write_at dmx_buffer
swap-empty = refl

reached-empty : {b : DmxBuffer} → Reached b → b ≡ dmx_buffer
reached-empty start = refl
reached-empty (resized {b} {c} [] r e) = sym (some_inj dmx_buffer c (sym (resize-empty b) ∙ e))
reached-empty (resized {b} {c} (u ∷ us) r e) =
    let h : none ≡ some c = sym (resize-undefined u us b) ∙ e in cc
reached-empty (written {b} {c} u d src r e) =
    let h : write u d src dmx_buffer ≡ some c = rw (sym (reached-empty r)) e in
    sym (some_inj dmx_buffer c (sym (write-empty u d src) ∙ h))
reached-empty (swapped {b} {c} r e) =
    let h : swap dmx_buffer ≡ some c = rw (sym (reached-empty r)) e in
    sym (some_inj dmx_buffer c (sym swap-empty ∙ h))

-- In every buffer that defined calls of `resize`, `write` and `swap` reach from a new one, a read
-- returns 0 and gives no value, and `write` and `swap` leave the buffer as it is, for each universe,
-- channel and count.
pub reached-inert :
    (b : DmxBuffer) (u d : ℤ) (n : ℕ) (src : List ℕ)
    → Reached b
    → (read u d n b ≡ some (0, [])) × (write u d src b ≡ some b) × (swap b ≡ some b)
reached-inert b u d n src r =
    rw (reached-empty r) (read-empty u d n, write-empty u d src, swap-empty)
