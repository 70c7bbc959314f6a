-- ===== src/Transmitter/Streams.antt =====
-- transmitter.c: what goes to the ring buffer and what goes to the modem over TCP are the same bytes.
use hermes_broadcast.Common.{
  ℕ, ◌+◌, ◌-◌, ◌≤◌, ◌<◌, Bool, false, List, [], ◌∷◌, ◌++◌, Option, none, some, ltb, length,
  length-append, replicate, length-replicate, All, All-append, ◌≡◌, refl, sym, ap, ap₂, ◌∙◌,
  Bool-cases, inl, inr, arith,
}
use mathlib.Core.List.{append_assoc, append-nil}
use hermes_broadcast.Nanorq.{Nanorq, Oti}
use hermes_broadcast.Nanorq.Laws.{Laws}
use hermes_broadcast.Transmitter.{
  output_shm, output_tcp, configuration_packet, write_configuration_packet, Slice,
  write_interleaved_block_packets, go_on, prepend, transmit,
}
use hermes_broadcast.Transmitter.Slices.{
  bytes_of, IsNext, IsSlice, length-configuration_packet, write_interleaved_block_packets-IsSlice,
}
use hermes_broadcast.Transmitter.Turns.{payloads}

pub bytes_of-append : (ws vs : List (List ℕ)) → bytes_of (ws ++ vs) ≡ bytes_of ws ++ bytes_of vs
bytes_of-append [] vs = refl
bytes_of-append (w ∷ ws) vs =
    ap (λ l. w ++ l) (bytes_of-append ws vs) ∙ sym (append_assoc w (bytes_of ws) (bytes_of vs))

-- Writes of at most a frame, none of them empty.
abbrev pub ArePieces : ℕ → List (List ℕ) → Type 0
ArePieces size ws = All (λ w. (0 < length w) × (length w ≤ size)) ws

-- The writes to the ring are pieces of the frames that TCP is given.
unfoldable pub AreStreams : ℕ → Option (List (List ℕ)) → Option (List (List ℕ)) → Type 0
AreStreams size none fs = ⊥
AreStreams size (some ws) none = ⊥
AreStreams size (some ws) (some fs) =
    (bytes_of ws ≡ bytes_of fs) × ArePieces size ws × All (λ f. length f ≡ size) fs

configuration-AreStreams :
    (o : Oti) (size : ℕ)
    → 9 ≤ size
    → AreStreams size
        (write_configuration_packet o output_shm size)
        (write_configuration_packet o output_tcp size)
unfolding write_configuration_packet AreStreams
configuration-AreStreams o size h =
    let whole : ltb size 9 ≡ false = ground arith in
    let packet = configuration_packet o in
    let zeros : List ℕ = replicate (size - 9) 0 in
    let len = length-configuration_packet o in
    let zlen = length-replicate {A = ℕ} (size - 9) 0 in
    let all = length-append packet zeros in
    elim (Bool-cases (ltb 9 size)) [
      | inl more ↦
          rw (more, whole)
            (
              ap (λ l. packet ++ l) (append-nil zeros) ∙ sym (append-nil (packet ++ zeros)),
              (
                (omega (arith, len), omega (arith, len)),
                ((ground (arith, zlen), omega (arith, zlen)), tt),
              ),
              (omega (arith, all, len, zlen), tt),
            )
      | inr same ↦
          let none_left : size - 9 ≡ 0 = ground arith in
          let empty : zeros ≡ [] = ap (λ n. replicate n 0) none_left in
          rw (same, whole)
            (
              ap (λ l. l ++ []) (sym (append-nil packet) ∙ ap (λ l. packet ++ l) (sym empty)),
              ((omega (arith, len), omega (arith, len)), tt),
              (omega (arith, all, len, zlen), tt),
            )
    ]

pieces : (t : ℕ) (ws : List (List ℕ)) → All (λ w. length w ≡ t + 4) ws → ArePieces (t + 4) ws
pieces t [] h = tt
pieces t (w ∷ ws) (e, h) = ((omega (arith, e), omega (arith, e)), pieces t ws h)

append-AreStreams :
    (size : ℕ) (ws fs vs gs : List (List ℕ))
    → AreStreams size (some ws) (some fs)
    → AreStreams size (some vs) (some gs)
    → AreStreams size (some (ws ++ vs)) (some (fs ++ gs))
unfolding AreStreams
append-AreStreams size ws fs vs gs (e, p, f) (e', p', f') = (
  bytes_of-append ws vs ∙ ap₂ (λ a b. a ++ b) e e' ∙ sym (bytes_of-append fs gs),
  All-append (λ w. (0 < length w) × (length w ≤ size)) ws vs p p',
  All-append (λ w. length w ≡ size) fs gs f f',
)

prepend-AreStreams :
    (size : ℕ) (ws fs : List (List ℕ)) (later later' : Option (List (List ℕ)))
    → AreStreams size (some ws) (some fs)
    → AreStreams size later later'
    → AreStreams size (prepend ws later) (prepend fs later')
unfolding AreStreams
prepend-AreStreams size ws fs none later' h k = k
prepend-AreStreams size ws fs (some vs) none h k = k
prepend-AreStreams size ws fs (some vs) (some gs) h k = append-AreStreams size ws fs vs gs h k

module _ (N : Nanorq) (t n : ℕ) where
  go_on-AreStreams :
      (config config' : Option (List (List ℕ))) (s : Option (Slice N))
      (next next' : N.Coder → List ℕ → Option (List (List ℕ)))
      → AreStreams (t + 4) config config'
      → IsSlice N t n s
      → ((c : N.Coder) (esi : List ℕ)
          → IsNext N t n c esi
          → AreStreams (t + 4) (next c esi) (next' c esi))
      → AreStreams (t + 4) (go_on config s next) (go_on config' s next')
  unfolding go_on IsSlice AreStreams
  go_on-AreStreams none config' s next next' h k go = h
  go_on-AreStreams (some config) none s next next' h k go = absurd h
  go_on-AreStreams (some config) (some config') none next next' h k go = k
  go_on-AreStreams (some config) (some config') (some s) next next' h (writes, continues) go =
      let whole = payloads t s.writes writes in
      let front =
        append-AreStreams (t + 4) config config' s.writes s.writes h
          (refl, pieces t s.writes whole, whole) in
      elim (Bool-cases s.ret) [
        | inl more ↦ rw more (
            prepend-AreStreams (t + 4) (config ++ s.writes) (config' ++ s.writes)
              (next s.coder s.esi) (next' s.coder s.esi) front (go s.coder s.esi (continues more)))
        | inr last ↦ rw last front
      ]

-- Under the conditions of a whole transmission: neither output aborts, the bytes written to the
-- ring are those sent over TCP, where each write is one frame, and to the ring it is a part of a
-- frame.
pub transmit-AreStreams :
    (N : Nanorq) (o : Oti) (t n : ℕ) (io : N.Io) (turns : List (ℕ → Bool)) (c : N.Coder)
    (esi : List ℕ)
    → Laws N
    → 5 ≤ t
    → n ≤ 256
    → IsNext N t n c esi
    → AreStreams
        (t + 4)
        (transmit N o output_shm (t + 4) io turns c esi)
        (transmit N o output_tcp (t + 4) io turns c esi)
unfolding transmit AreStreams
transmit-AreStreams N o t n io [] c esi laws h small v = (refl, tt, tt)
transmit-AreStreams N o t n io (running ∷ turns) c esi laws h small v =
    go_on-AreStreams N t n (write_configuration_packet o output_shm (t + 4))
      (write_configuration_packet o output_tcp (t + 4))
      (write_interleaved_block_packets N running io c esi)
      (transmit N o output_shm (t + 4) io turns) (transmit N o output_tcp (t + 4) io turns)
      (configuration-AreStreams o (t + 4) (omega arith))
      (write_interleaved_block_packets-IsSlice N laws running io t n small c esi v)
      (λ d e w. transmit-AreStreams N o t n io turns d e laws h small w)
