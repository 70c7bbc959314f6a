-- ===== src/Transmitter/Turns.antt =====
-- transmitter.c: the whole transmission over TCP is made of frames of the modem's size.
use hermes_broadcast.Common.{
  ℕ, ◌+◌, ◌-◌, ◌≤◌, Bool, false, List, [], ◌∷◌, ◌++◌, Option, none, some, ltb, length,
  length-append, replicate, length-replicate, All, All-append, ◌≡◌, ◌∙◌, Bool-cases, inl, inr,
  arith,
}
use hermes_broadcast.Nanorq.{Nanorq, Oti}
use hermes_broadcast.Nanorq.Laws.{Laws}
use hermes_broadcast.Transmitter.{
  output_tcp, configuration_packet, write_configuration_packet, Slice,
  write_interleaved_block_packets, go_on, prepend, transmit,
}
use hermes_broadcast.Transmitter.Slices.{
  IsPayload, IsNext, IsSlice, length-configuration_packet, write_interleaved_block_packets-IsSlice,
}

-- Writes that fill one frame each; a fault is not one.
abbrev pub AreFrames : ℕ → Option (List (List ℕ)) → Type 0
AreFrames size none = ⊥
AreFrames size (some ws) = All (λ w. length w ≡ size) ws

configuration-AreFrames :
    (o : Oti) (size : ℕ) → 9 ≤ size → AreFrames size (write_configuration_packet o output_tcp size)
unfolding write_configuration_packet
configuration-AreFrames o size h =
    let whole : ltb size 9 ≡ false = ground arith in
    let zeros : List ℕ = replicate (size - 9) 0 in
    rw whole (
      length-append (configuration_packet o) zeros
          ∙ omega (arith, length-configuration_packet o, length-replicate {A = ℕ} (size - 9) 0),
      tt,
    )

pub payloads : (t : ℕ) (ws : List (List ℕ)) → All (IsPayload t) ws → All (λ w. length w ≡ t + 4) ws
unfolding IsPayload
payloads t [] h = tt
payloads t (w ∷ ws) (p, h) = (p.0, payloads t ws h)

prepend-AreFrames :
    (size : ℕ) (front : List (List ℕ)) (later : Option (List (List ℕ)))
    → All (λ w. length w ≡ size) front
    → AreFrames size later
    → AreFrames size (prepend front later)
prepend-AreFrames size front none h k = k
prepend-AreFrames size front (some ws) h k = All-append (λ w. length w ≡ size) front ws h k

module _ (N : Nanorq) (t n : ℕ) where
  go_on-AreFrames :
      (config : Option (List (List ℕ))) (s : Option (Slice N))
      (next : N.Coder → List ℕ → Option (List (List ℕ)))
      → AreFrames (t + 4) config
      → IsSlice N t n s
      → ((c : N.Coder) (esi : List ℕ) → IsNext N t n c esi → AreFrames (t + 4) (next c esi))
      → AreFrames (t + 4) (go_on config s next)
  unfolding go_on IsSlice
  go_on-AreFrames none s next h k go = h
  go_on-AreFrames (some config) none next h k go = k
  go_on-AreFrames (some config) (some s) next h (writes, continues) go =
      let front =
        All-append (λ w. length w ≡ t + 4) config s.writes h (payloads t s.writes writes) in
      elim (Bool-cases s.ret) [
        | inl more ↦ rw more (
            prepend-AreFrames (t + 4) (config ++ s.writes) (next s.coder s.esi) front
              (go s.coder s.esi (continues more)))
        | inr last ↦ rw last front
      ]

-- With a RaptorQ library that keeps its laws, a transmission over TCP in a mode whose frames hold a
-- configuration, from a coder of 256 blocks at most with symbols of the size that the frames leave
-- and counters below 2 ^ 16: whatever the signals, for as many turns as there are, it is never
-- aborted, and each of its writes is one frame of the modem's size.
pub transmit-AreFrames :
    (N : Nanorq) (o : Oti) (t n : ℕ) (io : N.Io) (turns : List (ℕ → Bool)) (c : N.Coder)
    (esi : List ℕ)
    → Laws N
    → 5 ≤ t
    → n ≤ 256
    → IsNext N t n c esi
    → AreFrames (t + 4) (transmit N o output_tcp (t + 4) io turns c esi)
unfolding transmit
transmit-AreFrames N o t n io [] c esi laws h small v = tt
transmit-AreFrames N o t n io (running ∷ turns) c esi laws h small v =
    go_on-AreFrames N t n (write_configuration_packet o output_tcp (t + 4))
      (write_interleaved_block_packets N running io c esi)
      (transmit N o output_tcp (t + 4) io turns) (configuration-AreFrames o (t + 4) (omega arith))
      (write_interleaved_block_packets-IsSlice N laws running io t n small c esi v)
      (λ d e w. transmit-AreFrames N o t n io turns d e laws h small w)
