-- ===== src/Transmitter/Ends.antt =====
-- transmitter.c: the main loop ends by itself, when the counter of a block reaches 2 ^ 16.
use hermes_broadcast.Common.{
  ℕ, zero, suc, ◌+◌, ◌^◌, ◌≤◌, ◌<◌, Bool, true, List, [], ◌∷◌, ◌++◌, Option, none, some, ltb,
  length, get_or, get_or-set_self, get_or-set_ne, set, All, ◌≡◌, refl, ap, ◌∙◌, Bool-cases, inl,
  inr, arith,
}
use hermes_broadcast.Nanorq.{Nanorq, Oti}
use hermes_broadcast.Nanorq.Laws.{Laws}
use hermes_broadcast.Transmitter.{
  OutputMode, max_esi, write_configuration_packet, Slice, put, write_block, write_blocks, write_esi,
  write_interleaved_block_packets, go_on, prepend, transmit,
}
use hermes_broadcast.Transmitter.Slices.{
  IsNext, IsSlice, get_or-All, write_interleaved_block_packets-IsSlice,
}

module _ (N : Nanorq) where
  -- A slice that leaves the counter of the first block at `v`.
  abbrev Leaves : ℕ → Option (Slice N) → Type 0
  Leaves v none = Unit
  Leaves v (some s) = get_or s.esi 0 0 ≡ v

  put-Leaves :
      (v : ℕ) (packet : List ℕ) (s : Option (Slice N)) → Leaves v s → Leaves v (put packet s)
  put-Leaves v packet none h = h
  put-Leaves v packet (some s) h = h

  -- A block's own counter is the only one that it changes.
  write_block-Leaves :
      (sbn v : ℕ) (esi : List ℕ) (next : N.Coder → List ℕ → Option (Slice N))
      (written : Option ((List ℕ) × N.Coder))
      → get_or (set esi sbn (suc (get_or esi sbn 0))) 0 0 ≡ v
      → ((c : N.Coder) (e : List ℕ) → get_or e 0 0 ≡ v → Leaves v (next c e))
      → Leaves v (write_block N sbn esi next written)
  unfolding write_block
  write_block-Leaves sbn v esi next none h go = tt
  write_block-Leaves sbn v esi next (some (packet, c)) h go =
      let esi1 = set esi sbn (suc (get_or esi sbn 0)) in
      elim (Bool-cases (ltb max_esi (get_or esi1 sbn 0))) [
        | inl last ↦ rw last h
        | inr more ↦ rw more (put-Leaves v packet (next c esi1) (go c esi1 h))
      ]

  write_blocks-Leaves :
      (running : ℕ → Bool) (io : N.Io) (k sbn v : ℕ) (c : N.Coder) (esi : List ℕ)
      → 0 < sbn
      → get_or esi 0 0 ≡ v
      → Leaves v (write_blocks N running io k sbn c esi)
  unfolding write_blocks
  write_blocks-Leaves running io zero sbn v c esi p h = h
  write_blocks-Leaves running io (suc k) sbn v c esi p h = elim (Bool-cases (running sbn)) [
    | inr off ↦ rw off h
    | inl on ↦ rw on (
        write_block-Leaves sbn v esi (write_blocks N running io k (suc sbn))
          (write_esi N c io sbn (get_or esi sbn 0))
          (get_or-set_ne esi sbn 0 (suc (get_or esi sbn 0)) 0 (λ e. absurd (omega (arith, e))) ∙ h)
          (λ d e q. write_blocks-Leaves running io k (suc sbn) v d e (omega arith) q))
  ]

  -- While no signal has come, a slice counts a symbol of the first block.
  first_block-Leaves :
      (running : ℕ → Bool) (io : N.Io) (k : ℕ) (c : N.Coder) (esi : List ℕ)
      → running 0 ≡ true
      → 0 < k
      → 0 < length esi
      → Leaves (suc (get_or esi 0 0)) (write_blocks N running io k 0 c esi)
  unfolding write_blocks
  first_block-Leaves running io zero c esi on p h = absurd (omega arith)
  first_block-Leaves running io (suc k) c esi on p h = rw on (
      write_block-Leaves 0 (suc (get_or esi 0 0)) esi (write_blocks N running io k 1)
        (write_esi N c io 0 (get_or esi 0 0)) (get_or-set_self esi 0 (suc (get_or esi 0 0)) 0 h)
        (λ d e q. write_blocks-Leaves running io k 1 (suc (get_or esi 0 0)) d e (omega arith) q))

  slice-Leaves :
      (running : ℕ → Bool) (io : N.Io) (c : N.Coder) (esi : List ℕ) (n : ℕ)
      → running 0 ≡ true
      → N.blocks c ≡ n
      → 0 < n
      → 0 < length esi
      → Leaves (suc (get_or esi 0 0)) (write_interleaved_block_packets N running io c esi)
  unfolding write_interleaved_block_packets
  slice-Leaves running io c esi n on e p h =
      first_block-Leaves running io (N.blocks c) c esi on (omega (arith, e)) h

  -- What follows a slice matters only on the counters that it leaves.
  go_on-ext :
      (t n v : ℕ) (config : Option (List (List ℕ))) (s : Option (Slice N))
      (next next' : N.Coder → List ℕ → Option (List (List ℕ)))
      → IsSlice N t n s
      → Leaves v s
      → ((c : N.Coder) (esi : List ℕ)
          → IsNext N t n c esi
          → get_or esi 0 0 ≡ v
          → next c esi ≡ next' c esi)
      → go_on config s next ≡ go_on config s next'
  unfolding go_on IsSlice
  go_on-ext t n v none s next next' h k go = refl
  go_on-ext t n v (some config) none next next' h k go = refl
  go_on-ext t n v (some config) (some s) next next' (writes, continues) k go =
      elim (Bool-cases s.ret) [
        | inl more ↦
            rw more (ap (prepend (config ++ s.writes)) (go s.coder s.esi (continues more) k))
        | inr last ↦ rw last refl
      ]

  -- No counter goes beyond 2 ^ 16.
  at_most :
      (t n : ℕ) (c : N.Coder) (esi : List ℕ)
      → 0 < n
      → IsNext N t n c esi
      → (N.blocks c ≡ n) × (0 < length esi) × (get_or esi 0 0 < 2 ^ 16)
  unfolding IsNext
  at_most t n c esi p (b, o, l, a) = (b, omega (arith, l), get_or-All esi 0 a)

-- Under the conditions of a whole transmission and for at least one block: the main loop ends by
-- itself. Unless a signal comes first, the counter of the first block, which has `e` to begin with,
-- ends it within 2 ^ 16 - e turns, and whatever turns there might be after those add nothing.
pub transmit_ends :
    (N : Nanorq) (o : Oti) (mode : OutputMode) (frame_size t n : ℕ) (io : N.Io)
    (turns more : List (ℕ → Bool)) (c : N.Coder) (esi : List ℕ)
    → Laws N
    → 0 < n
    → n ≤ 256
    → IsNext N t n c esi
    → All (λ running. running 0 ≡ true) turns
    → 2 ^ 16 ≤ get_or esi 0 0 + length turns
    → transmit N o mode frame_size io (turns ++ more) c esi
      ≡ transmit N o mode frame_size io turns c esi
unfolding transmit
transmit_ends N o mode frame_size t n io [] more c esi laws p small v on enough =
    absurd (omega (arith, (at_most N t n c esi p v).2))
transmit_ends N o mode frame_size t n io (running ∷ turns) more c esi laws p small v (on, ons)
      enough =
    let (blocks, some_esi, below) = at_most N t n c esi p v in
    go_on-ext N t n (suc (get_or esi 0 0)) (write_configuration_packet o mode frame_size)
      (write_interleaved_block_packets N running io c esi)
      (transmit N o mode frame_size io (turns ++ more)) (transmit N o mode frame_size io turns)
      (write_interleaved_block_packets-IsSlice N laws running io t n small c esi v)
      (slice-Leaves N running io c esi n on blocks p some_esi)
      (λ d e w q.
        transmit_ends N o mode frame_size t n io turns more d e laws p small w ons
          (omega (arith, enough, q)))
