-- ===== src/Transmitter/Slices.antt =====
-- transmitter.c: the slices of the transmission, and the frames they are made of.
use hermes_broadcast.Common.{
  ℕ, zero, suc, ◌+◌, ◌-◌, ◌%◌, ◌^◌, ◌≤◌, ◌<◌, Bool, true, false, List, [], ◌∷◌, ◌++◌, Option, none,
  some, ltb, ◌==◌, length, length-append, length-set, length-replicate, get_or, get_or-set_self,
  set, replicate, All, ◌≡◌, refl, sym, ap, subst, ◌∙◌, Bool-cases, inl, inr, arith,
}
use mathlib.Core.List.{append-nil}
use hermes_broadcast.Nanorq.{
  Nanorq, Oti, oti_common_reduced, oti_scheme_specific_align1, tag_reduced,
}
use hermes_broadcast.Nanorq.Laws.{Laws}
use hermes_broadcast.Receiver.{parse_frame_header}
use hermes_broadcast.Transmitter.{
  output_shm, output_tcp, max_esi, configuration_packet, payload_packet, write_esi,
  write_configuration_packet, Slice, put, write_block, write_blocks,
  write_interleaved_block_packets,
}
use hermes_broadcast.Transmitter.Packets.{payload_read}

-- The bytes of the writes, one after the other.
abbrev pub bytes_of : List (List ℕ) → List ℕ
bytes_of [] = []
bytes_of (w ∷ ws) = w ++ bytes_of ws

-- The bytes that go out: none where the function faults.
abbrev pub sent_bytes : Option (List (List ℕ)) → List ℕ
sent_bytes none = []
sent_bytes (some ws) = bytes_of ws

pub length-configuration_packet : (o : Oti) → length (configuration_packet o) ≡ 9
unfolding configuration_packet oti_common_reduced oti_scheme_specific_align1
length-configuration_packet o = refl

-- A configuration fills one frame exactly, and the ring buffer is given the same bytes as the modem,
-- for every frame that holds the nine bytes of a configuration.
pub configuration_fills :
    (o : Oti) (n : ℕ)
    → 9 ≤ n
    → (sent_bytes (write_configuration_packet o output_shm n)
        ≡ sent_bytes (write_configuration_packet o output_tcp n))
      × (length (sent_bytes (write_configuration_packet o output_tcp n)) ≡ n)
unfolding write_configuration_packet
configuration_fills o n h =
    let whole : ltb n 9 ≡ false = ground arith in
    let packet = configuration_packet o in
    let zeros : List ℕ = replicate (n - 9) 0 in
    let filled : length (packet ++ zeros) ≡ n =
      length-append packet zeros
      ∙ omega (arith, length-configuration_packet o, length-replicate {A = ℕ} (n - 9) 0) in
    elim (Bool-cases (ltb 9 n)) [
      | inl more ↦
          rw (more, whole)
            (shm_bytes packet zeros, ap length (append-nil (packet ++ zeros)) ∙ filled)
      | inr same ↦
          rw (same, whole)
            (
              ap (λ l. l ++ []) (sym (no_zeros packet n (ground arith))),
              ap length (append-nil (packet ++ zeros)) ∙ filled,
            )
    ]
  where
    shm_bytes : (p z : List ℕ) → p ++ (z ++ []) ≡ (p ++ z) ++ []
    shm_bytes p z = ap (λ l. p ++ l) (append-nil z) ∙ sym (append-nil (p ++ z))

    no_zeros : (p : List ℕ) (n : ℕ) → n ≤ 9 → p ++ replicate (n - 9) 0 ≡ p
    no_zeros p n k =
        let e : n - 9 ≡ 0 = omega arith in ap (λ m. p ++ replicate m 0) e ∙ append-nil p

All-set :
    (esi : List ℕ) (i v : ℕ)
    → v < 2 ^ 16
    → All (λ e. e < 2 ^ 16) esi
    → All (λ e. e < 2 ^ 16) (set esi i v)
All-set [] i v h a = tt
All-set (e ∷ esi) zero v h a = (h, a.1)
All-set (e ∷ esi) (suc i) v h a = (a.0, All-set esi i v h a.1)

pub get_or-All : (esi : List ℕ) (i : ℕ) → All (λ e. e < 2 ^ 16) esi → get_or esi i 0 < 2 ^ 16
get_or-All [] i a = omega arith
get_or-All (e ∷ esi) zero a = a.0
get_or-All (e ∷ esi) (suc i) a = get_or-All esi i a.1

-- A packet of a symbol of `t` bytes, which the receiver takes for a payload.
unfoldable pub IsPayload : ℕ → List ℕ → Type 0
IsPayload t packet = (length packet ≡ t + 4) × (parse_frame_header packet (t + 4) ≡ some 3)

-- What a slice leaves: packets that the receiver accepts, and, unless the transmission ends here, a
-- coder and counters for the next slice.
module _ (N : Nanorq) where
  unfoldable pub IsNext : (t n : ℕ) → N.Coder → List ℕ → Type 0
  IsNext t n c esi =
      (N.blocks c ≡ n) × ((N.oti c).symbol_size ≡ t) × (length esi ≡ n) × All (λ e. e < 2 ^ 16) esi

  unfoldable pub IsSlice : (t n : ℕ) → Option (Slice N) → Type 0
  IsSlice t n none = ⊥
  IsSlice t n (some s) = All (IsPayload t) s.writes × (s.ret ≡ true → IsNext t n s.coder s.esi)

  put-IsSlice :
      (t n : ℕ) (packet : List ℕ) (s : Option (Slice N))
      → IsPayload t packet
      → IsSlice t n s
      → IsSlice t n (put packet s)
  unfolding IsSlice
  put-IsSlice t n packet none p v = v
  put-IsSlice t n packet (some s) p v = ((p, v.0), v.1)

length-payload_packet :
    (sbn esi : ℕ) (symbol : List ℕ) → length (payload_packet sbn esi symbol) ≡ length symbol + 4
unfolding payload_packet tag_reduced
length-payload_packet sbn esi symbol = omega arith

payload_packet-IsPayload :
    (sbn esi t : ℕ) (symbol : List ℕ)
    → esi < 2 ^ 16
    → length symbol ≡ t
    → IsPayload t (payload_packet sbn esi symbol)
unfolding IsPayload
payload_packet-IsPayload sbn esi t symbol h e =
    let l : length (payload_packet sbn esi symbol) ≡ t + 4 =
      length-payload_packet sbn esi symbol ∙ omega arith in
    (
      l,
      ap (parse_frame_header (payload_packet sbn esi symbol)) (sym l)
          ∙ (payload_read sbn esi symbol h).0,
    )

module _ (N : Nanorq) (laws : Laws N) (running : ℕ → Bool) (io : N.Io) (t n : ℕ)
    (small : n ≤ 256) where
  -- One block, with what follows it.
  write_block-IsSlice :
      (sbn : ℕ) (c c1 : N.Coder) (esi symbol : List ℕ) (next : N.Coder → List ℕ → Option (Slice N))
      → sbn < n
      → IsNext N t n c esi
      → N.blocks c1 ≡ n
      → (N.oti c1).symbol_size ≡ t
      → length symbol ≡ t
      → ((d : N.Coder) (e : List ℕ) → IsNext N t n d e → IsSlice N t n (next d e))
      → IsSlice N t n (
          write_block N sbn esi next
            (some (payload_packet (sbn % 256) (get_or esi sbn 0) symbol, c1)))
  unfolding write_block IsNext IsSlice
  write_block-IsSlice sbn c c1 esi symbol next h (b, o, l, a) b1 o1 len go =
      let e = get_or esi sbn 0 in
      let he : e < 2 ^ 16 = get_or-All esi sbn a in
      let packet = payload_packet (sbn % 256) e symbol in
      let p : IsPayload t packet = payload_packet-IsPayload (sbn % 256) e t symbol he len in
      let stored : get_or (set esi sbn (suc e)) sbn 0 ≡ suc e =
        get_or-set_self esi sbn (suc e) 0 (omega arith) in
      elim (Bool-cases (ltb max_esi (get_or (set esi sbn (suc e)) sbn 0))) [
        | inl last ↦ rw last (stopped packet c1 (set esi sbn (suc e)) p)
        | inr more ↦
            let below : suc e < 2 ^ 16 = ground arith in
            rw more (
              put-IsSlice N t n packet (next c1 (set esi sbn (suc e))) p (
                go c1 (set esi sbn (suc e))
                  (b1, o1, length-set esi sbn (suc e) ∙ l, All-set esi sbn (suc e) below a)))
      ]
    where
      stopped :
          (packet : List ℕ) (c : N.Coder) (esi : List ℕ)
          → IsPayload t packet
          → IsSlice N t n
              (some (record { coder = c; esi = esi; writes = packet ∷ []; ret = false }))
      stopped packet c esi p = ((p, tt), λ e. absurd (ground arith))

  write_blocks-IsSlice :
      (k sbn : ℕ) (c : N.Coder) (esi : List ℕ)
      → sbn + k ≡ n
      → IsNext N t n c esi
      → IsSlice N t n (write_blocks N running io k sbn c esi)
  unfolding write_blocks write_esi IsSlice IsNext
  write_blocks-IsSlice zero sbn c esi h v = (tt, λ e. v)
  write_blocks-IsSlice (suc k) sbn c esi h (b, o, l, a) = elim (Bool-cases (running sbn)) [
    | inr off ↦ rw off (tt, λ e. (b, o, l, a))
    | inl on ↦
        let e = get_or esi sbn 0 in
        let byte : sbn % 256 ≡ sbn = omega arith in
        let (written, len) = laws.encode_written c e (sbn % 256) io (omega arith) in
        let full : ((N.encode c e (sbn % 256) io).1 == (N.oti c).symbol_size) ≡ true =
          ground (arith, written) in
        rw (on, full)
          (write_block-IsSlice sbn c (N.encode c e (sbn % 256) io).2 esi
            (N.encode c e (sbn % 256) io).0 (write_blocks N running io k (suc sbn)) (omega arith)
            (b, o, l, a) (laws.blocks-encode c e (sbn % 256) io ∙ b)
            (ap (λ p. p.symbol_size) (laws.oti-encode c e (sbn % 256) io) ∙ o) (len ∙ o)
            (λ d es v. write_blocks-IsSlice k (suc sbn) d es (omega arith) v))
  ]

  -- With a RaptorQ library that keeps its laws, a slice is never aborted, on a coder of 256 blocks at
  -- most whose counters have not reached 2 ^ 16, whenever the flag that stops it is cleared:
  -- each of its packets fills a frame and is a payload to the receiver, and if it lets the
  -- transmission go on, it leaves a coder and counters for which this holds again.
  pub write_interleaved_block_packets-IsSlice :
      (c : N.Coder) (esi : List ℕ)
      → IsNext N t n c esi
      → IsSlice N t n (write_interleaved_block_packets N running io c esi)
  unfolding write_interleaved_block_packets IsNext
  write_interleaved_block_packets-IsSlice c esi v =
      subst (λ m. IsSlice N t n (write_blocks N running io m 0 c esi)) (sym (v.0))
        (write_blocks-IsSlice n 0 c esi (omega arith) v)
