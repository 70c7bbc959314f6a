-- ===== src/Pipe/Tests.antt =====
-- A configuration through the ring, from the transmitter to the receiver.
use hermes_broadcast.Common.{
  Bool, ℕ, ◌+◌, ◌≤◌, false, List, [], ◌∷◌, ◌++◌, replicate, length, take, ◌≡◌, refl, ◌⊎◌, arith,
}
use hermes_broadcast.Nanorq.{Oti, oti_common_reduced, oti_scheme_specific_align1}
use hermes_broadcast.Nanorq.Sample.{sample_oti, sample, sample-Laws}
use hermes_broadcast.Crc.{crc6_0x6f}
use hermes_broadcast.Ring.{
  size_buffer, size_internal, read_buffer, read_bytes, copy_out, retreat_pointer_n, Ring,
  write_buffer, free_size_internal, write_bytes, copy_in, advance_pointer_n, init, reset,
}
use hermes_broadcast.Ring.Valid.{IsValid, used, init-IsValid}
use hermes_broadcast.Transmitter.{
  output_shm, output_tcp, configuration_packet, write_configuration_packet,
  write_interleaved_block_packets, write_blocks, go_on, transmit,
}
use hermes_broadcast.Transmitter.Slices.{IsNext}
use hermes_broadcast.Pipe.{Pipe, Step, writes, reads, Run, here, next}
use hermes_broadcast.Pipe.Ends.{writes_of, start, frames_in_order, transmission_arrives}

abbrev coder : Oti
coder = sample_oti 200 10

abbrev new_ring : Ring
unfolding init reset
new_ring = init (replicate 27 0) 27

new_ring-IsValid : IsValid new_ring × (used new_ring ≡ 0)
unfolding new_ring
new_ring-IsValid =
    let v = init-IsValid (replicate 27 0) 27 (omega arith) (omega arith) (omega arith) in (v.0, v.1)

coder-IsNext : IsNext sample 10 2 coder (0 ∷ 3 ∷ [])
unfolding IsNext
coder-IsNext = (refl, refl, refl, (omega arith, (omega arith, tt)))

abbrev turns : List (ℕ → Bool)
turns = (λ k. false) ∷ []

abbrev shm : List (List ℕ)
shm = writes_of (transmit sample coder output_shm (10 + 4) [] turns coder (0 ∷ 3 ∷ []))

abbrev tcp : List (List ℕ)
tcp = writes_of (transmit sample coder output_tcp (10 + 4) [] turns coder (0 ∷ 3 ∷ []))

shm_is : shm ≡ configuration_packet coder ∷ replicate 5 0 ∷ []
unfolding transmit go_on write_configuration_packet write_interleaved_block_packets write_blocks
shm_is = refl

-- The ring with its bytes, and what is left to write and has been read.
abbrev after : (head tail : ℕ) → List ℕ → List (List ℕ) → List (List ℕ) → Pipe
after head tail bytes unwritten frames = record {
  ring = record {
    head = head;
    tail = tail;
    max = 27;
    full = false;
    buffer = bytes ++ replicate 18 0;
  };
  unwritten = unwritten;
  frames = frames;
}

abbrev one : Pipe
one = after 9 0 (configuration_packet coder) (replicate 5 0 ∷ []) []

abbrev two : Pipe
two = after 14 0 (configuration_packet coder) [] []

abbrev three : Pipe
three =
    after 14 14 (configuration_packet coder) [] ((configuration_packet coder ++ replicate 5 0) ∷ [])

step1 : Step 14 (start new_ring shm) one
unfolding new_ring write_buffer free_size_internal write_bytes copy_in advance_pointer_n
    configuration_packet oti_common_reduced oti_scheme_specific_align1 crc6_0x6f
step1 = writes (configuration_packet coder) (replicate 5 0 ∷ []) shm_is refl refl refl

step2 : Step 14 one two
unfolding write_buffer free_size_internal write_bytes copy_in advance_pointer_n configuration_packet
    oti_common_reduced oti_scheme_specific_align1 crc6_0x6f
step2 = writes (replicate 5 0) [] refl refl refl refl

step3 : Step 14 two three
unfolding size_buffer size_internal read_buffer read_bytes copy_out retreat_pointer_n
    configuration_packet oti_common_reduced oti_scheme_specific_align1 crc6_0x6f
step3 = reads (configuration_packet coder ++ replicate 5 0) refl refl refl refl

run : Run 14 (start new_ring shm) 3 three
run = next (next (next here step1) step2) step3

frames_in_order_example : three.frames ≡ take 1 tcp
frames_in_order_example =
    frames_in_order sample coder 10 2 [] turns coder (0 ∷ 3 ∷ []) sample-Laws (omega arith)
      (omega arith) coder-IsNext new_ring new_ring-IsValid.0 new_ring-IsValid.1 3 three run

transmission_arrives_example :
    (3 ≤ length shm + length tcp) × ((three.frames ≡ tcp) ⊎ ((v : Pipe) × Step 14 three v))
unfolding new_ring
transmission_arrives_example =
    transmission_arrives sample coder 10 2 [] turns coder (0 ∷ 3 ∷ []) sample-Laws (omega arith)
      (omega arith) coder-IsNext new_ring new_ring-IsValid.0 new_ring-IsValid.1 3 three
      (omega arith) run
