-- ===== src/Transmitter/Tests.antt =====
-- Packets and slices on concrete inputs.
use hermes_broadcast.Common.{
  ℕ, ◌*◌, ◌^◌, ◌≡◌, refl, bit_or, true, false, List, [], ◌∷◌, none, some, length, drop, arith,
}
use hermes_broadcast.Nanorq.{Oti}
use hermes_broadcast.Nanorq.Sample.{sample_oti, sample, sample-Laws}
use hermes_broadcast.Header.{byte}
use hermes_broadcast.Receiver.{parse_frame_header}
use hermes_broadcast.Transmitter.{
  output_shm, output_tcp, frame_size_of, packet_size_of, payload_packet, write_configuration_packet,
  write_interleaved_block_packets, transmit,
}
use hermes_broadcast.Shm.{
  empty_object, circular_buf_connect_shm, tmp_name, shm_open_and_get_fd, shm_open, connect_buffer,
}
use hermes_broadcast.Shm.Connect.{admitted}
use hermes_broadcast.Transmitter.Main.{
  World, set_tcp, args, main, start_up, check_args, check_mode, open_input, new_coder,
  generate_blocks, connect_output, finish, exited,
}
use hermes_broadcast.Transmitter.Program.{IsEnd, main-IsEnd}
use hermes_broadcast.Transmitter.Ends.{transmit_ends}
use hermes_broadcast.Transmitter.Streams.{AreStreams, transmit-AreStreams}
use hermes_broadcast.Transmitter.Packets.{payload_read}
use hermes_broadcast.Transmitter.Slices.{IsNext, IsSlice, write_interleaved_block_packets-IsSlice}

abbrev coder : Oti
coder = sample_oti 200 10

abbrev PayloadBack : List ℕ → Type 0
PayloadBack packet =
    (parse_frame_header packet (length packet) ≡ some 3)
    × (byte packet 1 ≡ 1)
    × (bit_or (byte packet 2) (byte packet 3 * 2 ^ 8) ≡ 300)
    × (drop 4 packet ≡ 7 ∷ 8 ∷ [])

payload_read_example : PayloadBack (payload_packet 1 300 (7 ∷ 8 ∷ []))
payload_read_example = payload_read 1 300 (7 ∷ 8 ∷ []) (omega arith)

coder-IsNext : IsNext sample 10 2 coder (65535 ∷ 3 ∷ [])
unfolding IsNext
coder-IsNext = (refl, refl, refl, (omega arith, (omega arith, tt)))

write_interleaved_block_packets-IsSlice_example :
    IsSlice sample 10 2
      (write_interleaved_block_packets sample (λ k. true) [] coder (65535 ∷ 3 ∷ []))
write_interleaved_block_packets-IsSlice_example =
    write_interleaved_block_packets-IsSlice sample sample-Laws (λ k. true) [] 10 2 (omega arith)
      coder (65535 ∷ 3 ∷ []) coder-IsNext

-- Over TCP, the mode of 3-byte frames leaves a packet size that wraps around.
wrapped_packet_size : packet_size_of 3 ≡ 4294967295
unfolding packet_size_of
wrapped_packet_size = refl

no_configuration : write_configuration_packet coder output_tcp 3 ≡ none
unfolding write_configuration_packet
no_configuration = refl

transmit_ends_example :
    transmit sample coder output_shm 14 [] ((λ k. true) ∷ (λ k. true) ∷ []) coder (65535 ∷ 3 ∷ [])
    ≡ transmit sample coder output_shm 14 [] ((λ k. true) ∷ []) coder (65535 ∷ 3 ∷ [])
transmit_ends_example =
    transmit_ends sample coder output_shm 14 10 2 [] ((λ k. true) ∷ []) ((λ k. true) ∷ []) coder
      (65535 ∷ 3 ∷ []) sample-Laws (omega arith) (omega arith) coder-IsNext (refl, tt) (omega arith)

transmit-AreStreams_example :
    AreStreams 14
      (transmit sample coder output_shm 14 []
        ((λ k. true) ∷ (λ k. true) ∷ [])
        coder
        (65535 ∷ 3 ∷ []))
      (transmit sample coder output_tcp 14 []
        ((λ k. true) ∷ (λ k. true) ∷ [])
        coder
        (65535 ∷ 3 ∷ []))
transmit-AreStreams_example =
    transmit-AreStreams sample coder 10 2 [] ((λ k. true) ∷ (λ k. true) ∷ []) coder (65535 ∷ 3 ∷ [])
      sample-Laws (omega arith) (omega arith) coder-IsNext

-- The mode of 14-byte frames, over TCP.
abbrev world : World sample
world = record {
  open_read = λ path. some (1 ∷ 2 ∷ []);
  statics = record {
    kiss = record { escape = false; in_frame = false; kiss_command = 0; frame_len = 0 };
    partial = [];
  };
  dial = record { fd = some 3; address_ok = true; connect_ok = true };
  memory = record {
    names = λ k. none;
    objects = λ i. empty_object;
    next = 0;
    open_fds = 0;
    mapped = λ i. 0;
  };
  allocated = true;
  first = admitted;
  second = admitted;
}

main-IsEnd_example :
    IsEnd true
      (args [] (some 2))
      (main sample world (set_tcp ∷ []) (args [] (some 2)) ((λ k. true) ∷ []))
main-IsEnd_example =
    main-IsEnd sample sample-Laws world (set_tcp ∷ []) (args [] (some 2)) ((λ k. true) ∷ [])

-- The same without a ring in shared memory, and a mode that there is not.
no_ring : main sample world [] (args [] (some 0)) [] ≡ exited 255
unfolding main start_up check_args check_mode open_input new_coder generate_blocks connect_output
    frame_size_of packet_size_of circular_buf_connect_shm tmp_name shm_open_and_get_fd shm_open
    connect_buffer finish
no_ring = refl

no_mode : main sample world [] (args [] (some 17)) [] ≡ exited 255
unfolding main start_up check_args check_mode frame_size_of finish
no_mode = refl
