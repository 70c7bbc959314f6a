-- ===== src/Receiver/Tests.antt =====
-- The receiver's loop on concrete inputs.
use hermes_broadcast.Common.{
  Bool, ◌/◌, ◌%◌, ◌^◌, ◌||◌, ◌==◌, ltb, if◌then◌else◌, length, refl, ℕ, ◌≡◌, ◌++◌, true, false,
  List, [], ◌∷◌, none, some, replicate, arith,
}
use hermes_broadcast.Crc.{crc6_0x6f, crc6_step}
use hermes_broadcast.Nanorq.{
  Nanorq, ignored, tag, Oti, added, oti_common_reduced, oti_scheme_specific_align1, tag_reduced,
}
use hermes_broadcast.Header.{parse_tag_oti_scheme, parse_tag_oti_common}
use hermes_broadcast.Nanorq.Sample.{sample_oti, sample}
use hermes_broadcast.Receiver.{
  receive_frame, parse_frame_header, use_configuration, new_decoder, use_payload, try_block,
  check_received, file_received, start_receiver, Receiver, Input, got_frame, nothing, broken, fault,
  use_symbol,
}
use hermes_broadcast.Tcp.{tcp_interface_init, tcp_interface_connect}
use hermes_broadcast.Shm.{empty_object}
use hermes_broadcast.Shm.Connect.{admitted}
use hermes_broadcast.Transmitter.{configuration_packet, payload_packet}
use hermes_broadcast.Transmitter.Main.{set_tcp, args}
use hermes_broadcast.Nanorq.Laws.{Laws, announced}
use hermes_broadcast.Receiver.Run.{
  receive, ends, crashes, by_file, by_signal, by_error, by_other_file,
}
use hermes_broadcast.Receiver.Main.{
  start_up, check_args, check_mode, frame_size_of, open_output, connect_input, finish, World, Ended,
  exited, died, listened, main,
}
use hermes_broadcast.Receiver.Blocks.{many_blocks_fault}

abbrev receiver : ℕ → Receiver sample
receiver n = record {
  configuration_received = true;
  oti_common = 0;
  oti_scheme = 0;
  num_sbn = n;
  esi = replicate 128 0;
  block_decoded = replicate 128 false;
  have_more_symbols = false;
  rq = some (sample_oti 0 10);
  myio = [];
}

many_blocks_fault_example : use_symbol sample (receiver 200) (sample_oti 0 10) 3 added ≡ fault
many_blocks_fault_example =
    many_blocks_fault sample (receiver 200) (sample_oti 0 10) 3 added (omega arith)
      (λ e. ground arith)

-- A coder that remembers the blocks that it has repaired.
record Coder : Type 0 where
  parameters : Oti
  repaired_blocks : ℕ → Bool

-- The coder of these parameters.
abbrev fresh : ℕ → ℕ → Coder
fresh len t = record { parameters = sample_oti len t; repaired_blocks = λ b. false }

-- A library whose repairs succeed.
abbrev repairing : Nanorq
repairing = record {
  Coder = Coder;
  Io = List ℕ;
  io_size = λ io. length io;
  encoder_new = λ len t a. some (fresh len t);
  decoder_new = λ common scheme. some (fresh 0 (announced common));
  set_max_esi = λ c m. c;
  oti = λ c. c.parameters;
  blocks = λ c. 2;
  generate_symbols = λ c sbn io. c;
  encode = λ c esi sbn io. (replicate c.parameters.symbol_size 7, c.parameters.symbol_size, c);
  add_symbol = λ c bytes t io. (if ltb (t / 2 ^ 24 % 256) 2 then added else ignored, c, io);
  block_symbols = λ c sbn. 1;
  repair_block =
      λ c io sbn. (true, record c { repaired_blocks = λ b. sbn == b || c.repaired_blocks b }, io);
}

abbrev IsRepaired : Coder → ℕ → Type 0
IsRepaired c b = c.repaired_blocks b ≡ true

abbrev world : World repairing
world = record {
  open_write = λ path. some [];
  statics = record {
    kiss = record { escape = false; in_frame = false; kiss_command = 0; frame_len = 0 };
    partial = [];
  };
  dial = record { fd = some 3; address_ok = true; connect_ok = true };
  memory = record {
    names = λ k. none;
    objects = λ i. empty_object;
    next = 0;
    open_fds = 0;
    mapped = λ i. 0;
  };
  allocated = true;
  first = admitted;
  second = admitted;
}

-- A configuration and a payload over TCP, with a pause in between and an error behind.
abbrev readings : List (Input × (List ℕ))
readings =
    (got_frame 14, configuration_packet (sample_oti 200 10) ++ replicate 5 0)
    ∷ (nothing, [])
    ∷ (got_frame 14, payload_packet 1 3 (replicate 10 7))
    ∷ (got_frame 14, payload_packet 0 3 (replicate 10 7))
    ∷ (broken, [])
    ∷ []

-- Whether a run ends with its file received.
by_its_file : Ended repairing → Bool
by_its_file (listened (ends by_file r)) = true
by_its_file (listened (ends by_signal r)) = false
by_its_file (listened (ends by_error r)) = false
by_its_file (listened (ends by_other_file r)) = false
by_its_file (listened crashes) = false
by_its_file (exited status) = false
by_its_file died = false

received_whole :
    by_its_file (main repairing world (set_tcp ∷ []) (args [] (some 2)) readings) ≡ true
unfolding main start_up check_args check_mode frame_size_of open_output connect_input finish
    tcp_interface_init tcp_interface_connect receive receive_frame parse_frame_header
    use_configuration new_decoder use_payload use_symbol try_block check_received file_received
    start_receiver configuration_packet payload_packet crc6_0x6f crc6_step oti_common_reduced
    oti_scheme_specific_align1 tag_reduced tag parse_tag_oti_common parse_tag_oti_scheme by_its_file
received_whole = refl
