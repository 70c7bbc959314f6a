-- ===== src/Daemon/Tests.antt =====
-- The daemon's parts on concrete inputs: mode 1 (DATAC3), with frames of 126 bytes.
use hermes_broadcast.Common.{
  inl, inr, ℕ, ◌+◌, ◌*◌, ◌%◌, ◌<◌, ◌≤◌, ◌≡◌, refl, Bool, true, false, List, [], ◌∷◌, none, some,
  replicate, drop, All, arith, length, ◌++◌,
}
use hermes_broadcast.Nanorq.{
  Oti, oti_common, oti_scheme_specific, oti_common_reduced, oti_scheme_specific_align1, tag_reduced,
}
use hermes_broadcast.Crc.{crc6_0x6f, crc6_step}
use hermes_broadcast.Nanorq.Laws.{announced}
use hermes_broadcast.Nanorq.Sample.{sample_oti-FitsHeader, sample_oti, sample, sample-Laws}
use hermes_broadcast.Header.{parse_tag_oti_common, parse_tag_oti_scheme}
use hermes_broadcast.Header.Oti.{FitsHeader}
use hermes_broadcast.Tcp.{Interface}
use hermes_broadcast.Daemon.{Context}
use hermes_broadcast.Daemon.Directory.{first_name, candidate, build_output_path}
use hermes_broadcast.Daemon.Directory.Choice.{IsChoice, first_name-IsChoice, build_output_path_free}
use hermes_broadcast.Daemon.Transmit as T
use hermes_broadcast.Daemon.Transmit.Frame.{config_of, joint_frame_read}
use hermes_broadcast.Daemon.Transmit.Rounds.{symbol_of, after, config_body_of, send_order}
use hermes_broadcast.Daemon.Transmit.Budget as B
use hermes_broadcast.Daemon.Receive as R
use hermes_broadcast.Daemon.Receive.Added.{answered, sent_symbol_added}
use hermes_broadcast.Daemon.Receive.Guards.{completed_ignored}
use hermes_broadcast.Daemon.Receive.Symbols as V
use hermes_broadcast.Daemon.Receive.Session as S

abbrev mode_1 : Context
mode_1 = record {
  mode = 1;
  frame_size = 126;
  symbol_size = 114;
  verbose = false;
  tx_dir = 116 ∷ [];
  rx_dir = 114 ∷ [];
}

abbrev two_blocks : Oti
two_blocks = sample_oti 200 114

two_blocks-FitsHeader : FitsHeader two_blocks
two_blocks-FitsHeader = sample_oti-FitsHeader 200 114 (omega arith) (omega arith) (omega arith)

abbrev sevens : List ℕ
sevens = replicate 114 7

abbrev ReadBack : List ℕ → Type 0
ReadBack frame =
    (R.is_joint_frame mode_1 frame ≡ true)
    × (parse_tag_oti_common frame ≡ oti_common two_blocks)
    × (parse_tag_oti_scheme frame ≡ oti_scheme_specific two_blocks)
    × (R.frame_sbn frame ≡ 1)
    × (R.frame_esi frame ≡ 300)
    × (drop 12 frame ≡ sevens)

joint_frame_read_example : ReadBack (T.joint_frame (config_of two_blocks) 1 300 sevens)
joint_frame_read_example =
    joint_frame_read mode_1 two_blocks 1 300 sevens two_blocks-FitsHeader (omega arith)
      (omega arith) refl

abbrev link : Interface
link = record { socket = some 3; connected = true; shutdown = false; ip = []; port = 8100 }

-- A directory with one file of the time 9, which no path but the empty one fails to open.
abbrev scene : T.Scene sample
scene = record {
  stat = λ p. some (record { regular = true; mtime = 9 });
  entries = some ((97 ∷ []) ∷ []);
  open_read = λ p. elim p [ [] ↦ none | c ∷ cs ↦ some (c ∷ cs) ];
  calloc_ok = λ n. true;
  malloc_ok = true;
  sent = some 130;
}

abbrev loaded : T.TxSession sample
loaded = T.loaded_session sample (116 ∷ 47 ∷ 97 ∷ []) 5 [] two_blocks

abbrev calls : ℕ → T.TxSession sample
calls = after sample sample-Laws mode_1 (λ k. scene) (λ k. link) loaded

-- The fourth call: the second round, the second block.
send_order_example :
    (T.tx_send_one_frame sample mode_1 scene link (calls (1 * 2 + 1))).frame
    ≡ some (
        T.joint_frame
          (config_body_of sample sample-Laws mode_1 two_blocks)
          1
          (1 % 65536)
          (symbol_of sample (calls (1 * 2 + 1)) (1 % 65536) 1))
send_order_example =
    send_order sample sample-Laws mode_1 (λ k. scene) (λ k. link) (116 ∷ 47 ∷ 97 ∷ []) 5 []
      two_blocks 1 1 refl (omega arith) (omega arith) (omega arith)

-- A session on a file of the time 5.
abbrev running : T.TxSession sample
running = record {
  active = true;
  file_path = 97 ∷ [];
  mtime = 5;
  frames_limit = some 4;
  frames_sent = 3;
  next_sbn = 3;
  config_body = replicate 8 0;
  myio = some [];
  rq = some two_blocks;
  esi = 2 ∷ 1 ∷ [];
  num_sbn = 2;
}

abbrev Stopped : T.SendFrame sample → Type 0
Stopped s =
    (s.session.active ≡ false) × (s.session.file_path ≡ []) × (s.frame ≡ none) × (s.ok ≡ true)

reload_fails_example : Stopped (T.tx_turn sample mode_1 scene link running)
reload_fails_example =
    B.reload_fails sample mode_1 scene link running (record { regular = true; mtime = 9 }) refl refl
      (omega arith) refl

-- Receiving: a session whose blocks are all decoded, and a frame of the same file.
abbrev frame : List ℕ
frame = T.joint_frame (config_of two_blocks) 1 300 sevens

abbrev complete : R.RxSession sample
complete = record {
  active = true;
  completed_last = false;
  last_completed_oti_common = 0;
  last_completed_oti_scheme = 0;
  oti_common = parse_tag_oti_common frame;
  oti_scheme = parse_tag_oti_scheme frame;
  num_sbn = 2;
  out_path = 97 ∷ [];
  myio = some [];
  rq = some two_blocks;
  block_decoded = true ∷ true ∷ [];
  block_symbols_seen = 3 ∷ 3 ∷ [];
}

complete-IsValid : V.IsValid complete
complete-IsValid = record {
  decoded = refl;
  seen = refl;
  blocks = λ c e. refl;
  coder = λ e. λ x. ground arith;
  file = λ e. λ x. ground arith;
  symbol = λ c e. ground arith;
}

abbrev rx_scene : R.Scene sample
rx_scene = record {
  exists = λ p. false;
  stamp = 98 ∷ [];
  open_write = λ p. some [];
  calloc_ok = λ n. true;
}

frame_bytes : All (λ b. b < 256) frame
unfolding T.joint_frame crc6_0x6f crc6_step oti_common_reduced oti_scheme_specific_align1
    tag_reduced
frame_bytes = omega arith

frame_fits : announced (parse_tag_oti_common frame) ≤ 744
unfolding T.joint_frame oti_common_reduced oti_scheme_specific_align1 tag_reduced
    parse_tag_oti_common
frame_fits = omega arith

rx_frame-IsValid_example :
    V.Returns V.IsValid (R.rx_frame sample mode_1 rx_scene complete frame 126)
rx_frame-IsValid_example =
    S.rx_frame-IsValid sample mode_1 rx_scene complete frame 126 sample-Laws complete-IsValid
      frame_bytes frame_fits

all_done : R.rx_session_is_complete complete ≡ true
unfolding R.rx_session_is_complete
all_done = refl

completed_ignored_example :
    ((R.rx_finish complete).active ≡ false)
    × (R.rx_frames sample mode_1 rx_scene ((frame, 126) ∷ (sevens, 114) ∷ []) (R.rx_finish complete)
        ≡ some (R.rx_finish complete))
unfolding R.is_joint_frame
completed_ignored_example =
    completed_ignored sample mode_1 rx_scene complete ((frame, 126) ∷ (sevens, 114) ∷ []) all_done
      (inr (refl, refl), (inl refl, tt))

-- The same session in the middle of its file, and an array with more behind the frame.
abbrev receiving : R.RxSession sample
receiving = record complete {
  oti_common = oti_common two_blocks;
  oti_scheme = oti_scheme_specific two_blocks;
  block_decoded = true ∷ false ∷ [];
  block_symbols_seen = 3 ∷ 0 ∷ [];
}

sent_symbol_added_example :
    R.rx_frame sample mode_1 rx_scene receiving (frame ++ 9 ∷ 9 ∷ []) (length frame)
    ≡ answered sample receiving two_blocks [] 1 300 (sevens ++ 9 ∷ 9 ∷ [])
sent_symbol_added_example =
    sent_symbol_added sample mode_1 rx_scene receiving two_blocks [] two_blocks 1 300 sevens
      (9 ∷ 9 ∷ []) two_blocks-FitsHeader (omega arith) (omega arith) refl refl refl refl refl refl
      (omega arith)

-- Directories: "b", ".a" and "a", all regular files.
abbrev names : List (List ℕ)
names = (98 ∷ []) ∷ (46 ∷ 97 ∷ []) ∷ (97 ∷ []) ∷ []

first_is_a : first_name scene.stat (116 ∷ []) none names ≡ some (97 ∷ [])
unfolding first_name
first_is_a = refl

first_name-IsChoice_example :
    IsChoice scene.stat (116 ∷ []) names (first_name scene.stat (116 ∷ []) none names)
first_name-IsChoice_example = first_name-IsChoice scene.stat (116 ∷ []) names

abbrev FreePath : (List ℕ → Bool) → Type 0
FreePath exists =
    ((p : List ℕ) → build_output_path exists [] [] ≡ some p → exists p ≡ false)
    × (build_output_path exists [] [] ≡ none
        → (j : ℕ) → j < 1000
        → exists (candidate [] [] j) ≡ true)

build_output_path_free_example : FreePath (λ p. true)
build_output_path_free_example = build_output_path_free (λ p. true) [] []
