-- ===== src/Modes.antt =====
-- mercury_modes.h: the sizes of the packets and the payload that each modem mode carries in a frame.
use hermes_broadcast.Common.{ℕ, List, [], ◌∷◌}

abbrev pub shm_payload_buffer_size : ℕ
shm_payload_buffer_size = 131072

abbrev pub config_packet_size : ℕ
config_packet_size = 9

abbrev pub tag_size : ℕ
tag_size = 3

abbrev pub hermes_size : ℕ
hermes_size = 1

abbrev pub rq_header_size : ℕ
rq_header_size = 4

abbrev pub packet_rq_config : ℕ
packet_rq_config = 0x02

abbrev pub packet_rq_payload : ℕ
packet_rq_payload = 0x03

abbrev pub mercury_mode_max : ℕ
mercury_mode_max = 16

abbrev pub mercury_frame_size : List ℕ
mercury_frame_size =
    12 ∷ 25 ∷ 37 ∷ 50 ∷ 62 ∷ 75 ∷ 100 ∷ 62 ∷ 75 ∷ 100 ∷ 74 ∷ 99 ∷ 175 ∷ 100 ∷ 174 ∷ 175 ∷ 162 ∷ []

abbrev pub hermes_mode_max : ℕ
hermes_mode_max = 6

abbrev pub hermes_frame_size : List ℕ
hermes_frame_size = 510 ∷ 126 ∷ 14 ∷ 54 ∷ 14 ∷ 3 ∷ 30 ∷ []
