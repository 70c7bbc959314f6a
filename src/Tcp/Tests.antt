-- ===== src/Tcp/Tests.antt =====
-- Connections and streams on concrete inputs.
use hermes_broadcast.Common.{◌≡◌, refl, true, false, List, [], ◌∷◌, some, replicate, arith}
use hermes_broadcast.Kiss.{kiss_init, kiss_write_frame, escape_all, escape_byte}
use hermes_broadcast.Kiss.Frames.{IsIdle, write_all}
use hermes_broadcast.Tcp.{Interface, Statics, Recv, would_block, chunk}
use hermes_broadcast.Tcp.Stream.{deliver, stream, recv_sent}

abbrev link : Interface
link = record { socket = some 3; connected = true; shutdown = false; ip = []; port = 8100 }

abbrev statics : Statics
statics = record { kiss = kiss_init; partial = [] }

-- A frame of two bytes in two chunks, with a pause.
abbrev chunks : List Recv
chunks = chunk (192 ∷ 2 ∷ 7 ∷ []) ∷ would_block ∷ chunk (219 ∷ 220 ∷ 192 ∷ []) ∷ []

idle : IsIdle kiss_init
unfolding kiss_init
idle = record { closed = refl; plain = refl }

same_stream : stream chunks ≡ write_all ((7 ∷ 192 ∷ []) ∷ [])
unfolding write_all kiss_write_frame escape_all escape_byte
same_stream = refl

recv_sent_example : deliver 20 link statics (replicate 756 0) chunks ≡ (7 ∷ 192 ∷ []) ∷ []
recv_sent_example =
    recv_sent 20 link statics (replicate 756 0) chunks ((7 ∷ 192 ∷ []) ∷ []) refl tt idle refl
      (omega arith) ((omega arith, omega arith), tt) same_stream (omega arith)
