-- ===== src/Daemon/Air/Tests.antt =====
-- Two symbols of the mode DATAC0 (frames of 14 bytes), in one chunk.
use hermes_broadcast.Common.{
  ◌≡◌, refl, true, false, List, [], ◌∷◌, map, some, replicate, All, arith,
}
use mathlib.Core.List.{append-nil}
use hermes_broadcast.Nanorq.Sample.{sample_oti-FitsHeader, sample_oti}
use hermes_broadcast.Header.Oti.{FitsHeader}
use hermes_broadcast.Kiss.{kiss_init}
use hermes_broadcast.Kiss.Frames.{IsIdle, write_all}
use hermes_broadcast.Tcp.{Interface, Statics, Recv, chunk}
use hermes_broadcast.Tcp.Stream.{deliver, work}
use hermes_broadcast.Daemon.{Context}
use hermes_broadcast.Daemon.Setup.{IsReady}
use hermes_broadcast.Daemon.Air.{Symbol, FitsFrame, frame_of, reading, expected, symbols_arrive}
use hermes_broadcast.Nanorq.{Oti}

abbrev mode_2 : Context
mode_2 = record {
  mode = 2;
  frame_size = 14;
  symbol_size = 2;
  verbose = false;
  tx_dir = [];
  rx_dir = [];
}

mode_2-IsReady : IsReady mode_2
mode_2-IsReady = record {
  sizes = refl;
  symbol = omega arith;
  frame = omega arith;
  not_datac14 = omega arith;
  mode_lt = omega arith;
}

abbrev coder : Oti
coder = sample_oti 100 2

coder-FitsHeader : FitsHeader coder
coder-FitsHeader = sample_oti-FitsHeader 100 2 (omega arith) (omega arith) (omega arith)

abbrev symbols : List Symbol
symbols =
    record { sbn = 0; esi = 0; bytes = 192 ∷ 5 ∷ [] }
    ∷ record { sbn = 1; esi = 300; bytes = 7 ∷ 219 ∷ [] }
    ∷ []

symbols-FitsFrame : All (FitsFrame mode_2) symbols
symbols-FitsFrame = (
  record { block = omega arith; number = omega arith; size = refl },
  (record { block = omega arith; number = omega arith; size = refl }, tt),
)

abbrev link : Interface
link = record { socket = some 3; connected = true; shutdown = false; ip = []; port = 8100 }

abbrev statics : Statics
statics = record { kiss = kiss_init; partial = [] }

idle : IsIdle kiss_init
unfolding kiss_init
idle = record { closed = refl; plain = refl }

abbrev air : List Recv
air = chunk (write_all (map (frame_of coder) symbols)) ∷ []

symbols_arrive_example :
    map (reading mode_2) (deliver (work air) link statics (replicate 756 0) air)
    ≡ map (expected coder) symbols
symbols_arrive_example =
    symbols_arrive mode_2 coder mode_2-IsReady coder-FitsHeader (work air) link statics
      (replicate 756 0) air symbols symbols-FitsFrame refl tt idle refl (omega arith)
      (append-nil (write_all (map (frame_of coder) symbols))) (omega arith)
