-- ===== src/Net/Tests.antt =====
-- Five bytes in two chunks, with an interruption, and two more behind them.
use hermes_broadcast.Common.{◌≡◌, refl, true, false, List, [], ◌∷◌, some}
use hermes_broadcast.Net.{Recv, interrupted, chunk, closed, tcp_read, tcp_connect}

abbrev answers : List Recv
answers = chunk (1 ∷ 2 ∷ []) ∷ interrupted ∷ chunk (3 ∷ 4 ∷ 5 ∷ []) ∷ chunk (6 ∷ 7 ∷ []) ∷ []

read_five : (tcp_read 5 answers).ret ≡ some true
unfolding tcp_read
read_five = refl

left_open :
    tcp_connect (record { fd = some 3; address_ok = true; connect_ok = false }) ≡ (false, some 3)
unfolding tcp_connect
left_open = refl

closed_early : (tcp_read 3 (chunk (1 ∷ []) ∷ closed ∷ [])).ret ≡ some false
unfolding tcp_read
closed_early = refl
