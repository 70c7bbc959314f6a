-- ===== src/Shm/Tests.antt =====
-- The shared memory of a ring on concrete inputs.
use hermes_broadcast.Common.{
  ℕ, true, false, List, [], ◌∷◌, none, some, replicate, length, if◌then◌else◌, ◌==◌, ◌≡◌, refl,
  arith,
}
use hermes_broadcast.Ring
use hermes_broadcast.Ring.{
  Ring, done, write_buffer, free_size_internal, write_bytes, copy_in, advance_pointer_n,
}
use hermes_broadcast.Ring.Queue.{write_call, attempt}
use hermes_broadcast.Shm.{
  Shm, Handle, returns, empty_object, circular_buf_init_shm, circular_buf_connect_shm, ring_of,
  store_ring,
}
use hermes_broadcast.Shm.Create.{all_granted, IsRing, circular_buf_init_shm-IsRing}
use hermes_broadcast.Shm.Connect.{admitted, IsAnswer, circular_buf_connect_shm-IsAnswer}
use hermes_broadcast.Shm.Client.{seen_by, IsMapped, ring_of-seen, connect-init}
use hermes_broadcast.Shm.Joined.{Joint, Turn, turn, begins, goes_on, IsJoint, Run-Fifo}
use hermes_broadcast.Shm.Remove.{map_failed_unnoticed, created_again}

abbrev nothing_yet : Shm
nothing_yet = record {
  names = λ k. none;
  objects = λ i. empty_object;
  next = 5;
  open_fds = 0;
  mapped = λ i. 0;
}

-- "/m"
abbrev base : List ℕ
base = 47 ∷ 109 ∷ []

abbrev everywhere : ℕ → ℕ
everywhere i = 1

connect-init_example :
    (m' : Shm) × (n : Shm) × (h : Handle) × (circular_buf_init_shm true all_granted all_granted 4
        base nothing_yet
      ≡ returns m' h)
    × (circular_buf_connect_shm true admitted admitted 4 base (seen_by m' 0 (λ i. 0))
        ≡ returns n (some h))
    × IsMapped h n.mapped 5 6
    × (ring_of n h ≡ some (Ring.init (replicate 4 0) 4))
    × (ring_of m' h ≡ some (Ring.init (replicate 4 0) 4))
connect-init_example = connect-init nothing_yet base 4 0 (λ i. 0) (omega arith) (omega arith)

circular_buf_connect_shm-IsAnswer_example :
    IsAnswer nothing_yet 4 none none
      (circular_buf_connect_shm true admitted admitted 4 base nothing_yet)
circular_buf_connect_shm-IsAnswer_example =
    circular_buf_connect_shm-IsAnswer nothing_yet base 4 (omega arith) (omega arith)

abbrev Started : Type 0
Started =
    (m' : Shm) × (h : Handle) × (circular_buf_init_shm true all_granted all_granted 4 base
        nothing_yet
      ≡ returns m' h)
    × IsRing nothing_yet m' h base 4

started : Started
started = circular_buf_init_shm-IsRing nothing_yet base 4 (omega arith) (omega arith)

everywhere-IsMapped : IsMapped started.1 everywhere 5 6
everywhere-IsMapped = record { at = started.3.handle; apart = refl; first = refl; second = refl }

abbrev written_ring : Ring
written_ring = record { head = 1; tail = 0; max = 4; full = false; buffer = 7 ∷ 0 ∷ 0 ∷ 0 ∷ [] }

write_run : attempt (Ring.init (replicate 4 0) 4) (write_call (7 ∷ []) 1) ≡ done written_ring []
unfolding write_buffer free_size_internal write_bytes copy_in advance_pointer_n Ring.init Ring.reset
write_run = refl

abbrev before : Joint
before = record { memory = started.0; written = []; taken = [] }

abbrev after : Joint
after = record {
  memory = store_ring started.0 started.1 written_ring;
  written = 7 ∷ [];
  taken = [];
}

one_write : Turn started.1 5 6 before after
one_write =
    turn 0 everywhere (write_call (7 ∷ []) 1) [] (Ring.init (replicate 4 0) 4) written_ring
      everywhere-IsMapped (omega arith, omega arith)
      (ring_of-seen started.0 started.1 5 6 0 everywhere (Ring.init (replicate 4 0) 4)
        everywhere-IsMapped started.3.ring)
      write_run refl refl refl

Run-Fifo_example : IsJoint 4 started.1 5 6 after
Run-Fifo_example =
    Run-Fifo nothing_yet started.0 started.1 base 4 after (omega arith) (omega arith) (omega arith)
      started.2 (goes_on begins one_write)

abbrev some_ring : Shm
some_ring = record {
  names = λ k. some (if length k == 4 then 1 else 2);
  objects =
      λ i. record { bytes = 0 ∷ []; aux = record { head = 0; tail = 0; max = 1; full = false } };
  next = 5;
  open_fds = 0;
  mapped = λ i. 1;
}

map_failed_unnoticed_example :
    (m' : Shm) × (h : Handle) × (circular_buf_connect_shm true
        (record { reopen = true; map = false })
        admitted
        1
        base
        some_ring
      ≡ returns m' (some h))
    × (ring_of m' h ≡ none)
map_failed_unnoticed_example =
    map_failed_unnoticed some_ring base 1 1 1 (omega arith) (omega arith) refl refl refl

abbrev old_handle : Handle
old_handle = record { buffer = some 1; internal = 2 }

abbrev Again : Type 0
Again =
    (m' : Shm) × (h : Handle) × (circular_buf_init_shm true all_granted all_granted 4 base some_ring
      ≡ returns m' h)
    × IsRing some_ring m' h base 4

again : Again
again = circular_buf_init_shm-IsRing some_ring base 4 (omega arith) (omega arith)

abbrev old_ring : Ring
old_ring = record { head = 0; tail = 0; max = 1; full = false; buffer = 0 ∷ [] }

old_handle-IsMapped : IsMapped old_handle everywhere 1 2
old_handle-IsMapped = record { at = refl; apart = refl; first = refl; second = refl }

old_seen : ring_of (seen_by some_ring 0 everywhere) old_handle ≡ some old_ring
unfolding ring_of
old_seen = refl

created_again_example :
    (ring_of (seen_by (store_ring again.0 again.1 written_ring) 0 everywhere) old_handle
      ≡ some old_ring)
    × (ring_of (store_ring again.0 old_handle written_ring) again.1
        ≡ some (Ring.init (replicate 4 0) 4))
created_again_example =
    created_again some_ring again.0 again.1 old_handle base 4 1 2 0 everywhere old_ring written_ring
      (omega arith) (omega arith) again.2 old_handle-IsMapped (omega arith) (omega arith) old_seen
