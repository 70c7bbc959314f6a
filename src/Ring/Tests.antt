-- ===== src/Ring/Tests.antt =====
-- Runs of the ring, and its theorems at concrete inputs.
use hermes_broadcast.Common.{ℕ, true, false, List, [], ◌∷◌, ◌≡◌, refl, length, arith, ◌⊎◌}
use hermes_broadcast.Ring.{
  Ring, done, fault, read_buffer, write_buffer, size_internal, free_size_internal, read_bytes,
  write_bytes, copy_in, copy_out, advance_pointer_n, retreat_pointer_n,
}
use hermes_broadcast.Ring.Valid.{IsValid}
use hermes_broadcast.Ring.Queue.{read_call, write_call, attempt, serve, view}
use hermes_broadcast.Ring.Calls.{attempt_refines}
use hermes_broadcast.Ring.ZeroLength.{zero_length_faults}
use hermes_broadcast.Ring.Shared.{Shared, Step, call, here, next, Fifo, Reach-Fifo, no_standstill}

-- 8, then 9, round the end of four places
abbrev wrapped : Ring
wrapped = record { head = 1; tail = 3; max = 4; full = false; buffer = 9 ∷ 0 ∷ 0 ∷ 8 ∷ [] }

wrapped-IsValid : IsValid wrapped
wrapped-IsValid = record {
  stored = omega arith;
  small = omega arith;
  head_in = omega arith;
  tail_in = omega arith;
  meets = λ e. cc;
}

read_run :
    read_buffer wrapped 2
    ≡ done
        (record { head = 1; tail = 1; max = 4; full = false; buffer = 9 ∷ 0 ∷ 0 ∷ 8 ∷ [] })
        (8 ∷ 9 ∷ [])
unfolding read_buffer size_internal read_bytes copy_out retreat_pointer_n
read_run = refl

write_run :
    write_buffer wrapped (5 ∷ 6 ∷ []) 2
    ≡ done (record { head = 3; tail = 3; max = 4; full = true; buffer = 9 ∷ 5 ∷ 6 ∷ 8 ∷ [] }) tt
unfolding write_buffer free_size_internal write_bytes copy_in advance_pointer_n
write_run = refl

attempt_refines_example : view (attempt wrapped (read_call 2)) ≡ serve 4 (read_call 2) (8 ∷ 9 ∷ [])
attempt_refines_example = attempt_refines wrapped (read_call 2) wrapped-IsValid (omega arith)

abbrev before : Shared
before = record { ring = wrapped; written = 8 ∷ 9 ∷ []; taken = [] }

abbrev after : Shared
after = record {
  ring = record { head = 1; tail = 1; max = 4; full = false; buffer = 9 ∷ 0 ∷ 0 ∷ 8 ∷ [] };
  written = 8 ∷ 9 ∷ [];
  taken = 8 ∷ 9 ∷ [];
}

one_read : Step before after
one_read = call (read_call 2) (8 ∷ 9 ∷ []) (omega arith) read_run refl refl

Reach-Fifo_example : Fifo 4 after
Reach-Fifo_example =
    Reach-Fifo (record { valid = wrapped-IsValid; same = refl; order = refl }) (next here one_read)

no_standstill_example :
    ((r' : Ring) × (out : List ℕ) × (attempt wrapped (read_call 3) ≡ done r' out)
      × (length out ≡ 3))
    ⊎ ((r' : Ring) × (attempt wrapped (write_call (5 ∷ 6 ∷ []) 2) ≡ done r' []))
no_standstill_example =
    no_standstill wrapped (5 ∷ 6 ∷ []) 2 3 wrapped-IsValid (omega arith) (omega arith) (omega arith)
      (omega arith)

zero_length_faults_example : (read_buffer wrapped 0 ≡ fault) × (write_buffer wrapped [] 0 ≡ fault)
zero_length_faults_example = zero_length_faults wrapped [] wrapped-IsValid (omega arith)
