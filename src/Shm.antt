-- ===== src/Shm.antt =====
-- shm_posix.c, and the functions of ring_buffer_posix.c that create, connect to and remove the
-- shared memory of a ring. What the system grants is an argument. An object stays where it is as
-- long as a process maps it, whatever becomes of its name. The steps of another process in between
-- are left out.
pub mod Names
pub mod Create
pub mod Connect
pub mod Remove
pub mod Client
pub mod Joined
mod Tests
use hermes_broadcast.Common.{
  ℕ, zero, suc, ◌+◌, ◌-◌, Bool, true, false, not, ◌&&◌, ◌||◌, List, [], ◌∷◌, ◌++◌, Option, none,
  some, ltb, leb, ◌==◌, if◌then◌else◌, length, take, replicate,
}
use hermes_broadcast.Ring
use hermes_broadcast.Ring.{Ring, is_empty, reset}

abbrev pub max_posix_shm_name : ℕ
max_posix_shm_name = 255

-- `sizeof(struct circular_buf_t_aux)` with the mutex and the condition of a 64-bit glibc.
abbrev pub aux_size : ℕ
aux_size = 120

-- `circular_buf_t_aux`, its lock and its condition aside.
pub record Aux : Type 0 where
  pub head : ℕ
  pub tail : ℕ
  pub max : ℕ
  pub full : Bool

-- A shared memory object: its bytes, which one of the ring's two is used as, and the struct, which
-- the other is used as. A new one is all zeros.
pub record Object : Type 0 where
  pub bytes : List ℕ
  pub aux : Aux

abbrev pub empty_object : Object
empty_object = record { bytes = []; aux = record { head = 0; tail = 0; max = 0; full = false } }

-- The names and the objects of the system, with the descriptors and the mappings of the process. A
-- descriptor is the object that it is for.
pub record Shm : Type 0 where
  pub names : List ℕ → Option ℕ
  pub objects : ℕ → Object
  pub next : ℕ
  pub open_fds : ℕ
  pub mapped : ℕ → ℕ

-- `circular_buf_t`: no buffer is MAP_FAILED, which is not NULL.
pub record Handle : Type 0 where
  pub buffer : Option ℕ
  pub internal : ℕ

-- How a function ends.
pub data Called (A : Type 0) : Type 0 where
  returns : Shm → A → Called A
  aborts : Called A
  fault : Called A

abbrev pub M : Type 0 → Type 0
M A = Shm → Called A

abbrev pub and_then : {A B : Type 0} → (A → M B) → Called A → Called B
and_then f (returns m a) = f a m
and_then f aborts = aborts
and_then f fault = fault

infixl 5 ◌>>=◌ ◌>>◌
abbrev pub ◌>>=◌ : {A B : Type 0} → M A → (A → M B) → M B
◌>>=◌ f g m = and_then g (f m)

abbrev pub ◌>>◌ : {B : Type 0} → M (Unit {0}) → M B → M B
f >> g = f >>= λ _. g

unfoldable pub same_name : List ℕ → List ℕ → Bool
same_name [] [] = true
same_name [] (d ∷ ds) = false
same_name (c ∷ cs) [] = false
same_name (c ∷ cs) (d ∷ ds) = c == d && same_name cs ds

abbrev pub bind_name : (List ℕ → Option ℕ) → List ℕ → Option ℕ → List ℕ → Option ℕ
bind_name names name v key = if same_name name key then v else names key

abbrev pub with_object : (ℕ → Object) → ℕ → Object → ℕ → Object
with_object objects i o j = if i == j then o else objects j

-- An object of another size: cut, or with zeros added.
abbrev pub truncated : ℕ → Object → Object
truncated size o = record o { bytes = take size o.bytes ++ replicate (size - length o.bytes) 0 }

abbrev pub opened : Option ℕ → M (Option ℕ)
opened none m = returns m none
opened (some fd) m = returns (record m { open_fds = suc m.open_fds }) (some fd)

-- `shm_open`, without and with O_CREAT, `shm_unlink`, `ftruncate`, `close`.
unfoldable pub shm_open : Bool → List ℕ → M (Option ℕ)
shm_open granted name m = opened (if granted then m.names name else none) m

abbrev pub create_in : Option ℕ → List ℕ → M (Option ℕ)
create_in (some fd) name m = opened (some fd) m
create_in none name m =
    returns
      (record m {
        names = bind_name m.names name (some m.next);
        objects = with_object m.objects m.next empty_object;
        next = suc m.next;
        open_fds = suc m.open_fds;
      })
      (some m.next)

unfoldable pub shm_open_create : Bool → List ℕ → M (Option ℕ)
shm_open_create granted name m = if granted then create_in (m.names name) name m else returns m none

unfoldable pub shm_unlink : Bool → List ℕ → M (Unit {0})
shm_unlink granted name m =
    returns (if granted then record m { names = bind_name m.names name none } else m) tt

unfoldable pub ftruncate : Bool → (size : ℕ) → Option ℕ → M ℕ
ftruncate granted size none m = aborts
ftruncate granted size (some fd) m =
    if granted
    then returns (record m { objects = with_object m.objects fd (truncated size (m.objects fd)) })
        fd
    else aborts

abbrev pub close_fd : M (Unit {0})
close_fd m = returns (record m { open_fds = m.open_fds - 1 }) tt

-- `none` for -1. A name that is too long aborts.
unfoldable pub shm_open_and_get_fd : Bool → List ℕ → M (Option ℕ)
unfolding shm_open
shm_open_and_get_fd granted name m =
    if leb max_posix_shm_name (length name) then aborts else shm_open granted name m

-- What the system grants to the creation of an object.
pub record Grants : Type 0 where
  pub reopen : Bool
  pub unlink : Bool
  pub create : Bool
  pub truncate : Bool
  pub map : Bool

-- The descriptor that shows that there is an object already is not closed.
unfoldable pub remove_old : Grants → List ℕ → Option ℕ → M (Unit {0})
unfolding shm_unlink
remove_old g name none m = returns m tt
remove_old g name (some fd) m = shm_unlink g.unlink name m

unfoldable pub shm_create_and_get_fd : Grants → List ℕ → (size : ℕ) → M ℕ
unfolding shm_open remove_old shm_open_create ftruncate
shm_create_and_get_fd g name size = do
  old ← shm_open g.reopen name
  remove_old g name old
  fd ← shm_open_create g.create name
  ftruncate g.truncate size fd

-- `none` for MAP_FAILED.
unfoldable pub shm_map : Bool → ℕ → M (Option ℕ)
shm_map granted fd m =
    if granted
    then returns (record m { mapped = λ i. if fd == i then suc (m.mapped i) else m.mapped i })
        (some fd)
    else returns m none

unfoldable pub shm_unmap : Option ℕ → M (Unit {0})
shm_unmap none m = returns m tt
shm_unmap (some id) m =
    returns (record m { mapped = λ i. if id == i then m.mapped i - 1 else m.mapped i }) tt

-- `strcpy(tmp, base_name); strcat(tmp, "-1")`, or "-2", into an array of MAX_POSIX_SHM_NAME.
unfoldable pub tmp_name : (base_name : List ℕ) → (digit : ℕ) → M (List ℕ)
tmp_name base_name digit m =
    if ltb max_posix_shm_name (length base_name + 3)
    then fault
    else returns m (base_name ++ 45 ∷ digit ∷ [])

abbrev pub as_ring : List ℕ → Aux → Ring
as_ring bytes a = record {
  head = a.head;
  tail = a.tail;
  max = a.max;
  full = a.full;
  buffer = bytes;
}

abbrev pub as_aux : Ring → Aux
as_aux r = record { head = r.head; tail = r.tail; max = r.max; full = r.full }

abbrev pub with_aux : Shm → ℕ → Aux → Shm
with_aux m id a = record m {
  objects = with_object m.objects id (record (m.objects id) { aux = a });
}

-- The fields of a new ring; to reach them through MAP_FAILED is a fault.
unfoldable pub init_internal : (size : ℕ) → Option ℕ → Option ℕ → M Handle
unfolding reset is_empty
init_internal size buffer none m = fault
init_internal size buffer (some id) m =
    let r = reset (as_ring [] (record (m.objects id).aux { max = size })) in
    if is_empty r
    then returns (with_aux m id (as_aux r)) (record { buffer = buffer; internal = id })
    else aborts

-- The parts of `circular_buf_init_shm`: an object and its mapping, then the other.
unfoldable pub create_and_map : Grants → (base_name : List ℕ) → (digit size : ℕ) → M (Option ℕ)
unfolding tmp_name shm_create_and_get_fd shm_map
create_and_map g base_name digit size = do
  tmp ← tmp_name base_name digit
  fd ← shm_create_and_get_fd g tmp size
  p ← shm_map g.map fd
  close_fd
  λ m. returns m p

unfoldable pub circular_buf_init_shm :
    (allocated : Bool) → (first second : Grants) → (size : ℕ) → (base_name : List ℕ) → M Handle
unfolding create_and_map init_internal
circular_buf_init_shm allocated first second size base_name m =
    if size == 0 || not allocated
    then aborts
    else (create_and_map first base_name 49 size >>= λ buffer.
          create_and_map second base_name 50 aux_size >>= λ internal.
          init_internal size buffer internal)
        m

-- What the system grants to a connection.
pub record Admission : Type 0 where
  pub reopen : Bool
  pub map : Bool

unfoldable pub check_size : (size : ℕ) → Option ℕ → Option ℕ → M (Option Handle)
check_size size buffer none m = fault
check_size size buffer (some id) m =
    if (m.objects id).aux.max == size
    then returns m (some (record { buffer = buffer; internal = id }))
    else aborts

unfoldable pub connect_internal : Admission → (size : ℕ) → Option ℕ → Option ℕ → M (Option Handle)
unfolding shm_map check_size
connect_internal a size buffer none m = returns m none
connect_internal a size buffer (some fd) m =
    (do internal ← shm_map a.map fd; close_fd; check_size size buffer internal) m

unfoldable pub connect_buffer :
    (first second : Admission) → (size : ℕ) → (base_name : List ℕ) → Option ℕ → M (Option Handle)
unfolding shm_map tmp_name shm_open_and_get_fd connect_internal
connect_buffer first second size base_name none m = returns m none
connect_buffer first second size base_name (some fd) m =
    (do
      buffer ← shm_map first.map fd
      close_fd
      tmp ← tmp_name base_name 50
      fd2 ← shm_open_and_get_fd second.reopen tmp
      connect_internal second size buffer fd2)
      m

-- `none` for NULL.
unfoldable pub circular_buf_connect_shm :
    (allocated : Bool)
    → (first second : Admission) → (size : ℕ) → (base_name : List ℕ) → M (Option Handle)
unfolding tmp_name shm_open_and_get_fd connect_buffer
circular_buf_connect_shm allocated first second size base_name m =
    if size == 0 || not allocated
    then aborts
    else (tmp_name base_name 49 >>= λ tmp. shm_open_and_get_fd first.reopen tmp >>= λ fd1.
          connect_buffer first second size base_name fd1)
        m

unfoldable pub circular_buf_destroy_shm :
    Handle → (first second : Bool) → (base_name : List ℕ) → M (Unit {0})
unfolding shm_unmap shm_unlink tmp_name
circular_buf_destroy_shm h first second base_name = do
  shm_unmap h.buffer
  shm_unmap (some h.internal)
  tmp1 ← tmp_name base_name 49
  shm_unlink first tmp1
  tmp2 ← tmp_name base_name 50
  shm_unlink second tmp2

-- The ring behind a handle: none where a pointer of it leads nowhere.
abbrev pub ring_at : Shm → Option ℕ → ℕ → Option Ring
ring_at m none j = none
ring_at m (some i) j =
    if ltb 0 (m.mapped i) && ltb 0 (m.mapped j)
    then some (as_ring (m.objects i).bytes (m.objects j).aux)
    else none

unfoldable pub ring_of : Shm → Handle → Option Ring
ring_of m h = ring_at m h.buffer h.internal

-- What a call leaves in the two objects.
abbrev pub store_at : Shm → Option ℕ → ℕ → Ring → Shm
store_at m none j r = m
store_at m (some i) j r =
    let m1 = record m {
      objects = with_object m.objects i (record (m.objects i) { bytes = r.buffer });
    } in
    with_aux m1 j (as_aux r)

unfoldable pub store_ring : Shm → Handle → Ring → Shm
store_ring m h r = store_at m h.buffer h.internal r
