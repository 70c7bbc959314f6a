-- ===== src/Transmitter/Starts.antt =====
-- transmitter.c: what `main` has when it enters its loop, on every answer of the system.
use hermes_broadcast.Common.{
  ℕ, zero, suc, ◌+◌, ◌-◌, ◌%◌, ◌^◌, ◌≤◌, ◌<◌, Bool, true, false, List, [], ◌∷◌, Option, none, some,
  ltb, leb, ◌==◌, ◌||◌, ◌&&◌, length, length-replicate, get_or, replicate, All, ◌≡◌, ◌⊎◌, refl, sym,
  ap, subst, ◌∙◌, Bool-cases, inl, inr, arith,
}
use hermes_broadcast.Modes.{
  shm_payload_buffer_size, mercury_mode_max, mercury_frame_size, hermes_mode_max, hermes_frame_size,
}
use hermes_broadcast.Nanorq.{Nanorq}
use hermes_broadcast.Nanorq.Laws.{Laws}
use hermes_broadcast.Tcp.{Interface, tcp_interface_init, tcp_interface_connect}
use hermes_broadcast.Shm.{Handle, Called, returns, aborts, fault, circular_buf_connect_shm}
use hermes_broadcast.Transmitter.{
  OutputMode, output_shm, output_tcp, max_esi, frame_size_of, packet_size_of,
}
use hermes_broadcast.Transmitter.Slices.{IsNext}
use hermes_broadcast.Transmitter.Main.{
  Opt, set_tcp, set_ip, set_port, help, unknown, Args, too_few, args, Settings, World,
  shm_payload_name, Start, exits, dies, transmits, linked_tcp, linked_shm, connect_output,
  generate_blocks, new_coder, open_input, check_mode, check_args, start_up,
}

-- The frames of the tables: three bytes, or room for a configuration.
abbrev is_frame : ℕ → Bool
is_frame size = size == 3 || (leb 9 size && leb size 512)

abbrev are_frames : List ℕ → Bool
are_frames [] = true
are_frames (size ∷ sizes) = is_frame size && are_frames sizes

entry :
    (sizes : List ℕ) (mode : ℕ)
    → are_frames sizes ≡ true
    → mode < length sizes
    → is_frame (get_or sizes mode 0) ≡ true
entry [] mode h p = absurd (omega arith)
entry (x ∷ sizes) zero h p = ground (arith, h)
entry (x ∷ sizes) (suc mode) h p =
    entry sizes mode (others (is_frame x) (are_frames sizes) h) (omega arith)
  where
    others : (a b : Bool) → (a && b) ≡ true → b ≡ true
    others true b e = e
    others false b e = absurd cc

found :
    (sizes : List ℕ) (mode size : ℕ)
    → some (get_or sizes mode 0) ≡ some size
    → get_or sizes mode 0 ≡ size
found sizes mode size e = cc

frame_size_of-is_frame :
    (out : OutputMode) (mode size : ℕ) → frame_size_of out mode ≡ some size → is_frame size ≡ true
unfolding frame_size_of
frame_size_of-is_frame output_shm mode size = elim (Bool-cases (ltb mercury_mode_max mode)) [
  | inl over ↦ rw over (λ e. absurd cc)
  | inr within ↦ rw within (λ e.
      subst (λ x. is_frame x ≡ true) (found mercury_frame_size mode size e)
        (entry mercury_frame_size mode refl (ground arith)))
]
frame_size_of-is_frame output_tcp mode size = elim (Bool-cases (ltb hermes_mode_max mode)) [
  | inl over ↦ rw over (λ e. absurd cc)
  | inr within ↦ rw within (λ e.
      subst (λ x. is_frame x ≡ true) (found hermes_frame_size mode size e)
        (entry hermes_frame_size mode refl (ground arith)))
]

-- The output and the frame size that the options and the arguments ask for.
abbrev pub has_tcp : List Opt → Bool
has_tcp [] = false
has_tcp (set_tcp ∷ os) = true
has_tcp (set_ip ip ∷ os) = has_tcp os
has_tcp (set_port port ∷ os) = has_tcp os
has_tcp (help ∷ os) = has_tcp os
has_tcp (unknown ∷ os) = has_tcp os

abbrev is_tcp : OutputMode → Bool
is_tcp output_shm = false
is_tcp output_tcp = true

-- The mode is one of its table, and the frames have the size that stands there.
abbrev pub IsAsked : (tcp : Bool) → Args → OutputMode → ℕ → Type 0
IsAsked tcp too_few mode size = ⊥
IsAsked tcp (args infile none) mode size = ⊥
IsAsked tcp (args infile (some k)) output_tcp size =
    (tcp ≡ true) × (k ≤ 6) × (size ≡ get_or hermes_frame_size k 0)
IsAsked tcp (args infile (some k)) output_shm size =
    (tcp ≡ false) × (k ≤ 16) × (size ≡ get_or mercury_frame_size k 0)

asked :
    (infile : List ℕ) (k : ℕ) (mode : OutputMode) (size : ℕ)
    → frame_size_of mode k ≡ some size
    → IsAsked (is_tcp mode) (args infile (some k)) mode size
unfolding frame_size_of
asked infile k output_shm size e = (refl, ground arith, ground arith)
asked infile k output_tcp size e = (refl, ground arith, ground arith)

or_true : (b : Bool) → (b || true) ≡ true
or_true true = refl
or_true false = refl

or_false : (b : Bool) → (b || false) ≡ b
or_false true = refl
or_false false = refl

module _ (N : Nanorq) (laws : Laws N) (Pin : OutputMode → ℕ → Type 0) where
  -- What `main` has when it enters its loop: a coder for frames of the mode, with all counters at 0;
  -- the mode of 3-byte frames aside.
  unfoldable pub IsReady : (size : ℕ) → N.Coder → Type 0
  IsReady size c =
      (size ≡ 3)
      ⊎ ((t : ℕ) × (size ≡ t + 4)
          × (5 ≤ t)
          × (N.blocks c ≤ 256)
          × IsNext N t (N.blocks c) c (replicate (N.blocks c) 0))

  unfoldable pub IsStart : Start N → Type 0
  IsStart (exits status) = (status ≡ 0) ⊎ (status ≡ 255)
  IsStart dies = Unit
  IsStart (transmits mode size c io) = Pin mode size × IsReady size c

  linked_tcp-IsStart :
      (go : Start N) (r : Interface × Bool) → IsStart go → IsStart (linked_tcp go r)
  unfolding IsStart
  linked_tcp-IsStart go (iface, true) v = v
  linked_tcp-IsStart go (iface, false) v = inr refl

  linked_shm-IsStart :
      (go : Start N) (r : Called (Option Handle)) → IsStart go → IsStart (linked_shm go r)
  unfolding IsStart
  linked_shm-IsStart go (returns m none) v = inr refl
  linked_shm-IsStart go (returns m (some h)) v = v
  linked_shm-IsStart go aborts v = tt
  linked_shm-IsStart go fault v = tt

  connect_output-IsStart :
      (w : World N) (s : Settings) (mode : OutputMode) (size : ℕ) (c : N.Coder) (io : N.Io)
      → Pin mode size × IsReady size c
      → IsStart (connect_output N w s mode size c io)
  unfolding connect_output IsStart
  connect_output-IsStart w s output_tcp size c io v =
      linked_tcp-IsStart (transmits output_tcp size c io)
        (tcp_interface_connect (tcp_interface_init (some s.tcp_ip) s.tcp_port w.statics).0 w.dial) v
  connect_output-IsStart w s output_shm size c io v =
      linked_shm-IsStart (transmits output_shm size c io)
        (circular_buf_connect_shm w.allocated w.first w.second shm_payload_buffer_size
          shm_payload_name w.memory)
        v

  generate_lem :
      (io : N.Io) (k b : ℕ) (c : N.Coder)
      → (N.blocks (generate_blocks N io k b c) ≡ N.blocks c)
        × (N.oti (generate_blocks N io k b c) ≡ N.oti c)
  unfolding generate_blocks
  generate_lem io zero b c = (refl, refl)
  generate_lem io (suc k) b c =
      let (blocks, oti) = generate_lem io k (suc b) (N.generate_symbols c b io) in
      (blocks ∙ laws.blocks-generate c b io, oti ∙ laws.oti-generate c b io)

  zeros : (n : ℕ) → All (λ e. e < 2 ^ 16) (replicate n 0)
  zeros zero = tt
  zeros (suc n) = (omega arith, zeros n)

  new_coder-IsStart :
      (w : World N) (s : Settings) (size : ℕ) (io : N.Io) (r : Option N.Coder)
      → is_frame size ≡ true
      → Pin s.out_mode size
      → N.encoder_new (N.io_size io) (packet_size_of size) 1 ≡ r
      → IsStart (new_coder N w s size io r)
  unfolding new_coder IsStart IsReady packet_size_of IsNext
  new_coder-IsStart w s size io none h pin e = inr refl
  new_coder-IsStart w s size io (some c) h pin e =
      let limited = N.set_max_esi c max_esi in
      let n = N.blocks limited in
      let ready = generate_blocks N io n 0 limited in
      let (blocks, oti) = generate_lem io n 0 limited in
      let (some_blocks, few) =
        laws.new_blocks (N.io_size io) ((size + 2 ^ 32 - 4) % 2 ^ 32) 1 c e in
      let limit = laws.blocks-set_max_esi c max_esi in
      connect_output-IsStart w s s.out_mode size ready io (
        pin,
        elim (Bool-cases (size == 3)) [
          | inl three ↦ inl (ground arith)
          | inr more ↦
              let large : (9 ≤ size) × (size ≤ 512) = ground arith in
              let t : (size + 2 ^ 32 - 4) % 2 ^ 32 ≡ size - 4 = omega arith in
              inr (
                size - 4,
                omega arith,
                omega arith,
                omega (arith, blocks, limit, few),
                (
                  refl,
                  ap (λ x. x.symbol_size) (oti ∙ laws.oti-set_max_esi c max_esi)
                      ∙ laws.new_symbol (N.io_size io) (size - 4) c
                          (ap (λ x. N.encoder_new (N.io_size io) x 1) (sym t) ∙ e) (omega arith)
                          (omega arith),
                  length-replicate (N.blocks ready) 0,
                  zeros (N.blocks ready),
                ),
              )
        ],
      )

  open_input-IsStart :
      (w : World N) (s : Settings) (size : ℕ) (io : Option N.Io)
      → is_frame size ≡ true
      → Pin s.out_mode size
      → IsStart (open_input N w s size io)
  unfolding open_input IsStart
  open_input-IsStart w s size none h pin = inr refl
  open_input-IsStart w s size (some io) h pin = elim (Bool-cases (ltb 16777215 (N.io_size io))) [
    | inl over ↦ rw over (inr refl)
    | inr within ↦ rw within (
        new_coder-IsStart w s size io (N.encoder_new (N.io_size io) (packet_size_of size) 1) h pin
          refl)
  ]

  check_mode-IsStart :
      (w : World N) (s : Settings) (infile : List ℕ) (mode : OutputMode) (k : ℕ) (size : Option ℕ)
      → frame_size_of mode k ≡ size
      → ((n : ℕ) → size ≡ some n → Pin s.out_mode n)
      → IsStart (check_mode N w s infile size)
  unfolding check_mode IsStart
  check_mode-IsStart w s infile mode k none e pin = inr refl
  check_mode-IsStart w s infile mode k (some size) e pin =
      open_input-IsStart w s size (w.open_read infile) (frame_size_of-is_frame mode k size e)
        (pin size refl)

module _ (N : Nanorq) (laws : Laws N) where
  pub start_up-IsStart :
      (w : World N) (s : Settings) (os : List Opt) (a : Args)
      → IsStart N laws (IsAsked (is_tcp s.out_mode || has_tcp os) a) (start_up N w s os a)
  unfolding start_up check_args IsStart
  start_up-IsStart w s [] too_few = inr refl
  start_up-IsStart w s [] (args infile none) = inr refl
  start_up-IsStart w s [] (args infile (some k)) =
      check_mode-IsStart N laws (IsAsked (is_tcp s.out_mode || false) (args infile (some k))) w s
        infile s.out_mode k (frame_size_of s.out_mode k) refl
        (λ n e.
          subst (λ tcp. IsAsked tcp (args infile (some k)) s.out_mode n)
            (sym (or_false (is_tcp s.out_mode))) (asked infile k s.out_mode n e))
  start_up-IsStart w s (set_tcp ∷ os) a =
      let s1 = record s { out_mode = output_tcp } in
      subst (λ tcp. IsStart N laws (IsAsked tcp a) (start_up N w s1 os a))
        (sym (or_true (is_tcp s.out_mode))) (start_up-IsStart w s1 os a)
  start_up-IsStart w s (set_ip ip ∷ os) a = start_up-IsStart w (record s { tcp_ip = ip }) os a
  start_up-IsStart w s (set_port port ∷ os) a =
      start_up-IsStart w (record s { tcp_port = port }) os a
  start_up-IsStart w s (help ∷ os) a = inl refl
  start_up-IsStart w s (unknown ∷ os) a = inr refl
