-- ===== src/Nanorq/Laws.antt =====
-- raptorq/nanorq.h: what the programs rely on in the RaptorQ library, as its header documents it.
use hermes_broadcast.Common.{ℕ, ◌+◌, ◌/◌, ◌%◌, ◌^◌, ◌<◌, ◌≤◌, ◌≡◌, some, length, List}
use hermes_broadcast.Nanorq.{Nanorq, added}

-- The symbol size in the parameters of a header.
abbrev pub announced : ℕ → ℕ
announced common = (common % 2 ^ 16 + 1) % 2 ^ 16

-- The number of blocks and the parameters belong to a coder for its life. A new coder has between 1
-- and 256 blocks, and symbols of the 16-bit size asked for where the alignment is 1. Encoding fills
-- a symbol of a block that exists. A decoder has the symbol size of the parameters that it starts
-- from, 16 bits wide. A symbol that is NANORQ_SYM_ADDED is one of a block that exists.
pub record Laws (N : Nanorq) : Type 0 where
  pub new_blocks :
      (len t a : ℕ) (c : N.Coder)
      → N.encoder_new len t a ≡ some c
      → (0 < N.blocks c) × (N.blocks c ≤ 256)
  pub new_symbol :
      (len t : ℕ) (c : N.Coder)
      → N.encoder_new len t 1 ≡ some c
      → 0 < t
      → t < 2 ^ 16
      → (N.oti c).symbol_size ≡ t
  pub new_decoder_blocks :
      (common scheme : ℕ) (c : N.Coder)
      → N.decoder_new common scheme ≡ some c
      → (0 < N.blocks c) × (N.blocks c ≤ 256)
  pub new_decoder_symbol :
      (common scheme : ℕ) (c : N.Coder)
      → N.decoder_new common scheme ≡ some c
      → (N.oti c).symbol_size ≡ announced common
  pub blocks-set_max_esi : (c : N.Coder) (m : ℕ) → N.blocks (N.set_max_esi c m) ≡ N.blocks c
  pub oti-set_max_esi : (c : N.Coder) (m : ℕ) → N.oti (N.set_max_esi c m) ≡ N.oti c
  pub blocks-generate :
      (c : N.Coder) (b : ℕ) (io : N.Io) → N.blocks (N.generate_symbols c b io) ≡ N.blocks c
  pub oti-generate : (c : N.Coder) (b : ℕ) (io : N.Io) → N.oti (N.generate_symbols c b io) ≡ N.oti c
  pub blocks-encode :
      (c : N.Coder) (esi sbn : ℕ) (io : N.Io) → N.blocks ((N.encode c esi sbn io).2) ≡ N.blocks c
  pub oti-encode :
      (c : N.Coder) (esi sbn : ℕ) (io : N.Io) → N.oti ((N.encode c esi sbn io).2) ≡ N.oti c
  pub encode_written :
      (c : N.Coder) (esi sbn : ℕ) (io : N.Io)
      → sbn < N.blocks c
      → ((N.encode c esi sbn io).1 ≡ (N.oti c).symbol_size)
        × (length ((N.encode c esi sbn io).0) ≡ (N.oti c).symbol_size)
  pub blocks-add :
      (c : N.Coder) (bytes : List ℕ) (t : ℕ) (io : N.Io)
      → N.blocks ((N.add_symbol c bytes t io).1) ≡ N.blocks c
  pub oti-add :
      (c : N.Coder) (bytes : List ℕ) (t : ℕ) (io : N.Io)
      → N.oti ((N.add_symbol c bytes t io).1) ≡ N.oti c
  pub oti-repair :
      (c : N.Coder) (io : N.Io) (sbn : ℕ) → N.oti ((N.repair_block c io sbn).1) ≡ N.oti c
  pub added_block :
      (c : N.Coder) (bytes : List ℕ) (t : ℕ) (io : N.Io)
      → (N.add_symbol c bytes t io).0 ≡ added
      → t / 2 ^ 24 % 256 < N.blocks c
  pub blocks-repair :
      (c : N.Coder) (io : N.Io) (sbn : ℕ) → N.blocks ((N.repair_block c io sbn).1) ≡ N.blocks c
