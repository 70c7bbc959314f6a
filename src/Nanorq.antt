-- ===== src/Nanorq.antt =====
-- raptorq/nanorq.h: the RaptorQ library as the programs call it, and the functions that this
-- repository's copy adds to write the parameters and the tag of a packet (raptorq/nanorq.c).
-- A coder's state and the file behind `struct ioctx` go in and come out of each call.
pub mod Laws
pub mod Sample
use hermes_broadcast.Common.{
  ℕ, ◌+◌, ◌-◌, ◌*◌, ◌/◌, ◌%◌, ◌^◌, bit_or, Bool, true, false, List, [], ◌∷◌, Option,
}

-- The fields of `struct nanorq` that the headers carry: transfer length, symbol size, alignment,
-- source blocks and sub-blocks.
pub record Oti : Type 0 where
  pub transfer_length : ℕ
  pub symbol_size : ℕ
  pub alignment : ℕ
  pub source_blocks : ℕ
  pub sub_blocks : ℕ

-- `nanorq_decoder_add_symbol` returns NANORQ_SYM_ADDED, _IGN, _DUP or _ERR.
pub data SymbolResult : Type 0 where
  added ignored duplicate failed : SymbolResult

abbrev pub is_added : SymbolResult → Bool
is_added added = true
is_added ignored = false
is_added duplicate = false
is_added failed = false

-- The library's coders; `Coder` is `nanorq *` with what it points to, `Io` is `struct ioctx *`.
pub record Nanorq : Type 1 where
  pub Coder : Type 0
  pub Io : Type 0
  pub io_size : Io → ℕ
  pub encoder_new : (len symbol_size align : ℕ) → Option Coder
  pub decoder_new : (common scheme : ℕ) → Option Coder
  pub set_max_esi : Coder → ℕ → Coder
  pub oti : Coder → Oti
  pub blocks : Coder → ℕ
  pub generate_symbols : Coder → (sbn : ℕ) → Io → Coder
  pub encode : Coder → (esi sbn : ℕ) → Io → (List ℕ) × ℕ × Coder
  pub add_symbol : Coder → List ℕ → (tag : ℕ) → Io → SymbolResult × Coder × Io
  pub block_symbols : Coder → (sbn : ℕ) → ℕ
  pub repair_block : Coder → Io → (sbn : ℕ) → Bool × Coder × Io

-- The 64-bit and 32-bit parameters that a decoder starts from; `F << 24` and `Z - 1 << 24` keep the
-- width of their types.
unfoldable pub oti_common : Oti → ℕ
oti_common o =
    bit_or (o.transfer_length * 2 ^ 24 % 2 ^ 64) ((o.symbol_size + 2 ^ 64 - 1) % 2 ^ 64 % 2 ^ 16)

unfoldable pub oti_scheme_specific : Oti → ℕ
oti_scheme_specific o =
    bit_or
      (bit_or ((o.source_blocks + 2 ^ 64 - 1) % 2 ^ 64 * 2 ^ 24 % 2 ^ 32)
        ((o.sub_blocks + 2 ^ 64 - 1) % 2 ^ 64 * 2 ^ 8 % 2 ^ 32))
      (o.alignment % 2 ^ 32)

-- The five and three bytes that `buffer` receives.
unfoldable pub oti_common_reduced : Oti → List ℕ
oti_common_reduced o =
    let t = (o.symbol_size + 2 ^ 64 - 1) % 2 ^ 64 in
    o.transfer_length % 256
    ∷ (o.transfer_length / 2 ^ 8 % 256)
    ∷ (o.transfer_length / 2 ^ 16 % 256)
    ∷ (t % 256)
    ∷ (t / 2 ^ 8 % 256)
    ∷ []

unfoldable pub oti_scheme_specific_align1 : Oti → List ℕ
oti_scheme_specific_align1 o =
    let n = (o.sub_blocks + 2 ^ 64 - 1) % 2 ^ 64 in
    ((o.source_blocks + 2 ^ 64 - 1) % 2 ^ 64 % 256) ∷ (n % 256) ∷ (n / 2 ^ 8 % 256) ∷ []

unfoldable pub tag : ℕ → ℕ → ℕ
tag sbn esi = bit_or (sbn * 2 ^ 24 % 2 ^ 32) (esi % 2 ^ 24)

unfoldable pub tag_reduced : ℕ → ℕ → List ℕ
tag_reduced sbn esi = sbn ∷ (esi % 256) ∷ (esi / 2 ^ 8 % 256) ∷ []
