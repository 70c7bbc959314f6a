-- ===== src/Receiver/Keeps.antt =====
-- receiver.c: a payload leaves the number of blocks, and ends the program on a whole file only.
use hermes_broadcast.Common.{
  ◌-◌, ℕ, suc, ◌*◌, bit_or, drop, ◌%◌, ◌^◌, Bool, true, false, not, ◌&&◌, List, Option, none, some,
  ltb, leb, if◌then◌else◌, get_or, set, ◌≡◌, refl, Bool-cases, inl, inr,
}
use hermes_broadcast.Nanorq.{tag, Nanorq, SymbolResult, added, ignored, duplicate, failed, is_added}
use hermes_broadcast.Kiss.{max_payload}
use hermes_broadcast.Receiver.{
  Receiver, Turn, continues, received, other_file, fault, max_blocks, check_received, file_received,
  try_block, use_symbol, use_payload,
}
use hermes_broadcast.Header.{byte}

-- The number of blocks stays as it is, and a file is received when all of its blocks are decoded.
abbrev pub KeepsBlocks : {N : Nanorq} → ℕ → Turn N → Type 0
KeepsBlocks n (continues r) = (r.num_sbn ≡ n) × (r.configuration_received ≡ true)
KeepsBlocks n (received r) =
    (r.num_sbn ≡ n)
    × (file_received r.num_sbn r.block_decoded ≡ true)
    × (r.configuration_received ≡ true)
KeepsBlocks n (other_file r) = Unit
KeepsBlocks n fault = Unit

guarded-KeepsBlocks :
    {N : Nanorq} (n : ℕ) (b : Bool) (x : Turn N)
    → KeepsBlocks n x
    → KeepsBlocks n (if b then fault else x)
guarded-KeepsBlocks n true x k = tt
guarded-KeepsBlocks n false x k = k

module _ (N : Nanorq) where
  check_received-KeepsBlocks :
      (r : Receiver N) (n : ℕ)
      → r.num_sbn ≡ n
      → r.configuration_received ≡ true
      → KeepsBlocks n (check_received r)
  unfolding check_received
  check_received-KeepsBlocks r n e on = elim (Bool-cases (ltb max_blocks r.num_sbn)) [
    | inl many ↦ rw many tt
    | inr few ↦ elim (Bool-cases (file_received r.num_sbn r.block_decoded)) [
      | inl done ↦ rw (few, done) (e, done, on)
      | inr more ↦ rw (few, more) (e, on)
    ]
  ]

  try_block-KeepsBlocks :
      (r : Receiver N) (c : N.Coder) (sbn n : ℕ)
      → r.num_sbn ≡ n
      → r.configuration_received ≡ true
      → KeepsBlocks n (try_block N r c sbn)
  unfolding try_block
  try_block-KeepsBlocks r c sbn n e on =
      let (repaired, c1, io1) = N.repair_block c r.myio sbn in
      let r1 = record r { rq = some c1; myio = io1 } in
      elim (Bool-cases (ltb sbn max_blocks)) [
        | inr out ↦ rw out tt
        | inl within ↦
            elim (Bool-cases
              (leb (N.block_symbols c sbn) (get_or r.esi sbn 0) && r.have_more_symbols)) [
                | inr less ↦ rw (within, less) (check_received-KeepsBlocks r n e on)
                | inl enough ↦ elim (Bool-cases repaired) [
                  | inl ok ↦
                      rw (within, enough, ok)
                        (check_received-KeepsBlocks
                          (record r1 { block_decoded = set r.block_decoded sbn true }) n e on)
                  | inr bad ↦ rw (within, enough, bad) (check_received-KeepsBlocks r1 n e on)
                ]
              ]
      ]

  use_symbol-KeepsBlocks :
      (r : Receiver N) (c : N.Coder) (sbn n : ℕ) (ret : SymbolResult)
      → r.num_sbn ≡ n
      → r.configuration_received ≡ true
      → KeepsBlocks n (use_symbol N r c sbn ret)
  unfolding use_symbol
  use_symbol-KeepsBlocks r c sbn n failed e on = (e, on)
  use_symbol-KeepsBlocks r c sbn n ignored e on = try_block-KeepsBlocks r c sbn n e on
  use_symbol-KeepsBlocks r c sbn n duplicate e on =
      try_block-KeepsBlocks (record r { have_more_symbols = false }) c sbn n e on
  use_symbol-KeepsBlocks r c sbn n added e on =
      let r1 = record r {
        esi = set r.esi sbn (suc (get_or r.esi sbn 0) % 2 ^ 32);
        have_more_symbols = true;
      } in
      guarded-KeepsBlocks n (not (ltb sbn max_blocks)) (try_block N r1 c sbn)
        (try_block-KeepsBlocks r1 c sbn n e on)

  pub use_payload-KeepsBlocks :
      (r : Receiver N) (data_frame : List ℕ) (c : Option N.Coder)
      → r.configuration_received ≡ true
      → KeepsBlocks r.num_sbn (use_payload N r data_frame c)
  unfolding use_payload
  use_payload-KeepsBlocks r data_frame none on = tt
  use_payload-KeepsBlocks r data_frame (some c) on =
      let sbn = byte data_frame 1 in
      let t = tag sbn (bit_or (byte data_frame 2) (byte data_frame 3 * 2 ^ 8)) in
      let (ret, c1, io1) = N.add_symbol c (drop 4 data_frame) t r.myio in
      guarded-KeepsBlocks r.num_sbn (is_added ret && ltb (max_payload - 4) (N.oti c).symbol_size)
        (use_symbol N (record r { rq = some c1; myio = io1 }) c1 sbn ret)
        (use_symbol-KeepsBlocks (record r { rq = some c1; myio = io1 }) c1 sbn r.num_sbn ret refl
          on)
