-- ===== src/Nanorq/Sample.antt =====
-- A small library with which the laws hold: every coder has two blocks, and a symbol is made of
-- sevens.
use hermes_broadcast.Common.{
  ◌≤◌, ℕ, ◌/◌, ◌%◌, ◌^◌, ◌<◌, ◌≡◌, refl, true, List, some, ltb, if◌then◌else◌, length,
  length-replicate, replicate, arith,
}
use hermes_broadcast.Nanorq.{Nanorq, Oti, added, failed}
use hermes_broadcast.Header.Oti.{FitsHeader}
use hermes_broadcast.Nanorq.Laws.{Laws, announced}

abbrev pub sample_oti : ℕ → ℕ → Oti
sample_oti len t = record {
  transfer_length = len;
  symbol_size = t;
  alignment = 1;
  source_blocks = 2;
  sub_blocks = 1;
}

pub sample_oti-FitsHeader :
    (len t : ℕ) → len < 2 ^ 24 → 0 < t → t ≤ 2 ^ 16 → FitsHeader (sample_oti len t)
sample_oti-FitsHeader len t file low high = record {
  file = file;
  symbol = (low, high);
  blocks = (omega arith, omega arith);
  subs = (omega arith, omega arith);
  aligned = refl;
}

abbrev pub sample : Nanorq
sample = record {
  Coder = Oti;
  Io = List ℕ;
  io_size = λ io. length io;
  encoder_new = λ len t a. some (sample_oti len t);
  decoder_new = λ common scheme. some (sample_oti 0 (announced common));
  set_max_esi = λ c m. c;
  oti = λ c. c;
  blocks = λ c. 2;
  generate_symbols = λ c sbn io. c;
  encode = λ c esi sbn io. (replicate c.symbol_size 7, c.symbol_size, c);
  add_symbol = λ c bytes t io. (if ltb (t / 2 ^ 24 % 256) 2 then added else failed, c, io);
  block_symbols = λ c sbn. 1;
  repair_block = λ c io sbn. (true, c, io);
}

pub sample-Laws : Laws sample
sample-Laws = record {
  new_blocks = λ len t a c e. (omega arith, omega arith);
  new_symbol = λ len t c e p h. created len t c e;
  new_decoder_blocks = λ common scheme c e. (omega arith, omega arith);
  new_decoder_symbol = λ common scheme c e. created 0 (announced common) c e;
  blocks-set_max_esi = λ c m. refl;
  oti-set_max_esi = λ c m. refl;
  blocks-generate = λ c b io. refl;
  oti-generate = λ c b io. refl;
  blocks-encode = λ c esi sbn io. refl;
  oti-encode = λ c esi sbn io. refl;
  encode_written = λ c esi sbn io h. (refl, length-replicate {A = ℕ} c.symbol_size 7);
  blocks-add = λ c bytes t io. refl;
  oti-add = λ c bytes t io. refl;
  oti-repair = λ c io sbn. refl;
  added_block = λ c bytes t io h. refused (t / 2 ^ 24 % 256) h;
  blocks-repair = λ c io sbn. refl;
}
  where
    created : (len t : ℕ) (c : Oti) → some (sample_oti len t) ≡ some c → c.symbol_size ≡ t
    created len t c e = ground arith

    refused : (b : ℕ) → (if ltb b 2 then added else failed) ≡ added → b < 2
    refused b h = ground arith
