-- ===== src/Tcp/Scans.antt =====
-- tcp_interface.c: what one scan of received bytes takes off the stream.
use hermes_broadcast.Common.{
  ℕ, suc, ◌≤◌, ◌<◌, true, false, List, [], ◌∷◌, ◌++◌, ◌≡◌, refl, sym, subst, ap, ◌∙◌, Bool-cases,
  inl, inr, ltb, if◌then◌else◌, length, take, arith,
}
use hermes_broadcast.Kiss.{KissState, kiss_read}
use hermes_broadcast.Kiss.Stream.{read_all}
use hermes_broadcast.Tcp.{Scan, scan}

abbrev pub scanned : Scan → List (List ℕ) → List (List ℕ)
scanned d fs = if ltb 0 d.ret then take d.ret d.buffer ∷ fs else fs

pub scan_end :
    (s : KissState) (buf : List ℕ)
    → scan s buf [] ≡ record { state = s; buffer = buf; ret = 0; rest = [] }
unfolding scan
scan_end s buf = refl

pub scan_hit :
    (s : KissState) (buf bs : List ℕ) (b : ℕ)
    → ltb 0 (kiss_read s b buf).ret ≡ true
    → scan s buf (b ∷ bs) ≡ record {
      state = (kiss_read s b buf).state;
      buffer = (kiss_read s b buf).buffer;
      ret = (kiss_read s b buf).ret;
      rest = bs;
    }
unfolding scan
scan_hit s buf bs b e = rw (e, scan)

pub scan_miss :
    (s : KissState) (buf bs : List ℕ) (b : ℕ)
    → ltb 0 (kiss_read s b buf).ret ≡ false
    → scan s buf (b ∷ bs) ≡ scan (kiss_read s b buf).state (kiss_read s b buf).buffer bs
unfolding scan
scan_miss s buf bs b e = rw (e, scan)

pub read_all-cons :
    (s : KissState) (buf bs : List ℕ) (b : ℕ)
    → (read_all s buf (b ∷ bs)).frames ≡ (
        if ltb 0 (kiss_read s b buf).ret
        then take (kiss_read s b buf).ret (kiss_read s b buf).buffer
          ∷ (read_all (kiss_read s b buf).state (kiss_read s b buf).buffer bs).frames
        else (read_all (kiss_read s b buf).state (kiss_read s b buf).buffer bs).frames)
unfolding read_all
read_all-cons s buf bs b = ground arith

-- The frames of what a scan leaves of the stream, with the frame that it found.
unfoldable pub left_over : Scan → List ℕ → List (List ℕ)
left_over d more = scanned d (read_all d.state d.buffer (d.rest ++ more)).frames

-- A scan takes the first frame off the stream, and nothing else.
pub scan_frames :
    (s : KissState) (buf bs more : List ℕ)
    → (read_all s buf (bs ++ more)).frames ≡ left_over (scan s buf bs) more
unfolding left_over
scan_frames s buf [] more = rw (scan_end s buf)
scan_frames s buf (b ∷ bs) more = elim (Bool-cases (ltb 0 (kiss_read s b buf).ret)) [
  | inl hit ↦ read_all-cons s buf (bs ++ more) b ∙ rw (scan_hit s buf bs b hit, hit)
  | inr miss ↦
      read_all-cons s buf (bs ++ more) b
      ∙ rw (scan_miss s buf bs b miss, miss)
          (scan_frames (kiss_read s b buf).state (kiss_read s b buf).buffer bs more)
]

-- Behind a frame less is left than there was; without one nothing is left.
abbrev pub Less : Scan → ℕ → Type 0
Less d n = (ltb 0 d.ret ≡ true → length d.rest < n) × (ltb 0 d.ret ≡ false → d.rest ≡ [])

pub scan-Less : (s : KissState) (buf bs : List ℕ) → Less (scan s buf bs) (length bs)
scan-Less s buf [] = subst (λ d. Less d 0) (sym (scan_end s buf)) ((λ e. cc), λ e. refl)
scan-Less s buf (b ∷ bs) = elim (Bool-cases (ltb 0 (kiss_read s b buf).ret)) [
  | inl hit ↦
      subst (λ d. Less d (suc (length bs))) (sym (scan_hit s buf bs b hit))
        ((λ e. omega arith), λ e. cc)
  | inr miss ↦
      let (f, g) = scan-Less (kiss_read s b buf).state (kiss_read s b buf).buffer bs in
      subst (λ d. Less d (suc (length bs))) (sym (scan_miss s buf bs b miss))
        ((λ e. omega (arith, f e)), g)
]

pub Less-le : (d : Scan) (n : ℕ) → Less d n → length d.rest ≤ n
Less-le d n l = elim (Bool-cases (ltb 0 d.ret)) [
  | inl hit ↦ omega (arith, l.0 hit)
  | inr miss ↦ omega (arith, ap (λ (r : List ℕ). length r) (l.1 miss))
]
