-- ===== src/Ring/Window.antt =====
-- ring_buffer_posix.c: the bytes that a valid ring holds, oldest first, and what the two branches of
-- a copy read and write of them.
use hermes_broadcast.Common.{
  ℕ, zero, suc, ◌+◌, ◌-◌, ◌≤◌, ◌<◌, true, false, List, [], ◌∷◌, ◌++◌, some, ◌≡◌, refl, sym, ap, ap₂,
  ◌∙◌, arith, ltb, Bool-cases, inl, inr, length, get_or, take, drop,
}
use hermes_broadcast.Ring.{Ring, sub_size, copy_out, read_bytes}
use hermes_broadcast.Ring.Valid.{IsValid, used, at, add_size-mod}

-- The list of the first `n` values of `f`.
abbrev pub tabulate : ℕ → (ℕ → ℕ) → List ℕ
tabulate zero f = []
tabulate (suc n) f = f 0 ∷ tabulate n (λ i. f (suc i))

pub length-tabulate : (n : ℕ) (f : ℕ → ℕ) → length (tabulate n f) ≡ n
length-tabulate zero f = refl
length-tabulate (suc n) f = ap suc (length-tabulate n (λ i. f (suc i)))

pub tabulate_ext :
    (n : ℕ) (f g : ℕ → ℕ) → ((i : ℕ) → i < n → f i ≡ g i) → tabulate n f ≡ tabulate n g
tabulate_ext zero f g h = refl
tabulate_ext (suc n) f g h =
    ap₂ ◌∷◌ (h 0 (omega arith))
      (tabulate_ext n (λ i. f (suc i)) (λ i. g (suc i)) (λ i lt. h (suc i) (omega arith)))

-- The end is a variable with an equation, since `m + n` is stuck.
pub tabulate-add :
    (m n k : ℕ) (f : ℕ → ℕ) → m + n ≡ k → tabulate k f ≡ tabulate m f ++ tabulate n (λ i. f (m + i))
tabulate-add zero n k f e = rw (← e) (tabulate_zero n f)
  where
    tabulate_zero : (n : ℕ) (f : ℕ → ℕ) → tabulate (0 + n) f ≡ tabulate n (λ i. f (0 + i))
    tabulate_zero n f =
        ap (λ j. tabulate j f) (omega arith)
        ∙ tabulate_ext n f (λ i. f (0 + i)) (λ i lt. ap f (omega arith))
tabulate-add (suc m) n zero f e = absurd (omega arith)
tabulate-add (suc m) n (suc k) f e =
    ap (λ r. f 0 ∷ r) (tabulate-add m n k (λ i. f (suc i)) (omega arith))
    ∙ ap (λ r. f 0 ∷ tabulate m (λ i. f (suc i)) ++ r)
        (tabulate_ext n (λ i. f (suc (m + i))) (λ i. f (suc m + i)) (λ i lt. ap f (omega arith)))

pub take-tabulate : (n k : ℕ) (f : ℕ → ℕ) → n ≤ k → take n (tabulate k f) ≡ tabulate n f
take-tabulate zero k f h = refl
take-tabulate (suc n) zero f h = absurd (omega arith)
take-tabulate (suc n) (suc k) f h =
    ap (λ r. f 0 ∷ r) (take-tabulate n k (λ i. f (suc i)) (omega arith))

pub drop-tabulate :
    (n m k : ℕ) (f : ℕ → ℕ) → n + m ≡ k → drop n (tabulate k f) ≡ tabulate m (λ i. f (n + i))
drop-tabulate zero m k f e =
    ap (λ j. tabulate j f) (omega arith)
    ∙ tabulate_ext m f (λ i. f (0 + i)) (λ i lt. ap f (omega arith))
drop-tabulate (suc n) m zero f e = absurd (omega arith)
drop-tabulate (suc n) m (suc k) f e =
    drop-tabulate n m k (λ i. f (suc i)) (omega arith)
    ∙ tabulate_ext m (λ i. f (suc (n + i))) (λ i. f (suc n + i)) (λ i lt. ap f (omega arith))

pub take-drop-tabulate :
    (xs : List ℕ) (i n : ℕ)
    → i + n ≤ length xs
    → take n (drop i xs) ≡ tabulate n (λ j. get_or xs (i + j) 0)
take-drop-tabulate xs zero zero h = refl
take-drop-tabulate [] zero (suc n) h = absurd (omega arith)
take-drop-tabulate (x ∷ xs) zero (suc n) h = ap₂ ◌∷◌ refl (
    take-drop-tabulate xs zero n (omega arith)
    ∙ tabulate_ext n (λ j. get_or xs (0 + j) 0) (λ j. get_or (x ∷ xs) (0 + suc j) 0)
        (λ j lt. shift j))
  where
    shift : (j : ℕ) → get_or xs (0 + j) 0 ≡ get_or (x ∷ xs) (0 + suc j) 0
    shift j = let e : 0 + suc j ≡ suc (0 + j) = omega arith in rw e
take-drop-tabulate [] (suc i) zero h = refl
take-drop-tabulate [] (suc i) (suc n) h = absurd (omega arith)
take-drop-tabulate (x ∷ xs) (suc i) n h =
    take-drop-tabulate xs i n (omega arith)
    ∙ tabulate_ext n (λ j. get_or xs (i + j) 0) (λ j. get_or (x ∷ xs) (suc i + j) 0)
        (λ j lt. shift j)
  where
    shift : (j : ℕ) → get_or xs (i + j) 0 ≡ get_or (x ∷ xs) (suc i + j) 0
    shift j = let e : suc i + j ≡ suc (i + j) = omega arith in rw e

-- The bytes held, oldest first.
abbrev pub byte_at : Ring → ℕ → ℕ
byte_at r i = get_or r.buffer (at r.tail i r.max) 0

abbrev pub contents : Ring → List ℕ
contents r = tabulate (used r) (byte_at r)

pub length-contents : (r : Ring) → length (contents r) ≡ used r
length-contents r = length-tabulate (used r) (byte_at r)

copy_out-tabulate :
    (src : List ℕ) (i n : ℕ)
    → i + n ≤ length src
    → copy_out src i n ≡ some (tabulate n (λ j. get_or src (i + j) 0))
unfolding copy_out
copy_out-tabulate src i n h = ground (arith, take-drop-tabulate src i n h)

-- Both branches of a read find the next `len` bytes, inside the storage.
pub read_bytes_lem :
    {r : Ring} (len : ℕ)
    → IsValid r
    → 0 < len
    → len ≤ r.max
    → read_bytes r len ≡ some (tabulate len (byte_at r))
unfolding read_bytes
read_bytes_lem {r} len v p h =
    rw (add_size-mod r.tail len r.max v.small v.tail_in h)
      (elim (Bool-cases (ltb (r.tail + len) r.max)) [
        | inl near ↦
            let e : ltb r.tail (at r.tail len r.max) ≡ true = ground arith in
            rw e (
              copy_out-tabulate r.buffer r.tail len (ground arith)
              ∙ ap some (
                  tabulate_ext len (λ j. get_or r.buffer (r.tail + j) 0) (byte_at r)
                    (λ i lt. ap (λ k. get_or r.buffer k 0) (ground arith))))
        | inr far ↦
            let e : ltb r.tail (at r.tail len r.max) ≡ false = ground arith in
            let f : sub_size r.max r.tail ≡ r.max - r.tail = omega arith in
            let g : sub_size len (sub_size r.max r.tail) ≡ len - (r.max - r.tail) = ground arith in
            rw
              (
                e,
                f,
                copy_out-tabulate r.buffer r.tail (r.max - r.tail) (omega arith),
                g,
                copy_out-tabulate r.buffer 0 (len - (r.max - r.tail)) (omega arith),
              )
              (ap some (
                ap₂ ◌++◌
                  (tabulate_ext (r.max - r.tail) (λ j. get_or r.buffer (r.tail + j) 0) (byte_at r)
                    (λ i lt. ap (λ k. get_or r.buffer k 0) (ground arith)))
                  (tabulate_ext (len - (r.max - r.tail)) (λ j. get_or r.buffer (0 + j) 0)
                    (λ i. byte_at r (r.max - r.tail + i))
                    (λ i lt. ap (λ k. get_or r.buffer k 0) (ground arith)))
                ∙ sym (
                    tabulate-add (r.max - r.tail) (len - (r.max - r.tail)) len (byte_at r)
                      (ground arith))))
      ])
