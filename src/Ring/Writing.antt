-- ===== src/Ring/Writing.antt =====
-- ring_buffer_posix.c: what the two branches of a write store, and where.
use hermes_broadcast.Common.{
  ℕ, zero, suc, ◌+◌, ◌-◌, ◌%◌, ◌≤◌, ◌<◌, true, false, ◌&&◌, List, [], ◌∷◌, ◌++◌, some, ◌≡◌, refl,
  ap, ◌∙◌, arith, ltb, leb, Bool-cases, inl, inr, if◌then◌else◌, length, get_or, take, drop,
  length-take, length-drop, length-append,
}
use hermes_broadcast.Ring.{Ring, sub_size, add_size, copy_in, write_bytes}
use hermes_broadcast.Ring.Valid.{IsValid, add_size-mod}

-- What a copy into an array leaves at each index.
pub get_or-append :
    (xs ys : List ℕ) (j : ℕ)
    → get_or (xs ++ ys) j 0
      ≡ (if ltb j (length xs) then get_or xs j 0 else get_or ys (j - length xs) 0)
get_or-append [] ys j = let e : j ≡ j - 0 = omega arith in ap (λ k. get_or ys k 0) e ∙ ground arith
get_or-append (x ∷ xs) ys zero = ground arith
get_or-append (x ∷ xs) ys (suc j) = get_or-append xs ys j ∙ ground arith

pub get_or-take : (n : ℕ) (xs : List ℕ) (j : ℕ) → j < n → get_or (take n xs) j 0 ≡ get_or xs j 0
get_or-take zero xs j h = absurd (omega arith)
get_or-take (suc n) [] j h = refl
get_or-take (suc n) (x ∷ xs) zero h = refl
get_or-take (suc n) (x ∷ xs) (suc j) h = get_or-take n xs j (omega arith)

pub get_or-drop : (n : ℕ) (xs : List ℕ) (j : ℕ) → get_or (drop n xs) j 0 ≡ get_or xs (n + j) 0
get_or-drop zero xs j = let e : j ≡ 0 + j = omega arith in ap (λ k. get_or xs k 0) e
get_or-drop (suc n) [] j = refl
get_or-drop (suc n) (x ∷ xs) j =
    let e : suc n + j ≡ suc (n + j) = omega arith in rw e (get_or-drop n xs j)

-- A copy that stays inside both arrays keeps the length, and writes the places from `i` on.
pub copy_in_lem :
    (dst : List ℕ) (i : ℕ) (src : List ℕ) (n : ℕ)
    → i + n ≤ length dst
    → n ≤ length src
    → (out : List ℕ) × (copy_in dst i src n ≡ some out)
      × (length out ≡ length dst)
      × ((j : ℕ)
          → get_or out j 0
            ≡ (if leb i j && ltb j (i + n) then get_or src (j - i) 0 else get_or dst j 0))
unfolding copy_in
copy_in_lem dst i src n h k = (
  take i dst ++ (take n src ++ drop (i + n) dst),
  ground arith,
  omega (
    arith,
    length-append (take i dst) (take n src ++ drop (i + n) dst),
    length-append (take n src) (drop (i + n) dst),
    length-take i dst,
    length-take n src,
    length-drop (i + n) dst,
  ),
  λ j. at_index j,
)
  where
    at_index :
        (j : ℕ)
        → get_or (take i dst ++ (take n src ++ drop (i + n) dst)) j 0
          ≡ (if leb i j && ltb j (i + n) then get_or src (j - i) 0 else get_or dst j 0)
    at_index j =
        let e : i + n + (j - i - n) ≡ (if ltb j (i + n) then i + n else j) = ground arith in
        ground (
          arith,
          get_or-append (take i dst) (take n src ++ drop (i + n) dst) j,
          get_or-append (take n src) (drop (i + n) dst) (j - i),
          length-take i dst,
          length-take n src,
          get_or-take i dst j,
          get_or-take n src (j - i),
          get_or-drop (i + n) dst (j - i - n),
        )

-- Where a write of `len` bytes from the head stores its byte `j`, as an index of the storage.
abbrev pub after_write : Ring → List ℕ → ℕ → ℕ → ℕ
after_write r bs len j =
    if leb r.head j && ltb j (r.head + len) && ltb j r.max
    then get_or bs (j - r.head) 0
    else (if ltb (j + r.max) (r.head + len)
        then get_or bs (r.max - r.head + j) 0
        else get_or r.buffer j 0)

write_near :
    (r : Ring) (bs : List ℕ) (len : ℕ)
    → ltb r.head (add_size r.head len % r.max) ≡ true
    → write_bytes r bs len ≡ copy_in r.buffer r.head bs len
unfolding write_bytes
write_near r bs len e = ground arith

write_far :
    (r : Ring) (bs : List ℕ) (len first rest : ℕ) (mid out : List ℕ)
    → ltb r.head (add_size r.head len % r.max) ≡ false
    → sub_size r.max r.head ≡ first
    → sub_size len first ≡ rest
    → copy_in r.buffer r.head bs first ≡ some mid
    → copy_in mid 0 (drop first bs) rest ≡ some out
    → write_bytes r bs len ≡ some out
unfolding write_bytes
write_far r bs len first rest mid out e f g c d = ground arith

-- Both branches of a write stay inside the two arrays, and change the next `len` places.
pub write_bytes_lem :
    {r : Ring} (bs : List ℕ) (len : ℕ)
    → IsValid r
    → 0 < len
    → len ≤ r.max
    → len ≤ length bs
    → (out : List ℕ) × (write_bytes r bs len ≡ some out)
      × (length out ≡ length r.buffer)
      × ((j : ℕ) → j < r.max → get_or out j 0 ≡ after_write r bs len j)
write_bytes_lem {r} bs len v p h k = elim (Bool-cases (ltb (r.head + len) r.max)) [
  | inl near ↦
      let e : ltb r.head (add_size r.head len % r.max) ≡ true =
        rw (add_size-mod r.head len r.max v.small v.head_in h) (ground arith) in
      let (out, c, l, at') = copy_in_lem r.buffer r.head bs len (ground arith) k in
      (out, write_near r bs len e ∙ c, l, λ j lt. ground (arith, at' j))
  | inr far ↦
      let e : ltb r.head (add_size r.head len % r.max) ≡ false =
        rw (add_size-mod r.head len r.max v.small v.head_in h) (ground arith) in
      let f : sub_size r.max r.head ≡ r.max - r.head = omega arith in
      let g : sub_size len (r.max - r.head) ≡ len - (r.max - r.head) = ground arith in
      let (mid, c, l, at1) =
        copy_in_lem r.buffer r.head bs (r.max - r.head) (omega arith) (omega arith) in
      let (out, d, m, at2) =
        copy_in_lem mid 0 (drop (r.max - r.head) bs) (len - (r.max - r.head)) (omega arith)
          (omega (arith, length-drop (r.max - r.head) bs)) in
      (
        out,
        write_far r bs len (r.max - r.head) (len - (r.max - r.head)) mid out e f g c d,
        omega arith,
        λ j lt. ground (
          arith,
          at1 j,
          at2 j,
          get_or-drop (r.max - r.head) bs j,
          get_or-drop (r.max - r.head) bs (j - 0),
        ),
      )
]
