-- ===== src/Tcp/Stream.antt =====
-- tcp_interface.c: the frames that repeated calls of `tcp_interface_recv_kiss` return, however the
-- stream of bytes is cut into the chunks that `recv` hands over.
use hermes_broadcast.Common.{
  ℕ, zero, suc, ◌+◌, ◌≤◌, ◌<◌, true, false, ◌⊎◌, List, [], ◌∷◌, ◌++◌, ◌≡◌, refl, sym, subst, ap,
  ap₂, ◌∙◌, Bool-cases, inl, inr, ltb, length, take, take_all, All, arith,
}
use hermes_broadcast.Kiss.{KissState, max_payload}
use hermes_broadcast.Kiss.Stream.{read_all}
use hermes_broadcast.Kiss.Frames.{IsIdle, read_all-nil, write_all, arrived, frames-write_all}
use hermes_broadcast.Tcp.{
  Interface, Statics, is_down, Recv, closed, would_block, error, chunk, Scan, scan, Received, frame,
  Call, after_recv, receive, tcp_interface_recv_kiss,
}
use hermes_broadcast.Tcp.Scans.{left_over, scan_frames, scan-Less, Less-le}

-- The connection stays up: `recv` hands over bytes or has none for now.
abbrev pub IsOpen : List Recv → Type 0
IsOpen [] = Unit
IsOpen (chunk bs ∷ rs) = IsOpen rs
IsOpen (would_block ∷ rs) = IsOpen rs
IsOpen (closed ∷ rs) = ⊥
IsOpen (error ∷ rs) = ⊥

-- All bytes still to come, and the work that they make.
abbrev pub stream : List Recv → List ℕ
stream [] = []
stream (chunk bs ∷ rs) = bs ++ stream rs
stream (_ ∷ rs) = stream rs

abbrev pub work : List Recv → ℕ
work [] = 0
work (chunk bs ∷ rs) = suc (length bs + work rs)
work (_ ∷ rs) = suc (work rs)

-- The frames that a caller takes in `n` calls: as many bytes of its buffer as the call returns.
abbrev pub returned : Received → List ℕ → List (List ℕ) → List (List ℕ)
returned (frame k) buf fs = take k buf ∷ fs
returned _ buf fs = fs

unfoldable pub deliver : ℕ → Interface → Statics → List ℕ → List Recv → List (List ℕ)
deliver zero i st buf rs = []
deliver (suc n) i st buf rs =
    let c = tcp_interface_recv_kiss i st buf rs in
    returned c.ret c.buffer (deliver n c.iface c.statics c.buffer c.socket)

-- What one call hands over, and what it leaves for the later ones.
record Serves (i : Interface) (st : Statics) (buf : List ℕ) (rs : List Recv) (c : Call)
    : Type 0 where
  same : c.iface ≡ i
  open_still : IsOpen c.socket
  frames :
      (read_all st.kiss buf (st.partial ++ stream rs)).frames
      ≡ returned c.ret c.buffer
          (read_all c.statics.kiss c.buffer (c.statics.partial ++ stream c.socket)).frames
  less :
      (length c.statics.partial + work c.socket < length st.partial + work rs)
      ⊎ ((c.statics.partial ≡ []) × (c.socket ≡ []) × (st.partial ≡ []) × (rs ≡ []))

-- A scan of bytes with more to come behind them, as a call reports it.
after_recv_frames :
    (i : Interface) (s : KissState) (buf bs : List ℕ) (rs : List Recv)
    → let c = after_recv i (scan s buf bs) rs in
      (read_all s buf (bs ++ stream rs)).frames
      ≡ returned c.ret c.buffer
          (read_all c.statics.kiss c.buffer (c.statics.partial ++ stream rs)).frames
unfolding left_over
after_recv_frames i s buf bs rs = elim (Bool-cases (ltb 0 (scan s buf bs).ret)) [
  | inl hit ↦ scan_frames s buf bs (stream rs) ∙ rw hit
  | inr miss ↦ scan_frames s buf bs (stream rs) ∙ rw miss
]

some_or_none :
    (p : List ℕ)
    → (0 + 0 < length p + 0)
      ⊎ (◌≡◌ {A = List ℕ} [] [] × ◌≡◌ {A = List Recv} [] [] × (p ≡ []) × ◌≡◌ {A = List Recv} [] [])
some_or_none [] = inr (refl, refl, refl, refl)
some_or_none (b ∷ p) = inl (omega arith)

receive-Serves :
    (i : Interface) (st : Statics) (s : KissState) (buf buf' : List ℕ) (rs : List Recv)
    → IsOpen rs
    → (read_all st.kiss buf (st.partial ++ stream rs)).frames ≡ (read_all s buf' (stream rs)).frames
    → Serves i st buf rs (receive i s buf' rs)
unfolding receive
receive-Serves i st s buf buf' [] o e = record {
  same = refl;
  open_still = tt;
  frames = e;
  less = some_or_none st.partial;
}
receive-Serves i st s buf buf' (would_block ∷ rs) o e = record {
  same = refl;
  open_still = o;
  frames = e;
  less = inl (omega arith);
}
receive-Serves i st s buf buf' (closed ∷ rs) o e = absurd o
receive-Serves i st s buf buf' (error ∷ rs) o e = absurd o
receive-Serves i st s buf buf' (chunk bs ∷ rs) o e = record {
  same = refl;
  open_still = o;
  frames = e ∙ after_recv_frames i s buf' bs rs;
  less = inl (omega (arith, Less-le (scan s buf' bs) (length bs) (scan-Less s buf' bs)));
}

recv_partial :
    (i : Interface) (st : Statics) (buf : List ℕ) (rs : List Recv)
    → is_down i ≡ false
    → ltb 0 (scan st.kiss buf st.partial).ret ≡ true
    → tcp_interface_recv_kiss i st buf rs ≡ after_recv i (scan st.kiss buf st.partial) rs
unfolding tcp_interface_recv_kiss
recv_partial i st buf rs up hit = rw (up, hit)

recv_more :
    (i : Interface) (st : Statics) (buf : List ℕ) (rs : List Recv)
    → is_down i ≡ false
    → ltb 0 (scan st.kiss buf st.partial).ret ≡ false
    → tcp_interface_recv_kiss i st buf rs
      ≡ receive i (scan st.kiss buf st.partial).state (scan st.kiss buf st.partial).buffer rs
unfolding tcp_interface_recv_kiss
recv_more i st buf rs up miss = rw (up, miss)

left_over_miss :
    (d : Scan) (more : List ℕ)
    → ltb 0 d.ret ≡ false
    → d.rest ≡ []
    → left_over d more ≡ (read_all d.state d.buffer more).frames
unfolding left_over
left_over_miss d more miss e = rw (miss, e)

call-Serves :
    (i : Interface) (st : Statics) (buf : List ℕ) (rs : List Recv)
    → is_down i ≡ false
    → IsOpen rs
    → Serves i st buf rs (tcp_interface_recv_kiss i st buf rs)
call-Serves i st buf rs up o = elim (Bool-cases (ltb 0 (scan st.kiss buf st.partial).ret)) [
  | inl hit ↦ subst (Serves i st buf rs) (sym (recv_partial i st buf rs up hit)) (record {
    same = refl;
    open_still = o;
    frames = after_recv_frames i st.kiss buf st.partial rs;
    less = inl (omega (arith, (scan-Less st.kiss buf st.partial).0 hit));
  })
  | inr miss ↦
      let d = scan st.kiss buf st.partial in
      subst (Serves i st buf rs) (sym (recv_more i st buf rs up miss)) (
        receive-Serves i st d.state buf d.buffer rs o (
          scan_frames st.kiss buf st.partial (stream rs)
          ∙ left_over_miss d (stream rs) miss ((scan-Less st.kiss buf st.partial).1 miss)))
]

nothing_left : (p : List ℕ) (rs : List Recv) → length p + work rs ≤ 0 → p ++ stream rs ≡ []
nothing_left [] [] h = refl
nothing_left [] (chunk bs ∷ rs) h = absurd (omega arith)
nothing_left [] (would_block ∷ rs) h = absurd (omega arith)
nothing_left [] (closed ∷ rs) h = absurd (omega arith)
nothing_left [] (error ∷ rs) h = absurd (omega arith)
nothing_left (b ∷ p) rs h = absurd (omega arith)

less_work :
    {p q : List ℕ} {rs ss : List Recv} {n : ℕ}
    → (length p + work rs < length q + work ss) ⊎ ((p ≡ []) × (rs ≡ []) × (q ≡ []) × (ss ≡ []))
    → length q + work ss ≤ suc n
    → length p + work rs ≤ n
less_work (inl l) h = omega arith
less_work (inr (p, r, _, _)) h =
    omega (arith, ap (λ (l : List ℕ). length l) p, ap (λ (l : List Recv). work l) r)

-- With as many calls as there are bytes and results of `recv` to come, and one connection that stays
-- up, the caller gets exactly the frames that the decoder makes of the whole stream: those of the
-- bytes kept from the last call and of all chunks, wherever the chunks are cut.
pub recv_all :
    (n : ℕ) (i : Interface) (st : Statics) (buf : List ℕ) (rs : List Recv)
    → is_down i ≡ false
    → IsOpen rs
    → length st.partial + work rs ≤ n
    → deliver n i st buf rs ≡ (read_all st.kiss buf (st.partial ++ stream rs)).frames
unfolding deliver
recv_all zero i st buf rs up o h = sym (
    ap (λ bs. (read_all st.kiss buf bs).frames) (nothing_left st.partial rs h)
    ∙ read_all-nil st.kiss buf)
recv_all (suc n) i st buf rs up o h =
    let c = tcp_interface_recv_kiss i st buf rs in
    let v = call-Serves i st buf rs up o in
    let ih =
      recv_all n c.iface c.statics c.buffer c.socket (rw v.same up) v.open_still
        (less_work v.less h) in
    ap (returned c.ret c.buffer) ih ∙ sym v.frames

arrived-All :
    (ps : List (List ℕ)) → All (λ p. (0 < length p) × (length p ≤ max_payload)) ps → arrived ps ≡ ps
unfolding arrived
arrived-All [] h = refl
arrived-All ([] ∷ ps) h = absurd (omega (arith, h.0.0))
arrived-All ((b ∷ bs) ∷ ps) h = ap₂ ◌∷◌ (take_all max_payload (b ∷ bs) h.0.1) (arrived-All ps h.1)

-- What the peer sends as frames of at most 756 bytes, none of them empty, reaches the caller
-- unchanged and in order, however TCP cuts it into chunks and whenever `recv` has nothing yet: if
-- no frame is open and nothing is kept from before, and the caller makes enough calls.
pub recv_sent :
    (n : ℕ) (i : Interface) (st : Statics) (buf : List ℕ) (rs : List Recv) (ps : List (List ℕ))
    → is_down i ≡ false
    → IsOpen rs
    → IsIdle st.kiss
    → st.partial ≡ []
    → max_payload ≤ length buf
    → All (λ p. (0 < length p) × (length p ≤ max_payload)) ps
    → stream rs ≡ write_all ps
    → work rs ≤ n
    → deliver n i st buf rs ≡ ps
recv_sent n i st buf rs ps up o idle e r sizes w h =
    recv_all n i st buf rs up o (rw e (omega arith))
    ∙ ap₂ (λ p q. (read_all st.kiss buf (p ++ q)).frames) e w
    ∙ frames-write_all st.kiss buf ps idle r
    ∙ arrived-All ps sizes
