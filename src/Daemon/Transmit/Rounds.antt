-- ===== src/Daemon/Transmit/Rounds.antt =====
-- daemon.c: the order in which the transmitting thread takes the blocks and numbers their symbols.
use hermes_broadcast.Common.{
  ℕ, zero, suc, ◌+◌, ◌*◌, ◌%◌, ◌^◌, ◌≤◌, ◌<◌, List, [], ◌++◌, none, some, length, length-set,
  length-replicate, get_or, set, ◌≡◌, refl, sym, ap, ap₂, subst, ◌∙◌, arith,
}
use hermes_broadcast.Nanorq.{Nanorq, oti_common_reduced, oti_scheme_specific_align1}
use hermes_broadcast.Nanorq.Laws.{Laws}
use hermes_broadcast.Tcp.{Interface}
use hermes_broadcast.Daemon.{Context}
use hermes_broadcast.Daemon.Transmit.{
  TxSession, Scene, joint_frame, wrapped_esi, tx_send_one_frame, loaded_session, generate_blocks,
}
use hermes_broadcast.Daemon.Transmit.Counters.{
  stored, wrapped-stored, served_self, IsRound, serve, next_round, IsRound-start, position,
}

-- The symbol that a session's coder makes.
abbrev pub symbol_of : (N : Nanorq) → TxSession N → ℕ → ℕ → List ℕ
symbol_of N tx esi sbn = elim tx.rq [
  | none ↦ []
  | some c ↦ elim tx.myio [ none ↦ [] | some io ↦ (N.encode c esi sbn io).0 ]
]

module _ (N : Nanorq) (ctx : Context) (scene : Scene N) (iface : Interface) where
  -- What a call does once its symbol is made, whatever the connection does with the frame.
  send_encoded :
      (tx : TxSession N) (c : N.Coder) (io : N.Io) (sbn esi : ℕ)
      → tx.rq ≡ some c
      → tx.myio ≡ some io
      → tx.next_sbn % tx.num_sbn ≡ sbn
      → wrapped_esi (get_or tx.esi sbn 0) ≡ esi
      → (N.encode c esi (sbn % 256) io).1 ≡ ctx.symbol_size
      → let s = tx_send_one_frame N ctx scene iface tx in
        (s.frame ≡ some (joint_frame tx.config_body sbn esi (symbol_of N tx esi (sbn % 256))))
        × (s.session.rq ≡ some (N.encode c esi (sbn % 256) io).2)
        × (s.session.myio ≡ some io)
        × (s.session.num_sbn ≡ tx.num_sbn)
        × (s.session.next_sbn ≡ suc tx.next_sbn)
        × (s.session.esi ≡ set tx.esi sbn (suc esi))
        × (s.session.config_body ≡ tx.config_body)
  unfolding tx_send_one_frame
  send_encoded tx c io sbn esi hc hio hs he hw = ground arith

-- Where a session on `n` blocks with the parameters `config` stands: round `q`, the next block `r`.
pub record IsAt (N : Nanorq) (symbol_size : ℕ) (config : List ℕ) (tx : TxSession N) (n q r : ℕ)
    : Type 0 where
  pub c : N.Coder
  pub io : N.Io
  pub has_coder : tx.rq ≡ some c
  pub has_file : tx.myio ≡ some io
  pub count : tx.num_sbn ≡ n
  pub blocks : N.blocks c ≡ n
  pub symbol : (N.oti c).symbol_size ≡ symbol_size
  pub next : tx.next_sbn ≡ q * n + r
  pub size : length tx.esi ≡ n
  pub rounds : IsRound n tx.esi q r
  pub keeps : tx.config_body ≡ config

module _ (N : Nanorq) (laws : Laws N) (ctx : Context) where
  abbrev pub At : List ℕ → TxSession N → ℕ → ℕ → ℕ → Type 0
  At = IsAt N ctx.symbol_size

  -- The sessions of a run: the `k`-th call sees the `k`-th scene and connection.
  abbrev pub after : (ℕ → Scene N) → (ℕ → Interface) → TxSession N → ℕ → TxSession N
  after scenes links tx zero = tx
  after scenes links tx (suc k) =
      (tx_send_one_frame N ctx (scenes k) (links k) (after scenes links tx k)).session

  send-IsAt :
      (scene : Scene N) (iface : Interface) (config : List ℕ) (tx : TxSession N) (n q r : ℕ)
      → n ≤ 256
      → r < n
      → At config tx n q r
      → let s = tx_send_one_frame N ctx scene iface tx in
        (s.frame ≡ some (joint_frame config r (q % 65536) (symbol_of N tx (q % 65536) r)))
        × At config s.session n q (suc r)
  send-IsAt scene iface config tx n q r small h a =
      let c = a.c in
      let esi = q % 65536 in
      let byte : r % 256 ≡ r = omega arith in
      let place : tx.next_sbn % tx.num_sbn ≡ r =
        ap₂ (λ x y. x % y) a.next a.count ∙ position q n r h in
      let number : wrapped_esi (get_or tx.esi r 0) ≡ esi =
        ap wrapped_esi (a.rounds r h ∙ ap stored (served_self q r)) ∙ wrapped-stored q in
      let written : (N.encode c esi (r % 256) a.io).1 ≡ ctx.symbol_size =
        (laws.encode_written c esi (r % 256) a.io (omega (arith, a.blocks))).0 ∙ a.symbol in
      let (frame, coder, file, count, next, counters, same) =
        send_encoded N ctx scene iface tx c a.io r esi a.has_coder a.has_file place number
          written in
      (
        frame ∙ ap₂ (λ cfg s. some (joint_frame cfg r esi (symbol_of N tx esi s))) a.keeps byte,
        record {
          c = (N.encode c esi (r % 256) a.io).2;
          io = a.io;
          has_coder = coder;
          has_file = file;
          count = count ∙ a.count;
          blocks = laws.blocks-encode c esi (r % 256) a.io ∙ a.blocks;
          symbol = ap (λ o. o.symbol_size) (laws.oti-encode c esi (r % 256) a.io) ∙ a.symbol;
          next = next ∙ omega (arith, a.next);
          size = ap length counters ∙ length-set tx.esi r (suc esi) ∙ a.size;
          rounds =
              subst (λ e. IsRound n e q (suc r)) (sym counters)
                (serve n tx.esi q r a.size h a.rounds);
          keeps = same ∙ a.keeps;
        },
      )

  next_round-IsAt :
      (config : List ℕ) (tx : TxSession N) (n q : ℕ) → At config tx n q n → At config tx n (suc q) 0
  next_round-IsAt config tx n q a = record {
    c = a.c;
    io = a.io;
    has_coder = a.has_coder;
    has_file = a.has_file;
    count = a.count;
    blocks = a.blocks;
    symbol = a.symbol;
    next = a.next ∙ omega arith;
    size = a.size;
    rounds = next_round n tx.esi q a.rounds;
    keeps = a.keeps;
  }

  pub run-IsAt :
      (scenes : ℕ → Scene N) (links : ℕ → Interface) (config : List ℕ) (tx : TxSession N)
      (n q r : ℕ)
      → n ≤ 256
      → 0 < n
      → r ≤ n
      → At config tx n 0 0
      → At config (after scenes links tx (q * n + r)) n q r
  run-IsAt scenes links config tx n zero zero small p h a =
      let e : 0 ≡ 0 * n + 0 = omega arith in
      subst (λ k. At config (after scenes links tx k) n 0 0) e a
  run-IsAt scenes links config tx n (suc q) zero small p h a =
      let e : q * n + n ≡ suc q * n + 0 = omega arith in
      subst (λ k. At config (after scenes links tx k) n (suc q) 0) e
        (next_round-IsAt config (after scenes links tx (q * n + n)) n q
          (run-IsAt scenes links config tx n q n small p (omega arith) a))
  run-IsAt scenes links config tx n q (suc r) small p h a =
      let e : suc (q * n + r) ≡ q * n + suc r = omega arith in
      let k = q * n + r in
      subst (λ k. At config (after scenes links tx k) n q (suc r)) e
        ((send-IsAt (scenes k) (links k) config (after scenes links tx k) n q r small (omega arith)
          (run-IsAt scenes links config tx n q r small p (omega arith) a)).1)

  generate_lem :
      (io : N.Io) (k b : ℕ) (c : N.Coder)
      → (N.blocks (generate_blocks N io k b c) ≡ N.blocks c)
        × (N.oti (generate_blocks N io k b c) ≡ N.oti c)
  unfolding generate_blocks
  generate_lem io zero b c = (refl, refl)
  generate_lem io (suc k) b c =
      let (blocks, oti) = generate_lem io k (suc b) (N.generate_symbols c b io) in
      (blocks ∙ laws.blocks-generate c b io, oti ∙ laws.oti-generate c b io)

  abbrev pub config_body_of : N.Coder → List ℕ
  config_body_of c = oti_common_reduced (N.oti c) ++ oti_scheme_specific_align1 (N.oti c)

  pub loaded-IsAt :
      (path : List ℕ) (mtime : ℕ) (io : N.Io) (c : N.Coder)
      → (N.oti c).symbol_size ≡ ctx.symbol_size
      → At (config_body_of c) (loaded_session N path mtime io c) (N.blocks c) 0 0
  unfolding loaded_session
  loaded-IsAt path mtime io c e =
      let (blocks, oti) = generate_lem io (N.blocks c) 0 c in
      record {
        c = generate_blocks N io (N.blocks c) 0 c;
        io = io;
        has_coder = refl;
        has_file = refl;
        count = refl;
        blocks = blocks;
        symbol = ap (λ o. o.symbol_size) oti ∙ e;
        next = omega arith;
        size = length-replicate (N.blocks c) 0;
        rounds = IsRound-start (N.blocks c);
        keeps = ap (λ o. oti_common_reduced o ++ oti_scheme_specific_align1 o) oti;
      }

  -- With a RaptorQ library that keeps its laws, the calls on a session that was just opened on a
  -- coder of `n` blocks, from 1 to 256, whose symbols have the length of the context, as long as an
  -- `int` can count the calls: call number `q * n + r` makes the frame of block `r` with the symbol
  -- numbered `q % 65536` and the coder's parameters. The blocks take turns, each counts its symbols
  -- from 0 to 65535 and starts again, and what the modem accepts changes nothing of this.
  pub send_order :
      (scenes : ℕ → Scene N) (links : ℕ → Interface) (path : List ℕ) (mtime : ℕ) (io : N.Io)
      (c : N.Coder) (q r : ℕ)
      → (N.oti c).symbol_size ≡ ctx.symbol_size
      → N.blocks c ≤ 256
      → r < N.blocks c
      → q * N.blocks c + r < 2 ^ 31
      → let k = q * N.blocks c + r in
        let tx = after scenes links (loaded_session N path mtime io c) k in
        (tx_send_one_frame N ctx (scenes k) (links k) tx).frame
        ≡ some (joint_frame (config_body_of c) r (q % 65536) (symbol_of N tx (q % 65536) r))
  send_order scenes links path mtime io c q r e small h fits =
      let n = N.blocks c in
      let k = q * n + r in
      let tx = after scenes links (loaded_session N path mtime io c) k in
      (send-IsAt (scenes k) (links k) (config_body_of c) tx n q r small h (
        run-IsAt scenes links (config_body_of c) (loaded_session N path mtime io c) n q r small
          (omega arith) (omega arith) (loaded-IsAt path mtime io c e))).0
