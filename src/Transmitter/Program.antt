-- ===== src/Transmitter/Program.antt =====
-- transmitter.c: the whole program, from its options to its last write.
use hermes_broadcast.Common.{
  ℕ, ◌+◌, Bool, List, Option, none, some, length, replicate, All, ◌≡◌, ◌⊎◌, refl, sym, subst, inl,
  inr,
}
use hermes_broadcast.Nanorq.{Nanorq}
use hermes_broadcast.Nanorq.Laws.{Laws}
use hermes_broadcast.Transmitter.{OutputMode, output_shm, output_tcp, transmit}
use hermes_broadcast.Transmitter.Slices.{bytes_of}
use hermes_broadcast.Transmitter.Streams.{AreStreams, transmit-AreStreams}
use hermes_broadcast.Transmitter.Main.{
  Opt, Args, default_settings, World, Start, exits, dies, transmits, start_up, Ended, exited, died,
  transmitted, finish, main,
}
use hermes_broadcast.Transmitter.Starts.{has_tcp, IsAsked, IsReady, IsStart, start_up-IsStart}

-- The writes are those of whole frames of one size.
pub AreWhole : ℕ → Option (List (List ℕ)) → Type 0
AreWhole size none = ⊥
AreWhole size (some ws) =
    (fs : List (List ℕ)) × (bytes_of ws ≡ bytes_of fs) × All (λ f. length f ≡ size) fs

-- An end of the program on options with or without TCP, and its arguments: an exit, or a
-- transmission in frames of the size that they ask for, whole frames but for the frames of 3 bytes.
pub IsEnd : (tcp : Bool) → Args → Ended → Type 0
IsEnd tcp a (exited status) = (status ≡ 0) ⊎ (status ≡ 255)
IsEnd tcp a died = Unit
IsEnd tcp a (transmitted size writes) =
    ((mode : OutputMode) × IsAsked tcp a mode size) × ((size ≡ 3) ⊎ AreWhole size writes)

shm-AreWhole :
    (size : ℕ) (shm tcp : Option (List (List ℕ))) → AreStreams size shm tcp → AreWhole size shm
unfolding AreStreams AreWhole
shm-AreWhole size none tcp h = absurd h
shm-AreWhole size (some ws) none h = absurd h
shm-AreWhole size (some ws) (some fs) (e, p, f) = (fs, e, f)

tcp-AreWhole :
    (size : ℕ) (shm tcp : Option (List (List ℕ))) → AreStreams size shm tcp → AreWhole size tcp
unfolding AreStreams AreWhole
tcp-AreWhole size none tcp h = absurd h
tcp-AreWhole size (some ws) none h = absurd h
tcp-AreWhole size (some ws) (some fs) (e, p, f) = (fs, refl, f)

either-AreWhole :
    (mode : OutputMode) (size : ℕ) (out : OutputMode → Option (List (List ℕ)))
    → AreStreams size (out output_shm) (out output_tcp)
    → AreWhole size (out mode)
either-AreWhole output_shm size out h = shm-AreWhole size (out output_shm) (out output_tcp) h
either-AreWhole output_tcp size out h = tcp-AreWhole size (out output_shm) (out output_tcp) h

module _ (N : Nanorq) (laws : Laws N) where
  finish-IsEnd :
      (tcp : Bool) (a : Args) (turns : List (ℕ → Bool)) (s : Start N)
      → IsStart N laws (IsAsked tcp a) s
      → IsEnd tcp a (finish N turns s)
  unfolding finish IsStart IsReady IsEnd
  finish-IsEnd tcp a turns (exits status) v = v
  finish-IsEnd tcp a turns dies v = tt
  finish-IsEnd tcp a turns (transmits mode size c io) (asked, inl three) =
      ((mode, asked), inl three)
  finish-IsEnd tcp a turns (transmits mode size c io) (asked, inr (t, e, large, few, next)) =
      let n = N.blocks c in
      (
        (mode, asked),
        inr (
            subst (λ x. AreWhole x (transmit N (N.oti c) mode x io turns c (replicate n 0))) (sym e)
              (either-AreWhole mode (t + 4)
                (λ out. transmit N (N.oti c) out (t + 4) io turns c (replicate n 0))
                (transmit-AreStreams N (N.oti c) t n io turns c (replicate n 0) laws large few
                  next))),
      )

  -- With a RaptorQ library that keeps its laws, whatever the options and arguments, the file, the
  -- answers of the system and the turns that the signals leave: `main` exits with 0 or 255 before
  -- its loop; or it dies there; or the mode of the arguments is one of the modem's table, which the
  -- options with or without TCP choose, and the frames have the size that stands there for it; and
  -- then, in all modes but those of 3-byte frames, what is written is a number of whole frames of
  -- that size.
  pub main-IsEnd :
      (w : World N) (os : List Opt) (a : Args) (turns : List (ℕ → Bool))
      → IsEnd (has_tcp os) a (main N w os a turns)
  unfolding main
  main-IsEnd w os a turns =
      finish-IsEnd (has_tcp os) a turns (start_up N w default_settings os a)
        (start_up-IsStart N laws w default_settings os a)
