-- ===== src/Stream/Spdy/Exec/Loop.antt =====
-- crates/lightr-cri-stream/src/spdy/conn.rs: the read loop of `run_exec` by its rounds.
use lightr_cri.Prelude.{◌≡◌, Bool, true, false, List, [], ◌∷◌, arith, if◌then◌else◌}
use lightr_cri.Stream.Spdy.Frame.{Frame}
use lightr_cri.Stream.Spdy.Exec.{Codec, Session, loop_end, close_stdin, on_frame, read_loop}

pub loop_end-sent : {Z D : Type 0} (s : Session Z D) → (loop_end s).sent ≡ s.sent
unfolding loop_end close_stdin
loop_end-sent s = ground arith

module _ {Z D : Type 0} (codec : Codec Z D) where
  -- The session between two rounds of the loop, after these frames.
  abbrev pub rounds : Bool → List Frame → Session Z D → Session Z D
  rounds a [] s = s
  rounds a (f ∷ fs) s =
      let next = rounds a fs (on_frame codec a f s) in if s.reading then next else s

  -- What each arm of the loop keeps.
  pub rounds_keeps {ℓ} :
      (P : Session Z D → Type ℓ) (a : Bool)
      → ((f : Frame) (s : Session Z D) → P s → P (on_frame codec a f s))
      → (fs : List Frame) (s : Session Z D) → P s
      → P (rounds a fs s)
  rounds_keeps P a step [] s p = p
  rounds_keeps P a step (f ∷ fs) s p =
      go s.reading (rounds_keeps P a step fs (on_frame codec a f s) (step f s p))
    where
      go :
          (b : Bool)
          → P (rounds a fs (on_frame codec a f s))
          → P (if b then rounds a fs (on_frame codec a f s) else s)
      go true q = q
      go false q = p

  pub read_loop_on :
      (a : Bool) (f : Frame) (fs : List Frame) (s : Session Z D)
      → s.reading ≡ true
      → read_loop codec a (f ∷ fs) s ≡ read_loop codec a fs (on_frame codec a f s)
  unfolding read_loop
  read_loop_on a f fs s h = ground arith

  pub read_loop_off :
      (a : Bool) (fs : List Frame) (s : Session Z D)
      → s.reading ≡ false
      → read_loop codec a fs s ≡ s
  unfolding read_loop
  read_loop_off a [] s h = ground arith
  read_loop_off a (f ∷ fs) s h = ground arith

  -- What each arm of the loop and its end keep, the loop keeps.
  pub read_loop_keeps {ℓ} :
      (P : Session Z D → Type ℓ) (a : Bool)
      → ((f : Frame) (s : Session Z D) → P s → P (on_frame codec a f s))
      → ((s : Session Z D) → P s → P (loop_end s))
      → (fs : List Frame) (s : Session Z D) → P s
      → P (read_loop codec a fs s)
  unfolding read_loop
  read_loop_keeps P a step done [] s p = go s.reading
    where
      go : (b : Bool) → P (if b then loop_end s else s)
      go true = done s p
      go false = p
  read_loop_keeps P a step done (f ∷ fs) s p =
      go s.reading (read_loop_keeps P a step done fs (on_frame codec a f s) (step f s p))
    where
      go :
          (b : Bool)
          → P (read_loop codec a fs (on_frame codec a f s))
          → P (if b then read_loop codec a fs (on_frame codec a f s) else s)
      go true q = q
      go false q = p
