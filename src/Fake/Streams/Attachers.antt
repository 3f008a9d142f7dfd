-- ===== src/Fake/Streams/Attachers.antt =====
-- lightr-cri-fake: what the attachers of a container are given of its output.
use lightr_cri.Prelude.{
  ℕ, suc, ◌+◌, ◌≡◌, refl, Bool, true, false, List, [], ◌∷◌, ◌++◌, Option, none, some, arith,
  if◌then◌else◌, ◌==◌, ==_iff, append-nil, append_assoc, Option-cases, inl, inr, ap, ◌∙◌,
}
use lightr_cri.Prelude.Map.{text_key, get}
use lightr_cri.Prelude.Text.{Text, codes, text_eq}
use lightr_cri.Backend.{Result, ok, err}
use lightr_cri.Fake.World.{ContainerIo, World}
use lightr_cri.Fake.Streams.{
  Session, SessionEnv, FanOut, retain_sinks, writes, broadcast, open_attach, attach_io,
  attach_pipes, attach_stdin, with_stderr,
}

-- What is known of one broadcast: which sinks can be written to, the stream and the bytes.
abbrev pub Round : Type 0
Round = (ℕ → Bool) × Text × List ℕ

unfoldable pub broadcast_all : List Round → FanOut → List (ℕ × List ℕ)
broadcast_all [] fanout = []
broadcast_all ((live, stream, bytes) ∷ rounds) fanout =
    let (next, out) = broadcast live stream bytes fanout in out ++ broadcast_all rounds next

-- The bytes that one sink was written.
abbrev pub received : ℕ → List (ℕ × List ℕ) → List ℕ
received fd [] = []
received fd ((w, bytes) ∷ out) =
    let rest = received fd out in if w == fd then bytes ++ rest else rest

-- The bytes of the container's stdout.
abbrev pub stdout_bytes : List Round → List ℕ
stdout_bytes [] = []
stdout_bytes ((live, stream, bytes) ∷ rounds) =
    let rest = stdout_bytes rounds in
    if text_eq stream (codes "stderr") then rest else bytes ++ rest

abbrev pub IsLive : ℕ → List Round → Type 0
IsLive fd [] = Unit
IsLive fd ((live, stream, bytes) ∷ rounds) = (live fd ≡ true) × IsLive fd rounds

-- How often a sink is registered.
abbrev pub times : ℕ → List ℕ → ℕ
times fd [] = 0
times fd (w ∷ sinks) = let rest = times fd sinks in if w == fd then suc rest else rest

received-append :
    (fd : ℕ) (xs ys : List (ℕ × List ℕ)) → received fd (xs ++ ys) ≡ received fd xs ++ received fd ys
received-append fd [] ys = refl
received-append fd ((w, b) ∷ xs) ys =
    ground (arith, received-append fd xs ys, append_assoc b (received fd xs) (received fd ys))

times-append : (fd : ℕ) (xs ys : List ℕ) → times fd (xs ++ ys) ≡ times fd xs + times fd ys
times-append fd [] ys = omega arith
times-append fd (w ∷ xs) ys = ground (arith, times-append fd xs ys)

times-retain_sinks :
    (fd : ℕ) (live : ℕ → Bool) (sinks : List ℕ)
    → live fd ≡ true
    → times fd (retain_sinks live sinks) ≡ times fd sinks
unfolding retain_sinks
times-retain_sinks fd live [] h = refl
times-retain_sinks fd live (w ∷ sinks) h =
    ground (arith, times-retain_sinks fd live sinks h, ==_iff w fd, ap live)

received-writes_none :
    (fd : ℕ) (live : ℕ → Bool) (bytes sinks : List ℕ)
    → times fd sinks ≡ 0
    → received fd (writes live bytes sinks) ≡ []
unfolding writes
received-writes_none fd live bytes [] h = refl
received-writes_none fd live bytes (w ∷ sinks) h =
    ground (arith, received-writes_none fd live bytes sinks)

received-writes_once :
    (fd : ℕ) (live : ℕ → Bool) (bytes sinks : List ℕ)
    → times fd sinks ≡ 1
    → live fd ≡ true
    → received fd (writes live bytes sinks) ≡ bytes
unfolding writes
received-writes_once fd live bytes [] h l = absurd (omega arith)
received-writes_once fd live bytes (w ∷ sinks) h l = ground (
  arith,
  received-writes_once fd live bytes sinks,
  received-writes_none fd live bytes sinks,
  ==_iff w fd,
  append-nil bytes,
)

broadcast_all-received :
    (fd : ℕ) (rounds : List Round) (fanout : FanOut)
    → times fd fanout.stdout_sinks ≡ 1
    → times fd fanout.stderr_sinks ≡ 0
    → IsLive fd rounds
    → received fd (broadcast_all rounds fanout) ≡ stdout_bytes rounds
unfolding broadcast_all broadcast
broadcast_all-received fd [] fanout h e l = refl
broadcast_all-received fd ((live, stream, bytes) ∷ rounds) fanout h e l =
    let outs = record fanout { stdout_sinks = retain_sinks live fanout.stdout_sinks } in
    let errs = record fanout { stderr_sinks = retain_sinks live fanout.stderr_sinks } in
    let kept = times-retain_sinks fd live fanout.stdout_sinks l.0 in
    let gone = times-retain_sinks fd live fanout.stderr_sinks l.0 in
    ground (
      arith,
      received-append fd (writes live bytes fanout.stdout_sinks) (broadcast_all rounds outs),
      received-append fd (writes live bytes fanout.stderr_sinks) (broadcast_all rounds errs),
      received-writes_once fd live bytes fanout.stdout_sinks h l.0,
      received-writes_none fd live bytes fanout.stderr_sinks e,
      broadcast_all-received fd rounds outs (kept ∙ h) e l.1,
      broadcast_all-received fd rounds errs h (gone ∙ e) l.1,
    )

attach_stdin-stdout :
    (env : SessionEnv) (id : Text) (out e stdin : Option ℕ) (s : Session)
    → attach_stdin env id out e stdin ≡ ok s
    → s.stdout ≡ out
unfolding attach_stdin
attach_stdin-stdout env id out e none s h = ground arith
attach_stdin-stdout env id out e (some fd) s h = ground arith

with_stderr-stdout :
    (env : SessionEnv) (id : Text) (entry : ContainerIo) (out : Option ℕ) (fanout after : FanOut)
    (s : Session)
    → with_stderr env id entry out fanout ≡ (ok s, after)
    → (s.stdout ≡ out) × (after.stdout_sinks ≡ fanout.stdout_sinks)
unfolding with_stderr
with_stderr-stdout env id entry out fanout after s e = elim (Option-cases entry.stderr_rd) [
  | inl p ↦ ground (arith, attach_stdin-stdout env id out none entry.stdin_wr s)
  | inr (fd, p) ↦ go fd p (env.make_pipe 1) refl
]
  where
    go :
        (fd : ℕ)
        → entry.stderr_rd ≡ some fd
        → (r : Result (ℕ × ℕ)) → env.make_pipe 1 ≡ r
        → (s.stdout ≡ out) × (after.stdout_sinks ≡ fanout.stdout_sinks)
    go fd p (ok pipe) q =
        ground (arith, e, attach_stdin-stdout env id out (some pipe.0) entry.stdin_wr s)
    go fd p (err x) q = ground (arith, e)

-- What a pipe attach leaves: the read end of its first pipe, whose write end is a new sink.
attach_pipes-stdout :
    (env : SessionEnv) (id : Text) (entry : ContainerIo) (fanout after : FanOut) (s : Session)
    (fd : ℕ) (pipe : ℕ × ℕ)
    → entry.stdout_rd ≡ some fd
    → env.make_pipe 0 ≡ ok pipe
    → attach_pipes env id entry fanout ≡ (ok s, after)
    → (s.stdout ≡ some pipe.0) × (after.stdout_sinks ≡ fanout.stdout_sinks ++ (pipe.1 ∷ []))
unfolding attach_pipes
attach_pipes-stdout env id entry fanout after s fd pipe held made e =
    let added = record fanout { stdout_sinks = fanout.stdout_sinks ++ (pipe.1 ∷ []) } in
    ground (arith, with_stderr-stdout env id entry (some pipe.0) added after s)

with_stderr-stderr :
    (env : SessionEnv) (id : Text) (entry : ContainerIo) (out : Option ℕ) (fanout after : FanOut)
    (s : Session) (k : ℕ)
    → with_stderr env id entry out fanout ≡ (ok s, after)
    → ((other : ℕ × ℕ) → env.make_pipe 1 ≡ ok other → (other.1 == k) ≡ false)
    → times k fanout.stderr_sinks ≡ 0
    → times k after.stderr_sinks ≡ 0
unfolding with_stderr
with_stderr-stderr env id entry out fanout after s k e fresh new =
    elim (Option-cases entry.stderr_rd) [
      | inl p ↦ ground (arith, e)
      | inr (fd, p) ↦ go fd p (env.make_pipe 1) refl
    ]
  where
    go :
        (fd : ℕ)
        → entry.stderr_rd ≡ some fd
        → (r : Result (ℕ × ℕ)) → env.make_pipe 1 ≡ r
        → times k after.stderr_sinks ≡ 0
    go fd p (ok pipe) q =
        ground (arith, e, fresh pipe q, times-append k fanout.stderr_sinks (pipe.1 ∷ []))
    go fd p (err x) q = ground (arith, e)

-- Its sinks of stderr do not get the write end of that pipe.
attach_pipes-stderr :
    (env : SessionEnv) (id : Text) (entry : ContainerIo) (fanout after : FanOut) (s : Session)
    (fd : ℕ) (pipe : ℕ × ℕ)
    → entry.stdout_rd ≡ some fd
    → env.make_pipe 0 ≡ ok pipe
    → attach_pipes env id entry fanout ≡ (ok s, after)
    → ((other : ℕ × ℕ) → env.make_pipe 1 ≡ ok other → (other.1 == pipe.1) ≡ false)
    → times pipe.1 fanout.stderr_sinks ≡ 0
    → times pipe.1 after.stderr_sinks ≡ 0
unfolding attach_pipes
attach_pipes-stderr env id entry fanout after s fd pipe held made e fresh new =
    let added = record fanout { stdout_sinks = fanout.stdout_sinks ++ (pipe.1 ∷ []) } in
    with_stderr-stderr env id entry (some pipe.0) added after s pipe.1
      (ground (arith, e, held, made)) fresh new

open_attach-attach_pipes :
    {J : Type 0} (env : SessionEnv) (id : Text) (w : World J) (fanout after : FanOut) (s : Session)
    (entry : ContainerIo)
    → get id w.io_table ≡ some entry
    → entry.pty_master ≡ none
    → open_attach env id w fanout ≡ (ok s, after)
    → attach_pipes env id entry fanout ≡ (ok s, after)
unfolding open_attach attach_io
open_attach-attach_pipes env id w fanout after s entry held pty e = ground arith

-- An attach that succeeds on a container with pipes is given the read end of a new pipe, and what it
-- can read there is the container's stdout from then on: each later broadcast of stdout, in order
-- and once, and nothing of stderr, as long as its sink can be written to, whichever other attachers
-- break off. The write end of the new pipe is no sink already, and the pipe of stderr has another.
pub open_attach-broadcast_all :
    {J : Type 0} (env : SessionEnv) (id : Text) (w : World J) (fanout after : FanOut) (s : Session)
    (entry : ContainerIo) (fd : ℕ) (pipe : ℕ × ℕ) (rounds : List Round)
    → get id w.io_table ≡ some entry
    → entry.pty_master ≡ none
    → entry.stdout_rd ≡ some fd
    → env.make_pipe 0 ≡ ok pipe
    → times pipe.1 fanout.stdout_sinks ≡ 0
    → times pipe.1 fanout.stderr_sinks ≡ 0
    → ((other : ℕ × ℕ) → env.make_pipe 1 ≡ ok other → (other.1 == pipe.1) ≡ false)
    → open_attach env id w fanout ≡ (ok s, after)
    → IsLive pipe.1 rounds
    → (s.stdout ≡ some pipe.0)
      × (received pipe.1 (broadcast_all rounds after) ≡ stdout_bytes rounds)
open_attach-broadcast_all env id w fanout after s entry fd pipe rounds held pty out made new0 new1
      fresh e live =
    let opened = open_attach-attach_pipes env id w fanout after s entry held pty e in
    let left = attach_pipes-stdout env id entry fanout after s fd pipe out made opened in
    let grown = times-append pipe.1 fanout.stdout_sinks (pipe.1 ∷ []) in
    let once : times pipe.1 after.stdout_sinks ≡ 1 =
      ap (times pipe.1) left.1 ∙ ground (arith, grown, ==_iff pipe.1 pipe.1) in
    let never =
      attach_pipes-stderr env id entry fanout after s fd pipe out made opened fresh new1 in
    (left.0, broadcast_all-received pipe.1 rounds after once never live)
