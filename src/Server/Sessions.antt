-- ===== src/Server/Sessions.antt =====
-- crates/lightr-cri-server/src/lib.rs over the fake backend: what an exec session that the factory
-- opened gives to its process.
use lightr_cri.Prelude.{
  ◌≡◌, refl, Bool, true, false, not, ◌&&◌, List, [], ◌∷◌, Option, some, arith, if◌then◌else◌, All,
  ap, ◌∙◌, Option-cases, inl, inr,
}
use lightr_cri.Prelude.Map.{text_key, get}
use lightr_cri.Prelude.Text.{Text}
use lightr_cri.Backend.{ℤ, Result, ok, err}
use lightr_cri.Fake.World.{World}
use lightr_cri.Fake.ExecSync.{Act, started, netns_of}
use lightr_cri.Fake.Streams.{
  Waiter, Session, SessionEnv, FanOut, exec_tty, exec_piped, exec_command, open_exec,
}
use lightr_cri.Stream.Token.{exec, StreamParams}
use lightr_cri.Stream.Ws.{Event, Json, opened, is_some, run_session}
use lightr_cri.Stream.Ws.Input.{stdin_of, typed, GoesOn, run_session-stdin}
use lightr_cri.Stream.Spdy.Frame.{Frame}
use lightr_cri.Stream.Spdy.Exec.{Codec, read_loop}
use lightr_cri.Stream.Spdy.Exec.Stdin as Stdin
use lightr_cri.Stream.Spdy.Begin.{begin_exec}
use lightr_cri.Server.{open_session, fake_sessions}

-- The files of a session: a tty has its output and its master, pipes have both outputs, and stdin
-- where it was asked for.
abbrev pub HasFiles : Bool → Bool → Session → Type 0
HasFiles tty stdin s =
    (is_some s.stdout ≡ true)
    × (is_some s.stderr ≡ not tty)
    × (is_some s.pty_master ≡ tty)
    × (is_some s.stdin ≡ (not tty && stdin))

exec_tty-HasFiles :
    (env : SessionEnv) (stdin : Bool) (s : Session) → exec_tty env ≡ ok s → HasFiles true stdin s
unfolding exec_tty
exec_tty-HasFiles env stdin s e = (ground arith, ground arith, ground arith, ground arith)

exec_piped-HasFiles :
    (env : SessionEnv) (stdin : Bool) (s : Session)
    → exec_piped env stdin ≡ ok s
    → HasFiles false stdin s
unfolding exec_piped
exec_piped-HasFiles env stdin s e = (ground arith, ground arith, ground arith, ground arith)

exec_command-HasFiles :
    (env : SessionEnv) (start a : Act) (tty stdin : Bool) (netns : Option Text) (s : Session)
    → exec_command env start tty stdin netns ≡ ok (a, s)
    → HasFiles tty stdin s
unfolding exec_command
exec_command-HasFiles env start a true stdin netns s e =
    let h = exec_tty-HasFiles env stdin s in ground arith
exec_command-HasFiles env start a false stdin netns s e =
    let h = exec_piped-HasFiles env stdin s in ground arith

open_exec-HasFiles :
    {J : Type 0} (env : SessionEnv) (id : Text) (cmd : List Text) (tty stdin : Bool) (w : World J)
    (a : Act) (s : Session)
    → open_exec env id cmd tty stdin w ≡ ok (a, s)
    → HasFiles tty stdin s
unfolding open_exec
open_exec-HasFiles env id [] tty stdin w a s e = absurd (ground arith)
open_exec-HasFiles env id (program ∷ args) tty stdin w a s e =
    elim (Option-cases (get id w.containers)) [
      | inl p ↦ absurd (ground arith)
      | inr (rec, p) ↦
          let netns = netns_of (get rec.sandbox w.sandboxes) in
          let start = started program args rec.config.working_dir rec.config.envs netns in
          let h = exec_command-HasFiles env start a tty stdin netns s in ground arith
    ]

opened-HasFiles :
    {J : Type 0} (env : SessionEnv) (w : World J) (params : StreamParams) (fanout after : FanOut)
    (session : Session)
    → open_session (fake_sessions env w) exec params fanout ≡ (opened session, after)
    → HasFiles params.tty params.stdin session
unfolding open_session fake_sessions
opened-HasFiles env w params fanout after session e = elim (Option-cases params.container) [
  | inl p ↦ absurd (ground arith)
  | inr (cid, p) ↦ go cid p (open_exec env cid params.cmd params.tty params.stdin w) refl
]
  where
    go :
        (cid : Text)
        → params.container ≡ some cid
        → (r : Result (Act × Session)) → open_exec env cid params.cmd params.tty params.stdin w ≡ r
        → HasFiles params.tty params.stdin session
    go cid p (ok (a, s)) q =
        let files = open_exec-HasFiles env cid params.cmd params.tty params.stdin w a s q in
        ground (arith, e)
    go cid p (err x) q = absurd (ground (arith, e))

-- An exec session over a WebSocket, from the factory to the process: while the connection holds,
-- stdin can be written and stdout has not ended, a session without a tty that asked for stdin gives
-- its process exactly the bytes that the client sends on the stdin channel. On a tty the process is
-- given none of them, whatever the client types, since the session has no stdin and the pty master is
-- used for the size of the terminal alone.
pub open_session-run_session :
    {J : Type 0} (env : SessionEnv) (w : World J) (params : StreamParams) (fanout after : FanOut)
    (session : Session) (json : Json) (base64 : Bool) (wait : Waiter → Option ℤ)
    (events : List Event)
    → open_session (fake_sessions env w) exec params fanout ≡ (opened session, after)
    → All GoesOn events
    → stdin_of (run_session json base64 wait (opened session) events).acts
      ≡ (if not params.tty && params.stdin then typed base64 events else [])
unfolding open_session fake_sessions
open_session-run_session env w params fanout after session json base64 wait events e h =
    let files = opened-HasFiles env w params fanout after session e in
    let run = run_session-stdin json base64 wait session events files.0 h in
    run ∙ ap (λ b. if b then typed base64 events else []) files.3

-- The same over SPDY: the process of an exec on a tty, or without stdin, is never given a byte,
-- whatever frames the client sends.
open_session-read_loop :
    {J Z D : Type 0} (env : SessionEnv) (w : World J) (params : StreamParams)
    (fanout after : FanOut) (session : Session) (codec : Codec Z D) (comp : Z) (decomp : D)
    (fs : List Frame)
    → open_session (fake_sessions env w) exec params fanout ≡ (opened session, after)
    → (not params.tty && params.stdin) ≡ false
    → Stdin.stdin_of (read_loop codec false fs (begin_exec comp decomp (opened session))).acts ≡ []
unfolding begin_exec
open_session-read_loop env w params fanout after session codec comp decomp fs e h =
    let files = opened-HasFiles env w params fanout after session e in
    let begun = begin_exec comp decomp (opened session) in
    (Stdin.read_loop-IsShut codec [] false fs begun
      (record { shut_now = files.3 ∙ h; had = refl })).had
