-- ===== src/Stream/Spdy/Begin.antt =====
-- crates/lightr-cri-stream/src/spdy/conn.rs: the state that `run_exec` begins with. A session that
-- could not be opened, by an error or a panic, leaves it without any file.
use lightr_cri.Prelude.{ℕ, Bool, true, false, [], Option, none}
use lightr_cri.Stream.Ws.{Opened, opened, open_error, open_panicked, is_some}
use lightr_cri.Stream.Spdy.Exec.{Session}

abbrev begin_with : {Z D : Type 0} → Z → D → Bool → Bool → Option ℕ → Option ℕ → Session Z D
begin_with comp decomp stdin pty out err = record {
  roles = [];
  by_role = [];
  stdin = stdin;
  pty_master = pty;
  stdout_raw = out;
  stderr_raw = err;
  output_tasks = [];
  sent = [];
  acts = [];
  comp = comp;
  decomp = decomp;
  reading = true;
  client_closed = false;
}

unfoldable pub begin_exec : {Z D W : Type 0} → Z → D → Opened W → Session Z D
begin_exec comp decomp (opened s) =
    begin_with comp decomp (is_some s.stdin) (is_some s.pty_master) s.stdout s.stderr
begin_exec comp decomp (open_error e) = begin_with comp decomp false false none none
begin_exec comp decomp open_panicked = begin_with comp decomp false false none none

-- Whether there is a waiter, without which nothing completes the session.
unfoldable pub has_waiter : {W : Type 0} → Opened W → Bool
has_waiter (opened s) = true
has_waiter (open_error e) = false
has_waiter open_panicked = false
