-- ===== src/Fake/Streams/Tests.antt =====
-- lightr-cri-fake: an attach to a concrete container.
use lightr_cri.Prelude.{◌≡◌, refl, true, [], ◌∷◌, List, none, some, ◌==◌, if◌then◌else◌, arith}
use lightr_cri.Prelude.Map.{text_key, get}
use lightr_cri.Prelude.Text.{codes, text_eq}
use lightr_cri.Backend.{ok}
use lightr_cri.Fake.World.{ContainerIo, World, child}
use lightr_cri.Fake.Tests.{world, live, Json}
use lightr_cri.Fake.Streams.{
  attach_waiter, SessionEnv, Session, FanOut, open_attach, attach_io, attach_pipes, with_stderr,
  attach_stdin, broadcast, retain_sinks, writes,
}
use lightr_cri.Fake.Streams.Attachers.{
  Round, broadcast_all, received, stdout_bytes, open_attach-broadcast_all,
}

abbrev env : SessionEnv
env = record {
  mnt_uts_error = none;
  join_netns = λ path. none;
  openpty = ok (10, 11);
  dup_file = λ n fd. ok 12;
  make_pipe = λ n. if n == 0 then ok (13, 14) else ok (15, 16);
  spawn = child 43;
  child_stdin = 20;
  child_stdout = 21;
  child_stderr = 22;
}

abbrev entry : ContainerIo
entry = record {
  pty_master = none;
  stdout_rd = some 3;
  stderr_rd = some 4;
  stdin_wr = some 5;
  fanout = true;
}

abbrev attachable : World Json
attachable = record (world live) { io_table = (codes "c", entry) ∷ [] }

abbrev before : FanOut
before = record { stdout_sinks = 8 ∷ []; stderr_sinks = [] }

abbrev after : FanOut
after = record { stdout_sinks = 8 ∷ 14 ∷ []; stderr_sinks = 16 ∷ [] }

abbrev session : Session
session = record {
  stdin = some 12;
  stdout = some 13;
  stderr = some 15;
  pty_master = none;
  waiter = attach_waiter (codes "c");
}

-- The older attacher breaks off at once.
abbrev rounds : List Round
rounds =
    (λ fd. fd == 14, codes "stdout", codes "one ")
    ∷ (λ fd. true, codes "stderr", codes "error")
    ∷ (λ fd. true, codes "stdout", codes "two")
    ∷ []

attached : open_attach env (codes "c") attachable before ≡ (ok session, after)
unfolding open_attach attach_io attach_pipes with_stderr attach_stdin get text_eq
attached = refl

received_test : received 14 (broadcast_all rounds after) ≡ codes "one two"
unfolding broadcast_all broadcast retain_sinks writes text_eq
received_test = refl

held : get (codes "c") attachable.io_table ≡ some entry
unfolding get text_eq
held = refl

open_attach-broadcast_all_example :
    (session.stdout ≡ some 13) × (received 14 (broadcast_all rounds after) ≡ stdout_bytes rounds)
open_attach-broadcast_all_example =
    open_attach-broadcast_all env (codes "c") attachable before after session entry 3 (13, 14)
      rounds held refl refl refl refl refl (λ other e. ground (arith, e)) attached
      (refl, (refl, (refl, tt)))
