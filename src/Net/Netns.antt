-- ===== src/Net/Netns.antt =====
-- crates/lightr-cri-net/src/netns.rs on Linux: pinned network namespaces. The calls that it makes on
-- the host are listed in their order, and what they come to is a `Host`.
use lightr_cri.Prelude.{
  ℕ, suc, Bool, true, false, List, [], ◌∷◌, ◌++◌, Option, none, some, if◌then◌else◌,
}
use lightr_cri.Prelude.Text.{Text, codes}

-- `io::Result`, its error by its text.
pub data Io (A : Type 0) : Type 0 where
  done : A → Io A
  failed : Text → Io A

-- `umount2` with MNT_DETACH: it has detached, nothing was mounted (EINVAL), or another error.
pub data Umount : Type 0 where
  detached not_mounted : Umount
  umount_error : Text → Umount

pub record Host : Type 0 where
  pub create_dir_error : Option Text
  pub touch_error : Text → Option Text
  pub thread_panicked : Bool
  pub unshare_error : Option Text
  pub mount_error : Text → Option Text
  pub umount : Text → Umount
  pub remove_error : Text → Option Text
  pub open_error : Text → Option Text
  pub setns_error : Text → Option Text
  pub connect_error : Text → ℕ → Option Text

-- The calls that succeeded and change the host.
pub data Call : Type 0 where
  touched pinned umounted removed : Text → Call

abbrev pub netns_dir : Text
netns_dir = codes "/run/netns"

abbrev pub join : Text → Text → Text
join dir name = dir ++ (codes "/" ++ name)

module _ (host : Host) where
  -- `create_on_thread`; bringing up the loopback interface may fail unseen.
  unfoldable pub create_on_thread : Text → Io (Unit {0}) × List Call
  create_on_thread path = elim host.unshare_error [
    | some e ↦ (failed e, [])
    | none ↦ elim (host.mount_error path) [
      | some e ↦ (failed (codes "bind-mount netns: " ++ e), [])
      | none ↦ (done tt, pinned path ∷ [])
    ]
  ]

  abbrev created : Text → Io (Unit {0}) × List Call → Io Text × List Call
  created path (done _, calls) = (done path, touched path ∷ calls)
  created path (failed e, calls) = (failed e, touched path ∷ calls)

  unfoldable pub create : Text → Io Text × List Call
  create name =
      let path = join netns_dir name in
      elim host.create_dir_error [
        | some e ↦ (failed e, [])
        | none ↦ elim (host.touch_error path) [
          | some e ↦ (failed e, [])
          | none ↦
              if host.thread_panicked
              then (failed (codes "netns create thread panicked"), touched path ∷ [])
              else created path (create_on_thread path)
        ]
      ]

  abbrev remove_file : Text → Io (Unit {0}) × List Call
  remove_file path = elim (host.remove_error path) [
    | some e ↦ (failed e, [])
    | none ↦ (done tt, removed path ∷ [])
  ]

  abbrev behind : {A : Type 0} → List Call → Io A × List Call → Io A × List Call
  behind calls (r, more) = (r, calls ++ more)

  unfoldable pub teardown : Text → Io (Unit {0}) × List Call
  teardown path = elim (host.umount path) [
    | detached ↦ behind (umounted path ∷ []) (remove_file path)
    | not_mounted ↦ (failed (codes "umount2: EINVAL: Invalid argument"), [])
    | umount_error e ↦ (failed (codes "umount2: " ++ e), [])
  ]

  abbrev swept : Io (Unit {0}) × List Call → Io Bool × List Call
  swept (done _, calls) = (done true, calls)
  swept (failed e, calls) = (failed e, calls)

  unfoldable pub sweep_one : Text → Io Bool × List Call
  sweep_one path = elim (host.umount path) [
    | detached ↦ swept (behind (umounted path ∷ []) (remove_file path))
    | not_mounted ↦ swept (remove_file path)
    | umount_error e ↦ (done false, [])
  ]

  abbrev count_removed : Io Bool → ℕ → ℕ
  count_removed (done true) n = suc n
  count_removed (done false) n = n
  count_removed (failed e) n = n

  -- The loop of `sweep` over the entries of the directory: an entry that cannot be read is `none`,
  -- and with a path stands whether it is a file. The number that was removed, and the calls.
  unfoldable pub sweep_loop : List (Option (Text × Bool)) → ℕ × List Call
  sweep_loop [] = (0, [])
  sweep_loop (none ∷ entries) = sweep_loop entries
  sweep_loop (some (path, is_file) ∷ entries) =
      let rest = sweep_loop entries in
      if is_file
      then (count_removed (sweep_one path).0 rest.0, (sweep_one path).1 ++ rest.1)
      else rest

  -- `join_netns` opens the pinned file.
  unfoldable pub join_netns : Text → Io (Unit {0})
  join_netns path = elim (host.open_error path) [ some e ↦ failed e | none ↦ done tt ]

  unfoldable pub enter_netns : Text → Io (Unit {0})
  enter_netns path = elim (join_netns path) [
    | failed e ↦ failed e
    | done _ ↦ elim (host.setns_error path) [ some e ↦ failed e | none ↦ done tt ]
  ]

  -- On a thread of its own; `panicked` is whether that thread did.
  unfoldable pub dial_in_netns : Bool → Text → Text → ℕ → Io (Unit {0})
  dial_in_netns true path address port = failed (codes "dial_in_netns thread panicked")
  dial_in_netns false path address port = elim (enter_netns path) [
    | failed e ↦ failed e
    | done _ ↦ elim (host.connect_error address port) [ some e ↦ failed e | none ↦ done tt ]
  ]
