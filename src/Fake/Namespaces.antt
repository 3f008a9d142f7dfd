-- ===== src/Fake/Namespaces.antt =====
-- lightr-cri-fake on Linux: what a child does between fork and exec, `install_container_pre_exec`,
-- `join_container_netns` and `join_container_mnt_uts`. A child is the namespaces that it is in; the
-- calls that it makes are answered by a `Kernel`, the opening of a namespace's file by `open_error`.
pub mod Joined
mod Tests
use lightr_cri.Prelude.{
  ℕ, zero, suc, Bool, true, false, ◌&&◌, List, [], ◌∷◌, ◌++◌, Option, none, some, if◌then◌else◌,
}
use lightr_cri.Prelude.Text.{Text, codes, decimal}
use lightr_cri.Backend.{BackendError, failed_precondition, internal, Result, ok, err}

-- A namespace: the host's, one of the process's own, or the one behind a file.
pub data Namespace : Type 0 where
  of_host unshared : Namespace
  of_file : Text → Namespace

pub record Process : Type 0 where
  pub session_leader : Bool
  pub uts : Namespace
  pub mnt : Namespace
  pub net : Namespace
  pub hostname : Option Text
  pub resolv_conf : Option Text

-- `setns` on the open file of a path, `unshare` of the two namespaces, `sethostname`, and the bind
-- mount over /etc/resolv.conf.
pub record Kernel : Type 0 where
  pub setns : Text → Bool
  pub unshare_uts : Bool
  pub unshare_mnt : Bool
  pub sethostname : Bool
  pub bind_mount : Bool
  -- The host name in the namespace behind a file, and the /etc/resolv.conf that a bind mount of its own
  -- put there.
  pub hostname_in : Text → Option Text
  pub resolv_conf_in : Text → Option Text

-- A closure that `pre_exec` registers; `none` is its error, which fails the spawn.
abbrev pub PreExec : Type 0
PreExec = Process → Option Process

unfoldable pub run_closures : List PreExec → Process → Option Process
run_closures [] p = some p
run_closures (f ∷ fs) p = elim (f p) [ none ↦ none | some q ↦ run_closures fs q ]

-- The process behind a spawn with the closures of a command, if it comes to be.
unfoldable pub spawned : Result (List PreExec) → Process → Option Process
spawned (err e) p = none
spawned (ok fs) p = run_closures fs p

-- The closure that an exec on a tty registers last.
unfoldable pub set_sid : PreExec
set_sid p = some (record p { session_leader = true })

module _ (kernel : Kernel) where
  -- A namespace that cannot be unshared is left as it is.
  unfoldable pub set_hostname : Text → Process → Process
  set_hostname [] p = p
  set_hostname (c ∷ name) p =
      if kernel.unshare_uts
      then record p {
        uts = unshared;
        hostname = if kernel.sethostname then some (c ∷ name) else p.hostname;
      }
      else p

  unfoldable pub bind_resolv_conf : Option Text → Process → Process
  bind_resolv_conf none p = p
  bind_resolv_conf (some src) p =
      if kernel.unshare_mnt
      then record p {
        mnt = unshared;
        resolv_conf = if kernel.bind_mount then some src else p.resolv_conf;
      }
      else p

  unfoldable pub install_container_pre_exec : Text → Option Text → PreExec
  install_container_pre_exec hostname resolv p =
      some (bind_resolv_conf resolv (set_hostname hostname (record p { session_leader = true })))

  unfoldable pub setns_net : Text → PreExec
  setns_net path p = if kernel.setns path then some (record p { net = of_file path }) else none

  -- Both calls are made; an error of either fails the spawn. The process then sees the host name and
  -- the files of the namespaces that it has joined.
  unfoldable pub setns_mnt_uts : Text → Text → PreExec
  setns_mnt_uts mnt_path uts_path p =
      if kernel.setns mnt_path && kernel.setns uts_path
      then some (record p {
        mnt = of_file mnt_path;
        uts = of_file uts_path;
        hostname = kernel.hostname_in uts_path;
        resolv_conf = kernel.resolv_conf_in mnt_path;
      })
      else none

abbrev pub ns_path : ℕ → Text → Text
ns_path pid kind = codes "/proc/" ++ (decimal pid ++ (codes "/ns/" ++ kind))

abbrev pub not_live : Text → Text → BackendError
not_live id reason = failed_precondition (
    codes "container "
    ++ (id ++ (codes " is not Running (" ++ (reason ++ codes "); exec requires Running"))))

module _ (kernel : Kernel) (open_error : Text → Option Text) where
  -- `call` names the caller in the error: start_container, open_exec or exec_sync.
  unfoldable pub join_netns_of : Text → Option Text → Result (List PreExec)
  join_netns_of call none = ok []
  join_netns_of call (some path) = elim (open_error path) [
    | some e ↦ err (internal (call ++ (codes " join_netns " ++ (path ++ (codes ": " ++ e)))))
    | none ↦ ok (setns_net kernel path ∷ [])
  ]

  unfoldable pub join_container_netns : Option Text → Result (List PreExec)
  join_container_netns = join_netns_of (codes "start_container")

  unfoldable pub join_container_mnt_uts : Text → ℕ → Result (List PreExec)
  join_container_mnt_uts id zero = err (not_live id (codes "no live pid"))
  join_container_mnt_uts id (suc n) =
      let mnt_path = ns_path (suc n) (codes "mnt") in
      let uts_path = ns_path (suc n) (codes "uts") in
      elim (open_error mnt_path) [
        | some e ↦ err (not_live id (codes "mnt namespace unavailable"))
        | none ↦ elim (open_error uts_path) [
          | some e ↦ err (not_live id (codes "uts namespace unavailable"))
          | none ↦ ok (setns_mnt_uts kernel mnt_path uts_path ∷ [])
        ]
      ]

  abbrev and_closures : Result (List PreExec) → List PreExec → Result (List PreExec)
  and_closures (ok more) fs = ok (fs ++ more)
  and_closures (err e) fs = err e

  -- What a start registers: the container's own namespaces, then the sandbox's network.
  unfoldable pub start_closures : Text → Option Text → Option Text → Result (List PreExec)
  start_closures hostname resolv netns =
      and_closures (join_container_netns netns)
        (install_container_pre_exec kernel hostname resolv ∷ [])

  -- What an exec registers: the container's namespaces first, then the sandbox's network, and on a
  -- tty, which `exec_sync` has none of, the new session.
  unfoldable pub exec_closures : Text → Text → ℕ → Option Text → Bool → Result (List PreExec)
  exec_closures call id pid netns tty = elim (join_container_mnt_uts id pid) [
    | err e ↦ err e
    | ok fs ↦ elim (join_netns_of call netns) [
      | err e ↦ err e
      | ok more ↦ ok (fs ++ (more ++ (if tty then set_sid ∷ [] else [])))
    ]
  ]
