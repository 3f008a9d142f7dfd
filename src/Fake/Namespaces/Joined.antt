-- ===== src/Fake/Namespaces/Joined.antt =====
-- lightr-cri-fake: the namespaces that a process runs in once it was spawned.
use lightr_cri.Prelude.{
  ℕ, zero, suc, ◌≡◌, refl, Bool, true, false, if◌then◌else◌, [], ◌∷◌, Option, none, some, arith,
  ◌≤◌, ◌⊎◌, inl,
}
use lightr_cri.Prelude.Text.{Text, codes}
use lightr_cri.Fake.Namespaces.{
  Namespace, unshared, of_file, Process, Kernel, run_closures, spawned, setns_net, setns_mnt_uts,
  ns_path, join_netns_of, join_container_mnt_uts, exec_closures, set_sid,
  install_container_pre_exec, start_closures, join_container_netns, set_hostname, bind_resolv_conf,
}

-- The network namespace of a sandbox, or else that of the process that spawns.
abbrev pub net_in : Option Text → Process → Namespace
net_in none p = p.net
net_in (some path) p = of_file path

module _ (kernel : Kernel) (open_error : Text → Option Text) where
  -- The file of a namespace could be opened and joined.
  abbrev pub IsEntered : Text → Type 0
  IsEntered path = (open_error path ≡ none) × (kernel.setns path ≡ true)

  abbrev pub IsEnteredIf : Option Text → Type 0
  IsEnteredIf none = Unit {0}
  IsEnteredIf (some path) = IsEntered path

  -- What the closures of an exec make of a process.
  abbrev pub joined_to : ℕ → Option Text → Bool → Process → Process
  joined_to pid netns tty p = record {
    session_leader = if tty then true else p.session_leader;
    uts = of_file (ns_path pid (codes "uts"));
    mnt = of_file (ns_path pid (codes "mnt"));
    net = net_in netns p;
    hostname = kernel.hostname_in (ns_path pid (codes "uts"));
    resolv_conf = kernel.resolv_conf_in (ns_path pid (codes "mnt"));
  }

  exec_joined :
      (call id : Text) (n : ℕ) (netns : Option Text) (tty : Bool) (p q : Process)
      → spawned (exec_closures kernel open_error call id (suc n) netns tty) p ≡ some q
      → q ≡ joined_to (suc n) netns tty p
  unfolding spawned exec_closures join_container_mnt_uts join_netns_of run_closures setns_net
      setns_mnt_uts set_sid
  exec_joined call id n none true p q h = ground (arith, h)
  exec_joined call id n none false p q h = ground (arith, h)
  exec_joined call id n (some path) true p q h = ground (arith, h)
  exec_joined call id n (some path) false p q h = ground (arith, h)

  exec-IsEntered :
      (call id : Text) (n : ℕ) (netns : Option Text) (tty : Bool) (p q : Process)
      → spawned (exec_closures kernel open_error call id (suc n) netns tty) p ≡ some q
      → IsEntered (ns_path (suc n) (codes "mnt"))
        × IsEntered (ns_path (suc n) (codes "uts"))
        × IsEnteredIf netns
  unfolding spawned exec_closures join_container_mnt_uts join_netns_of run_closures setns_net
      setns_mnt_uts set_sid
  exec-IsEntered call id n none tty p q h =
      ((ground (arith, h), ground (arith, h)), (ground (arith, h), ground (arith, h)), tt)
  exec-IsEntered call id n (some path) tty p q h = (
    (ground (arith, h), ground (arith, h)),
    (ground (arith, h), ground (arith, h)),
    (ground (arith, h), ground (arith, h)),
  )

  no_live_pid :
      (call id : Text) (netns : Option Text) (tty : Bool) (p q : Process)
      → ¬ (spawned (exec_closures kernel open_error call id zero netns tty) p ≡ some q)
  unfolding spawned exec_closures join_container_mnt_uts
  no_live_pid call id netns tty p q h = cc

  own_namespaces :
      (hostname : Text) (resolv : Option Text) (p : Process)
      → let q =
          bind_resolv_conf kernel resolv
            (set_hostname kernel hostname (record p { session_leader = true })) in
        (q.net ≡ p.net)
        × (q.session_leader ≡ true)
        × ((q.uts ≡ p.uts) ⊎ (q.uts ≡ unshared))
        × ((q.mnt ≡ p.mnt) ⊎ (q.mnt ≡ unshared))
  unfolding bind_resolv_conf set_hostname
  own_namespaces [] none p = (refl, refl, inl refl, inl refl)
  own_namespaces [] (some src) p = (ground arith, ground arith, ground arith, ground arith)
  own_namespaces (c ∷ name) none p = (ground arith, ground arith, ground arith, ground arith)
  own_namespaces (c ∷ name) (some src) p = (ground arith, ground arith, ground arith, ground arith)

  -- An exec joins its container or fails: where a process comes to be with the closures of an exec,
  -- the container has a pid, the files of its mount and of its host name namespace and that of the
  -- network of its sandbox, if it has one, could all be opened and joined, and the process is in these
  -- namespaces, with the host name and the resolv.conf that they have, keeps the network that it was
  -- forked in where the sandbox has none of its own, and on a tty leads a session of its own.
  pub spawned-exec_closures :
      (call id : Text) (pid : ℕ) (netns : Option Text) (tty : Bool) (p q : Process)
      → spawned (exec_closures kernel open_error call id pid netns tty) p ≡ some q
      → (1 ≤ pid)
        × IsEntered (ns_path pid (codes "mnt"))
        × IsEntered (ns_path pid (codes "uts"))
        × IsEnteredIf netns
        × (q ≡ joined_to pid netns tty p)
  spawned-exec_closures call id zero netns tty p q h = absurd (no_live_pid call id netns tty p q h)
  spawned-exec_closures call id (suc n) netns tty p q h =
      let (mnt, uts, net) = exec-IsEntered call id n netns tty p q h in
      (omega arith, mnt, uts, net, exec_joined call id n netns tty p q h)

  -- A container's process is in the sandbox's network as well, or does not come to be; its own
  -- namespaces are there as far as the kernel lets it have them.
  spawned-start_closures :
      (hostname : Text) (resolv netns : Option Text) (p q : Process)
      → spawned (start_closures kernel open_error hostname resolv netns) p ≡ some q
      → (q.net ≡ net_in netns p)
        × (q.session_leader ≡ true)
        × ((q.uts ≡ p.uts) ⊎ (q.uts ≡ unshared))
        × ((q.mnt ≡ p.mnt) ⊎ (q.mnt ≡ unshared))
  unfolding spawned start_closures join_container_netns join_netns_of run_closures setns_net
      install_container_pre_exec
  spawned-start_closures hostname resolv none p q h =
      let kept = own_namespaces hostname resolv p in
      (ground (arith, h), ground (arith, h), ground (arith, h), ground (arith, h))
  spawned-start_closures hostname resolv (some path) p q h =
      let kept = own_namespaces hostname resolv p in
      (ground (arith, h), ground (arith, h), ground (arith, h), ground (arith, h))
