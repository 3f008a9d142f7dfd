-- ===== src/Fake/Namespaces/Tests.antt =====
-- lightr-cri-fake: the namespaces of a concrete exec.
use lightr_cri.Prelude.{◌≡◌, refl, true, false, ◌≤◌, none, some}
use lightr_cri.Prelude.Text.{codes}
use lightr_cri.Fake.Namespaces.{
  of_host, of_file, Process, Kernel, spawned, exec_closures, join_container_mnt_uts, join_netns_of,
  run_closures, setns_net, setns_mnt_uts, set_sid, ns_path,
}
use lightr_cri.Fake.Namespaces.Joined.{IsEntered, joined_to, spawned-exec_closures}

abbrev kernel : Kernel
kernel = record {
  setns = λ path. true;
  unshare_uts = true;
  unshare_mnt = true;
  sethostname = true;
  bind_mount = true;
  hostname_in = λ path. some (codes "pod");
  resolv_conf_in = λ path. some (codes "/resolv-s.conf");
}

abbrev forked : Process
forked = record {
  session_leader = false;
  uts = of_host;
  mnt = of_host;
  net = of_host;
  hostname = none;
  resolv_conf = none;
}

abbrev joined : Process
joined = record {
  session_leader = true;
  uts = of_file (ns_path 7 (codes "uts"));
  mnt = of_file (ns_path 7 (codes "mnt"));
  net = of_file (codes "/run/netns/lightr-s");
  hostname = some (codes "pod");
  resolv_conf = some (codes "/resolv-s.conf");
}

comes_to_be :
    spawned
      (exec_closures kernel
        (λ path. none)
        (codes "open_exec")
        (codes "c")
        7
        (some (codes "/run/netns/lightr-s"))
        true)
      forked
    ≡ some joined
unfolding spawned exec_closures join_container_mnt_uts join_netns_of run_closures setns_net
    setns_mnt_uts set_sid
comes_to_be = refl

spawned-exec_closures_example :
    (1 ≤ 7)
    × IsEntered kernel (λ path. none) (ns_path 7 (codes "mnt"))
    × IsEntered kernel (λ path. none) (ns_path 7 (codes "uts"))
    × IsEntered kernel (λ path. none) (codes "/run/netns/lightr-s")
    × (joined ≡ joined_to kernel (λ path. none) 7 (some (codes "/run/netns/lightr-s")) true forked)
spawned-exec_closures_example =
    spawned-exec_closures kernel (λ path. none) (codes "open_exec") (codes "c") 7
      (some (codes "/run/netns/lightr-s")) true forked joined comes_to_be
