-- ===== src/Tests/OfRuntime.antt =====
-- The theorems on the runtime, on a host whose jailer does not start, and on a process that is gone after
-- five calls.
use computer_host.Base.{◌≡◌, refl, true, false, [], some, ltb, arith, decimal}
use computer_host.Host.Exec.Post.{After}
use computer_host.Host.Exec.Fails.{Failing}
use computer_host.Firecracker.Runtime.{RuntimeEnv, RuntimeWorld}
use computer_host.Firecracker.Runtime.Boot.{Runtime, boot_machine}
use computer_host.Firecracker.Runtime.Boot.Undone.{boot_machine-IsUndone}
use computer_host.Firecracker.Runtime.Stop.{stop_process}
use computer_host.Firecracker.Runtime.Stop.Ends.{GoneFrom, Never, stop_process-IsEnding}
use computer_host.Tests.{running_state}
use computer_host.Tests.OfCreation.{small_spec}

-- Everything succeeds but the eighth call and those after it.
abbrev failing_env : RuntimeEnv
failing_env = record {
  succeeds = λ n. ltb n 7;
  happens = λ n. true;
  removes = λ n. true;
  now = λ n. n;
  answer = λ n. false;
  pid_text = λ n. some "7";
  is_alive = λ n. ltb n 5;
  preserves_failure = false;
}

abbrev bare_host : RuntimeWorld
bare_host = record { env = failing_env; clock = 0; taps = []; dirs = []; signalled = [] }

abbrev jailing : Runtime
jailing = record {
  root_dir = "/var/lib/host/runtime";
  firecracker_binary_path = "/usr/bin/firecracker";
  network_allocator = record { base_prefix = record { addr = 2886729728; bits = 16 } };
  ip_text = decimal;
  parsed_ip = λ s. some (some 2886729730);
}

boot_machine-IsUndone_example :
    Failing (λ v. (v.taps ≡ []) × (v.dirs ≡ [])) (boot_machine jailing small_spec [] bare_host)
boot_machine-IsUndone_example =
    boot_machine-IsUndone jailing small_spec [] bare_host
      (record { removes = λ n. refl; preserves_not = refl }) (λ network e. refl) (λ paths e. refl)

failing_env-GoneFrom : GoneFrom 5 failing_env
failing_env-GoneFrom n h = ground arith

stop_process-IsEnding_example : After Never (λ v. Unit) (stop_process 6 running_state bare_host)
stop_process-IsEnding_example =
    stop_process-IsEnding 5 6 running_state bare_host failing_env-GoneFrom (omega arith)
