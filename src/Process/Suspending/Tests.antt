-- ===== src/Process/Suspending/Tests.antt =====
-- The theorems on the suspend count at a small system.
use debug_learning.Prelude.{◌≡◌, refl, false, [], ◌∷◌}
use debug_learning.Process
use debug_learning.Process.{attach, deliver}
use debug_learning.Process.Method.{MachProcess, ◌>>◌}
use debug_learning.Process.Following.{resume_it, stop_it, receive, step, read_at, run_all}
use debug_learning.Process.Monitor.Ensuring.{Ensures}
use debug_learning.Process.Sample.{sample, hit, stopped, sample-BundleLaws, sample-VmFrame}
use debug_learning.Process.Suspending.{QuietLaws, Suspended, run_all-Suspended}
use debug_learning.Process.Suspending.Detaching.{attach-detach}

sample-QuietLaws : QuietLaws sample (λ w task. w)
sample-QuietLaws = record {
  bundle = sample-BundleLaws;
  suspends = λ task w. refl;
  kill_keeps = λ pid n x w. refl;
  registers_keep = λ thread x w. refl;
  vm_keeps = sample-VmFrame;
}

run_all-Suspended_example : Ensures (Suspended (λ w task. w)) (
    run_all sample
      (receive hit ∷ read_at false 0 4 ∷ step (hit ∷ []) ∷ resume_it ∷ receive hit ∷ stop_it ∷ [])
      stopped
      0)
run_all-Suspended_example =
    run_all-Suspended sample (λ w task. w) sample-QuietLaws
      (receive hit ∷ read_at false 0 4 ∷ step (hit ∷ []) ∷ resume_it ∷ receive hit ∷ stop_it ∷ [])
      stopped 0 refl refl

abbrev waiting : MachProcess
waiting = record stopped { exception_messages = hit ∷ [] }

attach-detach_example :
    Ensures
      (λ p1 w1.
        (p1.exception_messages ≡ hit ∷ [])
        × Ensures
            (λ p2 w2. (p2.exception_messages ≡ hit ∷ hit ∷ []) × (w2 ≡ w1))
            (deliver sample hit p1 w1))
      ((do Process.detach sample; attach sample 8 []) waiting 1)
attach-detach_example = attach-detach sample (λ w task. w) 8 [] hit waiting 1 sample-BundleLaws refl
