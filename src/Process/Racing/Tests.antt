-- ===== src/Process/Racing/Tests.antt =====
-- The two functions side by side on a small system, whose state is the suspend count.
use debug_learning.Prelude.{ℕ, ◌≡◌, refl, [], ◌∷◌}
use debug_learning.Exception.Data.{soft_signal}
use debug_learning.Exception.Message.{reply}
use debug_learning.Task
use debug_learning.Process.{reply_each}
use debug_learning.Process.Sample.{sample, hit, stopped, sample-BundleLaws}
use debug_learning.Process.Racing.{Race, calling, testing, take_turns}
use debug_learning.Process.Racing.Losing.{late, early, waiting, Dropped, Stored, resume-receive_lem}

abbrev busy : Race ℕ
busy = record {
  main = calling;
  thread = testing hit;
  proc = waiting 8 stopped.task (hit ∷ []);
  world = 1;
}

resume-receive_lem_example :
    Dropped sample 0 (take_turns sample (late (hit ∷ [])) busy)
    × Stored sample 8 stopped.task hit [] hit 0 (take_turns sample (early (hit ∷ [])) busy)
    × (◌≡◌ {A = ℕ} 0 0)
unfolding reply_each reply soft_signal Task.resume
resume-receive_lem_example =
    resume-receive_lem sample 8 stopped.task hit [] hit (λ w task. w) 1 sample-BundleLaws refl refl
      refl
