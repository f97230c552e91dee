-- ===== src/Debugger/Patching.antt =====
-- What `main` of mac_ptrace/main.cpp does to the memory of the process: the code at `ADDR` that it
-- reads, changes and writes back.
pub mod Fetching
pub mod Vector
mod Tests
use debug_learning.Debugger.Patching.Fetching.{HasRead, controller_read-HasRead}
use debug_learning.Debugger.Patching.Vector.{vector, patched, get_or-patched, length-vector}
use Prim.{Unit, tt}
use debug_learning.Prelude.{
  ℕ, ◌<◌, ◌≤◌, ◌^◌, ◌≡◌, ◌≢◌, List, [], ◌∷◌, true, Option, some, none, drop, length, get_or, arith,
  ltb, ◌/=◌, sub64, Text, ap, sym, subst, ◌∙◌, Bool-cases, inl, inr, length-drop,
}
use debug_learning.Outcome.{Outcome, returned, thrown, aborted, endless}
use debug_learning.Task
use debug_learning.Vm.Memory.{MachVmMemory}
use debug_learning.Vm.Memory.Reading.{ReadLaws}
use debug_learning.Vm.Memory.Reading.All.{NoneFails}
use debug_learning.Vm.Memory.Writing.{WriteLaws}
use debug_learning.Vm.Memory.Mapped.{MappedLaws}
use debug_learning.Vm.Memory.Storing.{IsStored, write-IsStored}
use debug_learning.Process.{is_stop}
use debug_learning.Process.Access
use debug_learning.Process.Access.{after_write}
use debug_learning.Process.Method.{MachProcess, stop, proceed, pure, ◌>>◌}
use debug_learning.Logger.Output.{StreamCalls, Target, print_line, new_logger, log_debug}
use debug_learning.Debugger.{patch, addr}
use debug_learning.Debugger.Controller
use debug_learning.Debugger.Controller.{Host, debug, show_all}

-- The log does not reach the memory of the process.
pub record LogFrame {W : Type 0} (out : StreamCalls W) (mem : W → ℕ → ℕ → ℕ) : Type 0 where
  pub now_keeps : (t x : ℕ) (w : W) → mem (out.now w).1 t x ≡ mem w t x
  pub print_keeps :
      (target : Target) (text : Text) (t x : ℕ) (w : W)
      → mem (out.print target text w) t x ≡ mem w t x

-- `write_memory` of the controller returned, and the twelve bytes stand at `ADDR`.
abbrev HasStored :
    {W : Type 0} → (W → ℕ → ℕ → ℕ) → ℕ → List ℕ → (ℕ → ℕ) → Outcome Unit × MachProcess × W → Type 0
HasStored mem task bytes orig (returned u, p, w) =
    (p.status ≡ stop)
    × ((x : ℕ) → x < 2 ^ 64 → sub64 x addr < 12 → mem w task x ≡ get_or bytes (sub64 x addr) 0)
    × ((x : ℕ) → x < 2 ^ 64 → 12 ≤ sub64 x addr → mem w task x ≡ orig x)
HasStored mem task bytes orig (thrown c, p, w) = ⊥
HasStored mem task bytes orig (aborted, p, w) = ⊥
HasStored mem task bytes orig (endless, p, w) = ⊥

-- The part of `main` returned, where `n` bytes of the code were read, all where no read fails.
abbrev pub IsPatched :
    {W : Type 0} → (W → ℕ → ℕ → ℕ) → ℕ → (ℕ → ℕ) → Type 0 → Outcome Unit × MachProcess × W → Type 0
IsPatched mem task orig sure (returned u, p, w) =
    (p.status ≡ stop)
    × ((n : ℕ) × (n ≤ 12)
        × (sure → n ≡ 12)
        × ((x : ℕ) → x < 2 ^ 64 → mem w task x ≡ patched orig n x))
IsPatched mem task orig sure (thrown c, p, w) = ⊥
IsPatched mem task orig sure (aborted, p, w) = ⊥
IsPatched mem task orig sure (endless, p, w) = ⊥

module _ {W : Type 0} (host : Host W) (mem : W → ℕ → ℕ → ℕ)
    (reads : ReadLaws host.calls.vm mem) where
  stored-HasStored :
      (bytes : List ℕ) (orig : ℕ → ℕ) (p : MachProcess) (w : W) (o : Option (ℕ × MachVmMemory × W))
      → p.status ≡ stop
      → IsStored mem p.task.task addr 12 bytes orig o
      → let (out, q, w') = after_write host.calls p w (elim o [
        | none ↦ none
        | some (n, m, w') ↦ some (n, record p.task { vm_memory = m }, w')
      ]) in
        HasStored mem p.task.task bytes orig (proceed (λ n. pure tt) out q w')
  stored-HasStored bytes orig p w none stopped h = h
  stored-HasStored bytes orig p w (some (n, m, w')) stopped h = (stopped, h.1, h.2)

  controller_write-HasStored :
      (bytes : List ℕ) (p : MachProcess) (w : W)
      → MappedLaws host.calls.vm mem p.task.task addr 12
      → WriteLaws host.calls.vm mem
      → 12 ≤ length bytes
      → p.status ≡ stop
      → p.task.task ≢ 0
      → HasStored mem p.task.task bytes
          (mem w p.task.task)
          (Controller.write_memory host addr (some bytes) 12 p w)
  unfolding Controller.write_memory Access.write_memory Task.write_memory
  controller_write-HasStored bytes p w maps writes full stopped valid =
      let there : (p.task.task /= 0) ≡ true = ground arith in
      let may : is_stop p.status ≡ true = ap is_stop stopped in
      rw (may, there)
        (stored-HasStored bytes _ p w _ stopped
          (write-IsStored maps bytes p.task.vm_memory w writes (omega arith) (omega arith) full))

  log-keeps :
      (args : List Text) (x task : ℕ) (w : W)
      → LogFrame host.out mem
      → mem (print_line host.out args new_logger w) task x ≡ mem w task x
  unfolding print_line
  log-keeps args x task w frame = frame.print_keeps _ _ task x _ ∙ frame.now_keeps task x w

  written-IsPatched :
      (task n : ℕ) (bytes : List ℕ) (orig prev : ℕ → ℕ) (sure : Type 0) (o : Outcome Unit)
      (p : MachProcess) (w : W)
      → n ≤ 12
      → (sure → n ≡ 12)
      → bytes ≡ vector orig addr n 12
      → ((x : ℕ) → prev x ≡ orig x)
      → HasStored mem task (0 ∷ 0 ∷ drop 2 bytes) prev (o, p, w)
      → IsPatched mem task orig sure (o, p, w)
  written-IsPatched task n bytes orig prev sure (returned u) p w hn all got same
        (stopped, near, far) =
      (
        stopped,
        (
          n,
          hn,
          all,
          λ x hx. elim (Bool-cases (ltb (sub64 x addr) 12)) [
            | inl inside ↦
                near x hx (ground arith)
                ∙ ap (λ v. get_or (0 ∷ 0 ∷ drop 2 v) (sub64 x addr) 0) got
                ∙ get_or-patched orig n x hn hx (ground arith)
            | inr outside ↦ far x hx (ground arith) ∙ same x ∙ behind x (ground arith)
          ],
        ),
      )
    where
      behind : (x : ℕ) → 12 ≤ sub64 x addr → orig x ≡ patched orig n x
      behind x h = ground arith
  written-IsPatched task n bytes orig prev sure (thrown c) p w hn all got same h = h
  written-IsPatched task n bytes orig prev sure aborted p w hn all got same h = h
  written-IsPatched task n bytes orig prev sure endless p w hn all got same h = h

  -- The log, and then the write.
  rest-IsPatched :
      (task : ℕ) (orig : ℕ → ℕ) (sure : Type 0) (o : Outcome (List ℕ)) (p : MachProcess) (w : W)
      → MappedLaws host.calls.vm mem task addr 12
      → WriteLaws host.calls.vm mem
      → LogFrame host.out mem
      → task ≢ 0
      → HasRead mem task addr 12 orig sure (o, p, w)
      → IsPatched mem task orig sure (
          proceed
            (λ bytes. do
              debug host (show_all host bytes ∷ [])
              Controller.write_memory host addr (some (0 ∷ 0 ∷ drop 2 bytes)) 12)
            o
            p
            w)
  rest-IsPatched task orig sure (returned bytes) p w maps writes frame valid
        (n, hn, all, got, stopped, at, same) =
      let w1 = log_debug host.out (show_all host bytes ∷ []) new_logger w in
      let code = 0 ∷ 0 ∷ drop 2 bytes in
      let full : 12 ≤ length code =
        omega (arith, length-drop 2 bytes, ap length got, length-vector orig n hn) in
      let there : p.task.task ≢ 0 = λ e. valid (sym at ∙ e) in
      let here = subst (λ t. MappedLaws host.calls.vm mem t addr 12) (sym at) maps in
      written-IsPatched task n bytes orig (mem w1 task) sure _ _ _ hn all got
        (λ x. log-keeps _ x task w frame ∙ same x)
        (subst
          (λ t.
            HasStored mem t code (mem w1 t) (Controller.write_memory host addr (some code) 12 p w1))
          at (controller_write-HasStored code p w1 here writes full stopped there))
  rest-IsPatched task orig sure (thrown c) p w maps writes frame valid h = h
  rest-IsPatched task orig sure aborted p w maps writes frame valid h = h
  rest-IsPatched task orig sure endless p w maps writes frame valid h = h

  -- Over a kernel that maps the code at `ADDR` and accepts the calls for it, and a log that leaves the memory alone: where the process is stopped and has a task, the part of
  -- `main` that changes the code returns. Then the first two bytes of the twelve at `ADDR` are zero,
  -- and so are those that were not read; these are none where no read fails. All else in the memory
  -- is as it was.
  pub patch-IsPatched :
      (p : MachProcess) (w : W)
      → MappedLaws host.calls.vm mem p.task.task addr 12
      → WriteLaws host.calls.vm mem
      → LogFrame host.out mem
      → p.status ≡ stop
      → p.task.task ≢ 0
      → IsPatched mem p.task.task
          (mem w p.task.task)
          (NoneFails host.calls.vm p.task.task)
          (patch host p w)
  unfolding patch
  patch-IsPatched p w maps writes frame stopped valid =
      rest-IsPatched p.task.task _ _ _ _ _ maps writes frame valid (
        controller_read-HasRead host mem reads addr 12 p w (omega arith) (omega arith) (omega arith)
          stopped valid)
