-- ===== src/Exception/Ports.antt =====
-- `MachException::PortInfo` of mac_ptrace/lldb/MachException.h and MachException.cpp: the exception
-- ports of a task, saved before the debugger sets its own and put back when it leaves.
--
-- The four arrays `masks`, `ports`, `behaviors` and `flavors` are one function from an index to
-- an entry. `EXC_MASK_ALL` depends on the headers that the program is built with, and is a parameter.
pub mod Saving
pub mod Returning
pub mod Sample
mod Tests
use debug_learning.Prelude.{ℕ, zero, suc, ◌+◌, ◌-◌, ◌&&◌, ◌==◌, ◌/=◌, ltb, if◌then◌else◌}
use debug_learning.Sdk.{kern_invalid_argument, prev_exc_mask_all}
use debug_learning.DnbError.{DnbError, assign, clear, success, fail}

-- Item `i` of the four arrays.
pub record Entry : Type 0 where
  pub mask : ℕ
  pub port : ℕ
  pub behavior : ℕ
  pub flavor : ℕ

pub record PortInfo : Type 0 where
  pub mask : ℕ
  pub entries : ℕ → Entry
  pub count : ℕ

-- `EXC_TYPES_COUNT`, the size of the arrays
abbrev pub exc_types_count : ℕ
exc_types_count = 14

pub record PortCalls (W : Type 0) : Type 0 where
  -- `task_get_exception_ports(task, mask, masks, &count, ports, behaviors, flavors)`: the result,
  -- the count and the arrays that come back
  pub task_get_exception_ports : ℕ → ℕ → ℕ → (ℕ → Entry) → W → ℕ × ℕ × (ℕ → Entry) × W
  -- `task_set_exception_ports(task, mask, port, behavior, flavor)`
  pub task_set_exception_ports : ℕ → Entry → W → ℕ × W

module _ {W : Type 0} (k : PortCalls W) where
  -- one call of `task_get_exception_ports` for `mask`, into the object
  abbrev pub ask : ℕ → ℕ → PortInfo → W → DnbError × PortInfo × W
  ask task mask p w =
      let (kr, count, entries, w') =
        k.task_get_exception_ports task mask exc_types_count p.entries w in
      (assign kr, record { mask = mask; entries = entries; count = count }, w')

  -- `Save`
  unfoldable pub save : ℕ → ℕ → PortInfo → W → ℕ × PortInfo × W
  save exc_mask_all task p w =
      let first = ask task exc_mask_all p w in
      let (e, q, w') =
        if first.0.err == kern_invalid_argument && exc_mask_all /= prev_exc_mask_all
        then ask task prev_exc_mask_all first.1 first.2
        else first in
      (e.err, if fail e then record q { mask = 0; count = 0 } else q, w')

  -- The loop of `Restore`, with `n` rounds left from `i` on, and the error of the last call.
  unfoldable pub restore_loop : ℕ → ℕ → ℕ → PortInfo → DnbError → W → DnbError × W
  restore_loop zero i task p e w = (e, w)
  restore_loop (suc n) i task p e w =
      let (kr, w') = k.task_set_exception_ports task (p.entries i) w in
      let rest = restore_loop n (i + 1) task p (assign kr) w' in
      if fail (assign kr) then (assign kr, w') else rest

  -- `Restore`
  unfoldable pub restore : ℕ → PortInfo → W → ℕ × PortInfo × W
  unfolding restore_loop
  restore task p w =
      let (e, w') = if ltb 0 p.count then restore_loop p.count 0 task p clear w else (clear, w) in
      (e.err, record p { count = 0 }, w')
