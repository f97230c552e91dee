-- ===== src/Vm/Memory.antt =====
-- The class MachVMMemory of mac_ptrace/lldb/MachVMMemory.h and MachVMMemory.cpp: the page size of
-- the task, and reading and writing the task's memory in pieces that stay inside a page.
--
-- A loop takes fuel and answers `none` when the fuel runs out; `read`, `write_region` and `write`
-- give one round more than there are bytes. A buffer is the list of its bytes, a null pointer is
-- `none`. The build is the one for arm64, where `WriteRegion` also flushes the cache.
pub mod Chunks
pub mod Reading
pub mod Writing
pub mod Faults
pub mod Framing
pub mod Ending
pub mod Keeping
pub mod Restoring
pub mod Mapped
pub mod Storing
pub mod Returning
use mathlib.Core.Option
use debug_learning.Prelude.{
  ℕ, zero, suc, ◌+◌, ◌-◌, ◌%◌, ◌^◌, Bool, false, Option, none, some, List, [], ◌++◌, length, take,
  drop, ltb, ◌==◌, ◌/=◌, if◌then◌else◌, add64, sub64, u32, u64,
}
use debug_learning.Sdk.{task_null, kern_success}
use debug_learning.DnbError.{DnbError, Flavor, make, assign, success, fail}
use debug_learning.Vm.Calls.{VmCalls}
use debug_learning.Vm.Region.{
  MachVmRegion, new_region, bytes_remaining, get_region_for_address, set_protections, clear_region,
}

-- `kInvalidPageSize`
abbrev pub invalid_page_size : ℕ
invalid_page_size = 2 ^ 64 - 1

pub record MachVmMemory : Type 0 where
  pub page_size : ℕ
  pub err : DnbError

abbrev pub new_memory : MachVmMemory
new_memory = record { page_size = invalid_page_size; err = make 0 Flavor.generic }

-- `VM_PROT_READ | VM_PROT_WRITE`
abbrev pub read_write : ℕ
read_write = 3

-- How one round of the loop of `Write` ends: the bytes that it wrote, the objects as they stand,
-- and whether the loop goes on.
pub record Round (W : Type 0) : Type 0 where
  pub more : Bool
  pub written : ℕ
  pub memory : MachVmMemory
  pub region : MachVmRegion
  pub world : W

-- a `break`
abbrev pub stop : {W : Type 0} → MachVmMemory → MachVmRegion → W → Round W
stop m r w = record { more = false; written = 0; memory = m; region = r; world = w }

-- The round after the call of `WriteRegion`; the loop goes on if anything was written.
abbrev pub wrote : {W : Type 0} → MachVmRegion → Option (ℕ × MachVmMemory × W) → Option (Round W)
wrote r none = none
wrote r (some (n, m, w)) =
    some (record { more = ltb 0 n; written = n; memory = m; region = r; world = w })

-- What the loop of `Write` leaves: the bytes that it counted, and the objects.
abbrev pub Written : Type 0 → Type 0
Written W = ℕ × MachVmMemory × MachVmRegion × W

-- The end of a round: the loop goes on, or leaves with `total`.
abbrev pub after_round :
    {W : Type 0} → (Round W → Option (Written W)) → ℕ → Option (Round W) → Option (Written W)
after_round next total none = none
after_round next total (some q) =
    let rest = next q in if q.more then rest else some (total, q.memory, q.region, q.world)

module _ {W : Type 0} (k : VmCalls W) where
  -- the call of `::host_page_size` in `PageSize`
  unfoldable pub ask_host : MachVmMemory → W → ℕ × MachVmMemory × W
  ask_host m w =
      let (kr, size, w') = k.host_page_size w in
      let n = if fail (assign kr) then 0 else u64 size in
      (n, record m { page_size = n; err = assign kr }, w')

  -- the call of `task_info` in `PageSize`, with `::host_page_size` for the failure
  unfoldable pub ask_task : ℕ → MachVmMemory → W → ℕ × MachVmMemory × W
  unfolding ask_host
  ask_task task m w =
      let (kr, size, w') = k.task_vm_page_size task w in
      if u32 kr == kern_success
      then (u64 size, record m { page_size = u64 size }, w')
      else ask_host m w'

  -- `PageSize`
  unfoldable pub page_size : ℕ → MachVmMemory → W → ℕ × MachVmMemory × W
  unfolding ask_host ask_task
  page_size task m w =
      if m.page_size == invalid_page_size
      then if task /= task_null then ask_task task m w else ask_host m w
      else (m.page_size, m, w)

  unfoldable pub max_bytes_left_in_page : ℕ → ℕ → ℕ → MachVmMemory → W → ℕ × MachVmMemory × W
  max_bytes_left_in_page task a count m w =
      let (size, m', w') = page_size task m w in
      (
        if ltb 0 size
            then (let left = size - a % size in if ltb left count then left else count)
            else count,
        m',
        w',
      )

  -- The loop of `Read`: `total` and `buf` are what has been copied so far.
  unfoldable pub read_loop :
      ℕ → ℕ → ℕ → ℕ → ℕ → List ℕ → MachVmMemory → W → Option (ℕ × List ℕ × MachVmMemory × W)
  read_loop zero task count total a buf m w = none
  read_loop (suc fuel) task count total a buf m w =
      let (curr_size, m1, w1) = max_bytes_left_in_page task a (count - total) m w in
      let (kr, bytes, w2) = k.mach_vm_read task a curr_size w1 in
      let m2 = record m1 { err = assign kr } in
      let n = length bytes in
      let rest = read_loop fuel task count (add64 total n) (add64 a n) (buf ++ bytes) m2 w2 in
      if ltb total count
      then if success m2.err then rest else some (total, buf, m2, w2)
      else some (total, buf, m, w)

  -- `Read`; the first argument says whether `data` is a null pointer.
  unfoldable pub read : Bool → ℕ → ℕ → ℕ → MachVmMemory → W → Option (ℕ × List ℕ × MachVmMemory × W)
  read is_null task a count m w =
      if is_null
      then some (0, [], m, w)
      else if count == 0
      then some (0, [], m, w)
      else read_loop (count + 1) task count 0 a [] m w

  -- The loop of `WriteRegion`: `bytes` is what is left to be written.
  unfoldable pub write_region_loop :
      ℕ → ℕ → ℕ → ℕ → ℕ → List ℕ → MachVmMemory → W → Option (ℕ × MachVmMemory × W)
  write_region_loop zero task count total a bytes m w = none
  write_region_loop (suc fuel) task count total a bytes m w =
      let (left, m1, w1) = max_bytes_left_in_page task a (count - total) m w in
      let n = u32 left in
      let (kr1, w2) = k.mach_vm_write task a (take n bytes) w1 in
      let m2 = record m1 { err = assign kr1 } in
      let (kr2, w3) = k.vm_machine_attribute task a n w2 in
      let m3 = record m2 { err = assign kr2 } in
      let rest =
        write_region_loop fuel task count (add64 total n) (add64 a n) (drop n bytes) m3 w3 in
      if ltb total count
      then if success m3.err then rest else some (total, m3, w3)
      else some (total, m, w)

  -- `WriteRegion`
  unfoldable pub write_region :
      ℕ → ℕ → Option (List ℕ) → ℕ → MachVmMemory → W → Option (ℕ × MachVmMemory × W)
  write_region task a none count m w = some (0, m, w)
  write_region task a (some bytes) count m w =
      if count == 0 then some (0, m, w) else write_region_loop (count + 1) task count 0 a bytes m w

  -- The body of the loop of `Write`, with `left` bytes still to be written.
  unfoldable pub write_round :
      ℕ → ℕ → ℕ → Option (List ℕ) → MachVmMemory → MachVmRegion → W → Option (Round W)
  write_round task a left bytes m r w =
      let (found, r1, w1) = get_region_for_address k r a w in
      let room = bytes_remaining r1 a in
      let n = if ltb room left then room else left in
      let (ready, r2, w2) = set_protections k r1 a n read_write w1 in
      if found
      then if room == 0
        then some (stop m r1 w1)
        else if ready
        then wrote r2 (write_region task a bytes n m w2)
        else some (stop m r2 w2)
      else some (stop m r1 w1)

  -- The loop of `Write`.
  unfoldable pub write_loop :
      ℕ → ℕ → ℕ → ℕ → ℕ → Option (List ℕ) → MachVmMemory → MachVmRegion → W → Option (Written W)
  write_loop zero task count total a bytes m r w = none
  write_loop (suc fuel) task count total a bytes m r w =
      let next = λ (q : Round W).
        write_loop fuel task count (add64 total q.written) (add64 a q.written)
          (Option.map (drop q.written) bytes) q.memory q.region q.world in
      if ltb total count
      then after_round next total (write_round task a (count - total) bytes m r w)
      else some (total, m, r, w)

  -- the destructor of the region object
  unfoldable pub destroy : Option (Written W) → Option (ℕ × MachVmMemory × W)
  destroy none = none
  destroy (some (total, m, r, w)) = some (total, m, (clear_region k r w).1)

  -- `Write`: the region object is made at the start, and destroyed at the end.
  unfoldable pub write :
      ℕ → ℕ → Option (List ℕ) → ℕ → MachVmMemory → W → Option (ℕ × MachVmMemory × W)
  unfolding destroy
  write task a bytes count m w =
      destroy (write_loop (count + 1) task count 0 a bytes m (new_region task) w)
