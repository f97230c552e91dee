-- ===== src/Vm/Memory/Writing.antt =====
-- WriteRegion of MachVMMemory.cpp, over a kernel whose `mach_vm_write` stores the bytes or fails
-- and touches no byte outside the range that it was given.
use debug_learning.Prelude.{
  ℕ, zero, suc, ◌+◌, ◌-◌, ◌<◌, ◌≤◌, ◌^◌, ◌≡◌, refl, true, some, none, Option, List, length, take,
  drop, ltb, arith, u32, add64, sub64, Bool-cases, inl, inr, ap, sym, ◌∙◌, ne→==_false, get_or,
  drop-drop, get_or-take, get_or-drop, length-take, length-drop,
}
use debug_learning.DnbError.{success, fail, assign}
use debug_learning.Vm.Calls.{VmCalls}
use debug_learning.Vm.Memory.{MachVmMemory, max_bytes_left_in_page, write_region_loop, write_region}
use debug_learning.Vm.Memory.Chunks.{max_bytes_left_in_page_lem, max_bytes_left_in_page-same}

-- `mem w t` is the memory of task `t`; `sub64 x a` is how far `x` lies behind `a`.
pub record WriteLaws {W : Type 0} (k : VmCalls W) (mem : W → ℕ → ℕ → ℕ) : Type 0 where
  pub writes :
      (t a x : ℕ) (bytes : List ℕ) (w : W)
      → u32 (k.mach_vm_write t a bytes w).0 ≡ 0
      → x < 2 ^ 64
      → sub64 x a < length bytes
      → mem (k.mach_vm_write t a bytes w).1 t x ≡ get_or bytes (sub64 x a) 0
  pub spares :
      (t a x : ℕ) (bytes : List ℕ) (w : W)
      → x < 2 ^ 64
      → length bytes ≤ sub64 x a
      → mem (k.mach_vm_write t a bytes w).1 t x ≡ mem w t x
  pub flush_keeps : (t a n x : ℕ) (w : W) → mem (k.vm_machine_attribute t a n w).1 t x ≡ mem w t x
  pub host_keeps : (t x : ℕ) (w : W) → mem (k.host_page_size w).2 t x ≡ mem w t x
  pub task_keeps : (t x : ℕ) (w : W) → mem (k.task_vm_page_size t w).2 t x ≡ mem w t x

-- The kernel accepts what is written to the task.
abbrev pub Accepts : {W : Type 0} → VmCalls W → ℕ → Type 0
Accepts {W} k task = (a : ℕ) (bytes : List ℕ) (w : W) → u32 (k.mach_vm_write task a bytes w).0 ≡ 0

-- The outcome of writing `count` bytes of `data` at `a`: a number of bytes, that many of which
-- stand in memory; fewer than asked for only with an error in the object; behind the `count` bytes
-- the memory is `orig`.
abbrev pub IsWritten :
    {W : Type 0}
    → (W → ℕ → ℕ → ℕ)
    → ℕ
    → ℕ
    → ℕ
    → List ℕ
    → (ℕ → ℕ)
    → Option (ℕ × MachVmMemory × W)
    → Type 0
IsWritten mem task a count bytes orig none = ⊥
IsWritten mem task a count bytes orig (some (n, m, w)) =
    (n ≤ count)
    × (n < count → fail m.err ≡ true)
    × ((x : ℕ) → x < 2 ^ 64 → sub64 x a < n → mem w task x ≡ get_or bytes (sub64 x a) 0)
    × ((x : ℕ) → x < 2 ^ 64 → count ≤ sub64 x a → mem w task x ≡ orig x)

module _ {W : Type 0} {k : VmCalls W} {mem : W → ℕ → ℕ → ℕ} (laws : WriteLaws k mem) where
  max_bytes_left_in_page-keeps :
      (task a count x : ℕ) (m : MachVmMemory) (w : W)
      → mem (max_bytes_left_in_page k task a count m w).2 task x ≡ mem w task x
  max_bytes_left_in_page-keeps task a count x m w =
      max_bytes_left_in_page-same k (λ w. mem w task x) task (λ w. laws.host_keeps task x w)
        (λ w. laws.task_keeps task x w) a count m w

  -- One piece of `n` bytes, written and flushed.
  abbrev piece_written : ℕ → ℕ → ℕ → List ℕ → W → W
  piece_written task a n bytes w =
      (k.vm_machine_attribute task a n (k.mach_vm_write task a (take n bytes) w).1).1

  module _ (task a n : ℕ) (bytes : List ℕ) (w : W) (full : n ≤ length bytes) where
    length_piece : length (take n bytes) ≡ n
    length_piece = omega (arith, length-take n bytes)

    piece-spares :
        (x : ℕ)
        → x < 2 ^ 64
        → n ≤ sub64 x a
        → mem (piece_written task a n bytes w) task x ≡ mem w task x
    piece-spares x hx far =
        laws.flush_keeps task a n x _
        ∙ laws.spares task a x (take n bytes) w hx (omega (arith, length_piece))

    piece-writes :
        Accepts k task
        → (x : ℕ) → x < 2 ^ 64
        → sub64 x a < n
        → mem (piece_written task a n bytes w) task x ≡ get_or bytes (sub64 x a) 0
    piece-writes accepts x hx near =
        laws.flush_keeps task a n x _
        ∙ laws.writes task a x (take n bytes) w (accepts a (take n bytes) w) hx
            (omega (arith, length_piece))
        ∙ get_or-take n (sub64 x a) bytes 0 near

  module _ (task a0 count : ℕ) (accepts : Accepts k task) (bytes0 : List ℕ) (orig : ℕ → ℕ)
      (ha : a0 < 2 ^ 64) (hc : count < 2 ^ 32) (full : count ≤ length bytes0) where
    -- What holds when `total` bytes have been written.
    record Progress (total : ℕ) (w : W) : Type 0 where
      prefix :
          (x : ℕ) → x < 2 ^ 64 → sub64 x a0 < total → mem w task x ≡ get_or bytes0 (sub64 x a0) 0
      behind : (x : ℕ) → x < 2 ^ 64 → count ≤ sub64 x a0 → mem w task x ≡ orig x

    Progress-spares :
        (total n a : ℕ) (bytes : List ℕ) (w w1 : W)
        → total + n ≤ count
        → n ≤ length bytes
        → a ≡ add64 a0 total
        → ((x : ℕ) → mem w1 task x ≡ mem w task x)
        → Progress total w
        → Progress total (piece_written task a n bytes w1)
    Progress-spares total n a bytes w w1 h fits at same p = record {
      prefix = λ x hx near.
          piece-spares task a n bytes w1 fits x hx (omega arith) ∙ same x ∙ p.prefix x hx near;
      behind = λ x hx far.
          piece-spares task a n bytes w1 fits x hx (omega arith) ∙ same x ∙ p.behind x hx far;
    }

    Progress-writes :
        (total n a : ℕ) (bytes : List ℕ) (w w1 : W)
        → total + n ≤ count
        → a ≡ add64 a0 total
        → bytes ≡ drop total bytes0
        → ((x : ℕ) → mem w1 task x ≡ mem w task x)
        → Progress total w
        → Progress (total + n) (piece_written task a n bytes w1)
    Progress-writes total n a bytes w w1 h at left same p = record {
      prefix = λ x hx near. elim (Bool-cases (ltb (sub64 x a0) total)) [
        | inl old ↦
            piece-spares task a n bytes w1 fits x hx (ground arith)
            ∙ same x
            ∙ p.prefix x hx (ground arith)
        | inr new ↦
            piece-writes task a n bytes w1 fits accepts x hx (ground arith)
            ∙ ap (λ l. get_or l (sub64 x a) 0) left
            ∙ get_or-drop total (sub64 x a) bytes0 0
            ∙ ap (λ i. get_or bytes0 i 0) (offset x hx (ground arith))
      ];
      behind = λ x hx far.
          piece-spares task a n bytes w1 fits x hx (omega arith) ∙ same x ∙ p.behind x hx far;
    }
      where
        offset : (x : ℕ) → x < 2 ^ 64 → total ≤ sub64 x a0 → total + sub64 x a ≡ sub64 x a0
        offset x hx far = omega arith

        fits : n ≤ length bytes
        fits = rw left (omega (arith, length-drop total bytes0))

    write_region_loop-IsWritten :
        (fuel total a : ℕ) (bytes : List ℕ) (m : MachVmMemory) (w : W)
        → count - total < fuel
        → total ≤ count
        → a ≡ add64 a0 total
        → bytes ≡ drop total bytes0
        → Progress total w
        → IsWritten mem task a0 count bytes0 orig
            (write_region_loop k fuel task count total a bytes m w)
    unfolding write_region_loop
    write_region_loop-IsWritten zero total a bytes m w enough below at left p = absurd (omega arith)
    write_region_loop-IsWritten (suc fuel) total a bytes m w enough below at left p =
        elim (Bool-cases (ltb total count)) [
          | inr done ↦ rw done (below, λ h. absurd (ground arith), p.prefix, p.behind)
          | inl go ↦ rw go (elim (Bool-cases (success (assign flushed))) [
            | inr failed ↦
                let q =
                  Progress-spares total n a bytes w piece.2 (omega (arith, fact go)) (fits go) at
                    same p in
                rw failed (below, λ h. ground arith, q.prefix, q.behind)
            | inl done ↦ rw done (
                write_region_loop-IsWritten fuel _ _ _ _ _ (omega (arith, fact go))
                  (omega (arith, fact go)) (omega (arith, at, fact go)) (rest go)
                  (rw (sum go) (
                    Progress-writes total n a bytes w piece.2 (omega (arith, fact go)) at left same
                      p)))
          ])
        ]
      where
        piece : ℕ × MachVmMemory × W
        piece = max_bytes_left_in_page k task a (count - total) m w

        n : ℕ
        n = u32 piece.0

        flushed : ℕ
        flushed =
            (k.vm_machine_attribute task a (u32 piece.0)
              (k.mach_vm_write task a (take (u32 piece.0) bytes) piece.2).1).0

        same : (x : ℕ) → mem piece.2 task x ≡ mem w task x
        same x = max_bytes_left_in_page-keeps task a (count - total) x m w

        fact : ltb total count ≡ true → (0 < n) × (total + n ≤ count)
        fact go = ground (arith, max_bytes_left_in_page_lem k task a (count - total) m w)

        fits : ltb total count ≡ true → n ≤ length bytes
        fits go = rw left (omega (arith, fact go, length-drop total bytes0))

        sum : ltb total count ≡ true → add64 total n ≡ total + n
        sum go = omega (arith, fact go)

        rest : ltb total count ≡ true → drop n bytes ≡ drop (add64 total n) bytes0
        rest go =
            ap (drop n) left ∙ drop-drop total n bytes0 ∙ sym (ap (λ t. drop t bytes0) (sum go))

  -- Over a kernel that accepts the writes to the task, stores the bytes of each and touches no other
  -- byte, and flushes a cache or fails: `WriteRegion` of at least one and fewer than 2 ^ 32 bytes
  -- returns; the bytes that it counts stand in memory; they are fewer than asked for only with an
  -- error in the object; and behind the bytes that were asked for the memory is as it was.
  pub write_region-IsWritten :
      (task a count : ℕ) (bytes : List ℕ) (m : MachVmMemory) (w : W)
      → a < 2 ^ 64
      → 0 < count
      → count < 2 ^ 32
      → count ≤ length bytes
      → Accepts k task
      → IsWritten mem task a count bytes (mem w task) (write_region k task a (some bytes) count m w)
  unfolding write_region
  write_region-IsWritten task a count bytes m w ha pos hc full accepts =
      rw (ne→==_false count 0 (omega arith)) (
        write_region_loop-IsWritten task a count accepts bytes (mem w task) ha hc full (count + 1) 0
          a bytes m w (omega arith) (omega arith) (omega arith) refl
          (record { prefix = λ x hx near. absurd (omega arith); behind = λ x hx far. refl }))
