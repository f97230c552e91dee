-- ===== src/Vm/Memory/Storing.antt =====
-- Write of MachVMMemory.cpp over a task whose memory is mapped and whose kernel accepts every call:
-- all bytes arrive, across regions and pages.
use debug_learning.Prelude.{
  ℕ, zero, suc, ◌+◌, ◌-◌, ◌<◌, ◌≤◌, ◌^◌, ◌≡◌, refl, true, false, some, none, Option, List, length,
  drop, ltb, arith, add64, sub64, Bool-cases, inl, inr, ◌==◌, if◌then◌else◌, get_or, get_or-drop,
  ap, length-drop, drop-drop, sym, subst, ◌∙◌,
}
use debug_learning.Vm.Calls.{VmCalls}
use debug_learning.Vm.Region.{
  MachVmRegion, bytes_remaining, get_region_for_address, set_protections, new_region, clipped,
}
use debug_learning.Vm.Region.Lookup.{set_protections-same}
use debug_learning.Vm.Memory.{
  MachVmMemory, Round, Written, write_round, write_loop, write, wrote, read_write, destroy,
  after_round,
}
use debug_learning.Vm.Memory.Mapped.{
  MappedLaws, IsFull, clear_region-keeps, lookup-keeps, set_protections-keeps,
  set_protections-ready, lookup-holds, write_region-IsFull,
}
use debug_learning.Vm.Memory.Writing.{WriteLaws, IsWritten, write_region-IsWritten}

-- A call returned `count`, and that many bytes stand at `a`; behind them the memory is `orig`.
abbrev pub IsStored :
    {W : Type 0}
    → (W → ℕ → ℕ → ℕ)
    → ℕ
    → ℕ
    → ℕ
    → List ℕ
    → (ℕ → ℕ)
    → Option (ℕ × MachVmMemory × W)
    → Type 0
IsStored mem task a count bytes orig none = ⊥
IsStored mem task a count bytes orig (some (n, m, w)) =
    (n ≡ count)
    × ((x : ℕ) → x < 2 ^ 64 → sub64 x a < count → mem w task x ≡ get_or bytes (sub64 x a) 0)
    × ((x : ℕ) → x < 2 ^ 64 → count ≤ sub64 x a → mem w task x ≡ orig x)

module _ {W : Type 0} {k : VmCalls W} {mem : W → ℕ → ℕ → ℕ} {task a0 count : ℕ}
    (laws : MappedLaws k mem task a0 count) where
  module _ (bytes0 : List ℕ) (orig : ℕ → ℕ) (hw : WriteLaws k mem) (end_ : a0 + count < 2 ^ 64)
      (hc : count < 2 ^ 32) (full : count ≤ length bytes0) where
    -- What the memory is when `total` bytes have been written.
    abbrev Stands : ℕ → W → Type 0
    Stands total w =
        ((x : ℕ) → x < 2 ^ 64 → sub64 x a0 < total → mem w task x ≡ get_or bytes0 (sub64 x a0) 0)
        × ((x : ℕ) → x < 2 ^ 64 → count ≤ sub64 x a0 → mem w task x ≡ orig x)

    Stands-same :
        (total : ℕ) (w w1 : W)
        → ((x : ℕ) → mem w1 task x ≡ mem w task x)
        → Stands total w
        → Stands total w1
    Stands-same total w w1 same h =
        (λ x hx near. same x ∙ h.0 x hx near, λ x hx far. same x ∙ h.1 x hx far)

    -- One more piece behind the first `total` bytes.
    Stands-piece :
        (total n : ℕ) (w w1 : W)
        → total + n ≤ count
        → ((x : ℕ)
            → x < 2 ^ 64
            → sub64 x (a0 + total) < n
            → mem w1 task x ≡ get_or (drop total bytes0) (sub64 x (a0 + total)) 0)
        → ((x : ℕ) → x < 2 ^ 64 → n ≤ sub64 x (a0 + total) → mem w1 task x ≡ mem w task x)
        → Stands total w
        → Stands (total + n) w1
    Stands-piece total n w w1 below stored spared h = (
      λ x hx near. elim (Bool-cases (ltb (sub64 x a0) total)) [
        | inl old ↦ spared x hx (ground arith) ∙ h.0 x hx (ground arith)
        | inr new ↦
            stored x hx (ground arith)
            ∙ get_or-drop total (sub64 x (a0 + total)) bytes0 0
            ∙ ap (λ i. get_or bytes0 i 0) (offset x hx (ground arith))
      ],
      λ x hx far. spared x hx (omega arith) ∙ h.1 x hx far,
    )
      where
        offset :
            (x : ℕ) → x < 2 ^ 64 → total ≤ sub64 x a0 → total + sub64 x (a0 + total) ≡ sub64 x a0
        offset x hx far = omega arith

    -- A round has stored a piece, and the loop goes on.
    abbrev RoundStores : ℕ → Option (Round W) → Type 0
    RoundStores total none = ⊥
    RoundStores total (some q) =
        (q.more ≡ true)
        × (0 < q.written)
        × (total + q.written ≤ count)
        × (q.region.task ≡ task)
        × Stands (total + q.written) q.world

    wrote-RoundStores :
        (total n : ℕ) (r : MachVmRegion) (w : W) (o : Option (ℕ × MachVmMemory × W))
        → 0 < n
        → total + n ≤ count
        → r.task ≡ task
        → IsFull laws n o
        → IsWritten mem task (a0 + total) n (drop total bytes0) (mem w task) o
        → Stands total w
        → RoundStores total (wrote r o)
    wrote-RoundStores total n r w none pos below h e written stands = e
    wrote-RoundStores total n r w (some (n', m, w')) pos below h e written stands = (
      ground (arith, e),
      omega (arith, e),
      omega (arith, e),
      h,
      rw e (
          Stands-piece total n w w' below (λ x hx near. written.2 x hx (omega (arith, e))) written.3
            stands),
    )

    write_round-RoundStores :
        (total : ℕ) (m : MachVmMemory) (r : MachVmRegion) (w : W)
        → total < count
        → r.task ≡ task
        → Stands total w
        → RoundStores total
            (write_round k task (a0 + total) (count - total) (some (drop total bytes0)) m r w)
    unfolding write_round
    write_round-RoundStores total m r w below h stands =
        let x = a0 + total in
        let (found, r1, w1) = get_region_for_address k r x w in
        let room = bytes_remaining r1 x in
        let n = if ltb room (count - total) then room else count - total in
        let (ready, r2, w2) = set_protections k r1 x n read_write w1 in
        let (is_found, here, inside, low, high, start) =
          lookup-holds laws r x w h (omega arith) (omega arith) in
        let sizes : (0 < n) × (total + n ≤ count) × (0 < clipped r1 x n) × ((room == 0) ≡ false) =
          ground arith in
        let is_ready : ready ≡ true =
          set_protections-ready laws r1 x n read_write w1 here inside sizes.2 in
        rw is_found (
          rw sizes.3 (
            rw is_ready (
              wrote-RoundStores total n r2 w2 _ sizes.0 sizes.1
                (ground (arith, here, set_protections-same k r1 x n read_write w1))
                (write_region-IsFull laws n x (drop total bytes0) m w2 sizes.0
                  (omega (arith, sizes)))
                (write_region-IsWritten hw task x n (drop total bytes0) m w2 (omega arith) sizes.0
                  (omega (arith, sizes)) (omega (arith, sizes, length-drop total bytes0))
                  laws.accepts)
                (Stands-same total w w2
                  (λ y.
                    set_protections-keeps laws r1 x n read_write w1 y here
                    ∙ lookup-keeps laws r x w y h)
                  stands))))

    abbrev LoopStores : Option (Written W) → Type 0
    LoopStores none = ⊥
    LoopStores (some (n, m, r, w)) = (n ≡ count) × (r.task ≡ task) × Stands count w

    after-LoopStores :
        (next : Round W → Option (Written W)) (total : ℕ) (o : Option (Round W))
        → RoundStores total o
        → ((q : Round W)
            → 0 < q.written
            → total + q.written ≤ count
            → q.region.task ≡ task
            → Stands (total + q.written) q.world
            → LoopStores (next q))
        → LoopStores (after_round next total o)
    after-LoopStores next total none h ih = h
    after-LoopStores next total (some q) h ih = simp h.0 (ih q h.1 h.2 h.3 h.4)

    write_loop-LoopStores :
        (fuel total x : ℕ) (bytes : List ℕ) (m : MachVmMemory) (r : MachVmRegion) (w : W)
        → count - total < fuel
        → total ≤ count
        → x ≡ a0 + total
        → bytes ≡ drop total bytes0
        → r.task ≡ task
        → Stands total w
        → LoopStores (write_loop k fuel task count total x (some bytes) m r w)
    unfolding write_loop
    write_loop-LoopStores zero total x bytes m r w enough below at left h stands =
        absurd (omega arith)
    write_loop-LoopStores (suc fuel) total x bytes m r w enough below at left h stands =
        elim (Bool-cases (ltb total count)) [
          | inr done ↦
              let all : total ≡ count = ground arith in
              rw done (all, h, subst (λ t. Stands t w) all stands)
          | inl go ↦ rw go (
              rw at (
                rw left (
                  after-LoopStores _ total _
                    (write_round-RoundStores total m r w (ground arith) h stands)
                    (λ q more fits here stored.
                      let sum : add64 total q.written ≡ total + q.written = omega arith in
                      write_loop-LoopStores fuel _ _ _ _ _ _ (omega arith) (omega arith)
                        (omega arith)
                        (drop-drop total q.written bytes0 ∙ sym (ap (λ t. drop t bytes0) sum)) here
                        (rw sum stored)))))
        ]

    destroy-IsStored :
        (o : Option (Written W))
        → LoopStores o
        → IsStored mem task a0 count bytes0 orig (destroy k o)
    unfolding destroy
    destroy-IsStored none h = h
    destroy-IsStored (some (n, m, r, w)) h =
        let stands = Stands-same count w _ (λ y. clear_region-keeps laws r w y h.1) h.2 in
        (h.0, stands.0, stands.1)

  -- Over a kernel that maps the whole range and accepts the calls for it, `Write` of fewer than 2 ^ 32 bytes returns their number: all of them stand in memory, across
  -- regions and pages, and outside the range the memory is unchanged.
  pub write-IsStored :
      (bytes : List ℕ) (m : MachVmMemory) (w : W)
      → WriteLaws k mem
      → a0 + count < 2 ^ 64
      → count < 2 ^ 32
      → count ≤ length bytes
      → IsStored mem task a0 count bytes (mem w task) (write k task a0 (some bytes) count m w)
  unfolding write
  write-IsStored bytes m w hw end_ hc full = destroy-IsStored bytes (mem w task) hw end_ hc full _ (
      write_loop-LoopStores bytes (mem w task) hw end_ hc full (count + 1) 0 a0 bytes m
        (new_region task) w (omega arith) (omega arith) (omega arith) refl refl
        (λ x hx near. absurd (omega arith), λ x hx far. refl))
