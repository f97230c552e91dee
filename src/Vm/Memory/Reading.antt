-- ===== src/Vm/Memory/Reading.antt =====
-- Read of MachVMMemory.cpp ends and returns what the memory holds, over a kernel whose
-- `mach_vm_read` returns as many bytes as it was asked for, or fails.
pub mod All
use debug_learning.Prelude.{
  ℕ, zero, suc, ◌+◌, ◌-◌, ◌<◌, ◌≤◌, ◌^◌, ◌≡◌, refl, true, false, some, List, [], ◌∷◌, ◌++◌, length,
  get_or, ltb, arith, u32, add64, Bool-cases, inl, inr, ap, ◌∙◌, ==_iff, fun_ext, ne→==_false, ap₂,
  Option, none,
}
use debug_learning.DnbError.{success, fail, assign}
use debug_learning.Vm.Calls.{VmCalls}
use debug_learning.Vm.Memory.{MachVmMemory, max_bytes_left_in_page, read_loop, read}
use debug_learning.Vm.Memory.Chunks.{max_bytes_left_in_page_lem, max_bytes_left_in_page-same}

-- The `n` bytes from address `a` on; addresses wrap.
abbrev pub bytes_at : (ℕ → ℕ) → ℕ → ℕ → List ℕ
bytes_at mem a zero = []
bytes_at mem a (suc n) = mem a ∷ bytes_at mem (add64 a 1) n

pub length-bytes_at : (mem : ℕ → ℕ) (a n : ℕ) → length (bytes_at mem a n) ≡ n
length-bytes_at mem a zero = refl
length-bytes_at mem a (suc n) = ap suc (length-bytes_at mem (add64 a 1) n)

pub bytes_at-append :
    (mem : ℕ → ℕ) (a m n : ℕ)
    → a < 2 ^ 64
    → bytes_at mem a m ++ bytes_at mem (add64 a m) n ≡ bytes_at mem a (m + n)
bytes_at-append mem a zero n h = ap₂ (bytes_at mem) same (omega arith)
  where
    same : add64 a 0 ≡ a
    same = omega arith
bytes_at-append mem a (suc m) n h =
    rw (far, more) (ap (◌∷◌ (mem a)) (bytes_at-append mem (add64 a 1) m n (omega arith)))
  where
    far : add64 a (suc m) ≡ add64 (add64 a 1) m
    far = omega arith

    more : suc m + n ≡ suc (m + n)
    more = omega arith

pub bytes_at-append_at :
    (mem : ℕ → ℕ) (a b m n : ℕ)
    → a < 2 ^ 64
    → b ≡ add64 a m
    → bytes_at mem a m ++ bytes_at mem b n ≡ bytes_at mem a (m + n)
bytes_at-append_at mem a b m n h e = rw e (bytes_at-append mem a m n h)

pub get_or-bytes_at :
    (mem : ℕ → ℕ) (a n i d : ℕ)
    → a < 2 ^ 64
    → i < n
    → get_or (bytes_at mem a n) i d ≡ mem (add64 a i)
get_or-bytes_at mem a zero i d h lt = absurd (omega arith)
get_or-bytes_at mem a (suc n) zero d h lt = ap mem (omega arith)
get_or-bytes_at mem a (suc n) (suc i) d h lt =
    let e : add64 (add64 a 1) i ≡ add64 a (suc i) = omega arith in
    get_or-bytes_at mem (add64 a 1) n i d (omega arith) (omega arith) ∙ ap mem e

-- `mem w t` is the memory of task `t`. A read that succeeds returns as many bytes as were asked
-- for, and neither it nor a question for the page size changes the memory.
pub record ReadLaws {W : Type 0} (k : VmCalls W) (mem : W → ℕ → ℕ → ℕ) : Type 0 where
  pub returns :
      (t a n : ℕ) (w : W)
      → u32 (k.mach_vm_read t a n w).0 ≡ 0
      → (k.mach_vm_read t a n w).1 ≡ bytes_at (mem w t) a n
  pub read_keeps : (t a n x : ℕ) (w : W) → mem (k.mach_vm_read t a n w).2 t x ≡ mem w t x
  pub host_keeps : (t x : ℕ) (w : W) → mem (k.host_page_size w).2 t x ≡ mem w t x
  pub task_keeps : (t x : ℕ) (w : W) → mem (k.task_vm_page_size t w).2 t x ≡ mem w t x

-- The outcome of a read of `count` bytes at `a`: a number of bytes and a buffer that holds just as
-- many bytes of `orig`; fewer than asked for only with an error in the object; the memory is `orig`.
abbrev pub IsRead :
    {W : Type 0}
    → (W → ℕ → ℕ → ℕ)
    → ℕ
    → ℕ
    → ℕ
    → (ℕ → ℕ)
    → Option (ℕ × List ℕ × MachVmMemory × W)
    → Type 0
IsRead mem task a count orig none = ⊥
IsRead mem task a count orig (some (n, buf, m, w)) =
    (n ≤ count)
    × (buf ≡ bytes_at orig a n)
    × (n < count → fail m.err ≡ true)
    × ((x : ℕ) → mem w task x ≡ orig x)

module _ {W : Type 0} {k : VmCalls W} {mem : W → ℕ → ℕ → ℕ} (laws : ReadLaws k mem) where
  max_bytes_left_in_page-keeps :
      (task a count x : ℕ) (m : MachVmMemory) (w : W)
      → mem (max_bytes_left_in_page k task a count m w).2 task x ≡ mem w task x
  max_bytes_left_in_page-keeps task a count x m w =
      max_bytes_left_in_page-same k (λ w. mem w task x) task (λ w. laws.host_keeps task x w)
        (λ w. laws.task_keeps task x w) a count m w

  module _ (task a0 count : ℕ) (ha : a0 < 2 ^ 64) (hc : count < 2 ^ 64) (orig : ℕ → ℕ) where
    read_loop-IsRead :
        (fuel total a : ℕ) (buf : List ℕ) (m : MachVmMemory) (w : W)
        → count - total < fuel
        → total ≤ count
        → a ≡ add64 a0 total
        → buf ≡ bytes_at orig a0 total
        → ((x : ℕ) → mem w task x ≡ orig x)
        → IsRead mem task a0 count orig (read_loop k fuel task count total a buf m w)
    unfolding read_loop
    read_loop-IsRead zero total a buf m w enough below at so_far same = absurd (omega arith)
    read_loop-IsRead (suc fuel) total a buf m w enough below at so_far same =
        elim (Bool-cases (ltb total count)) [
          | inr done ↦ rw done (below, so_far, λ h. absurd (ground arith), same)
          | inl go ↦ rw go (elim (Bool-cases (success (assign reply.0))) [
            | inr failed ↦ rw failed (below, so_far, λ h. ground arith, still)
            | inl got ↦ rw got (
                read_loop-IsRead fuel _ _ _ _ _ (omega (arith, fact go, length_bytes got))
                  (omega (arith, fact go, length_bytes got))
                  (omega (arith, at, fact go, length_bytes got)) (extended go got) still)
          ])
        ]
      where
        piece : ℕ × MachVmMemory × W
        piece = max_bytes_left_in_page k task a (count - total) m w

        reply : ℕ × List ℕ × W
        reply = k.mach_vm_read task a piece.0 piece.2

        still : (x : ℕ) → mem reply.2 task x ≡ orig x
        still x =
            laws.read_keeps task a piece.0 x piece.2
            ∙ max_bytes_left_in_page-keeps task a (count - total) x m w
            ∙ same x

        bytes : success (assign reply.0) ≡ true → reply.1 ≡ bytes_at orig a piece.0
        bytes got =
            laws.returns task a piece.0 piece.2 ((==_iff _ 0).0 got)
            ∙ ap (λ f. bytes_at f a piece.0)
                (fun_ext λ x. max_bytes_left_in_page-keeps task a (count - total) x m w ∙ same x)

        length_bytes : success (assign reply.0) ≡ true → length reply.1 ≡ piece.0
        length_bytes got = ap length (bytes got) ∙ length-bytes_at orig a piece.0

        fact : ltb total count ≡ true → (0 < piece.0) × (total + piece.0 ≤ count)
        fact go = ground (arith, max_bytes_left_in_page_lem k task a (count - total) m w)

        extended :
            ltb total count ≡ true
            → success (assign reply.0) ≡ true
            → buf ++ reply.1 ≡ bytes_at orig a0 (add64 total (length reply.1))
        extended go got =
            let sum : add64 total (length reply.1) ≡ total + piece.0 =
              omega (arith, fact go, length_bytes got) in
            rw (sum, so_far, bytes got) (bytes_at-append_at orig a0 a total piece.0 ha at)

  -- `Read` always ends: with the bytes that the memory holds from the address on, all that were
  -- asked for unless the kernel reported an error, and with the memory as it was.
  pub read-IsRead :
      (task a count : ℕ) (m : MachVmMemory) (w : W)
      → a < 2 ^ 64
      → 0 < count
      → count < 2 ^ 64
      → IsRead mem task a count (mem w task) (read k false task a count m w)
  unfolding read
  read-IsRead task a count m w ha pos hc = rw (ne→==_false count 0 (omega arith)) (
      read_loop-IsRead task a count ha hc (mem w task) (count + 1) 0 a [] m w (omega arith)
        (omega arith) (omega arith) refl (λ x. refl))
