-- ===== src/Task/Starting/Ignored.antt =====
-- `StartExceptionThread` of MachTask.cpp takes the ignored exceptions as a set: neither their order
-- nor how often one is named changes anything.
use mathlib.Core.Quot
use mathlib.Core.Quot.{Quot}
use debug_learning.Prelude.{
  ap, ℕ, zero, suc, ◌/◌, ◌%◌, ◌≤◌, ◌<◌, ◌^◌, ◌≡◌, refl, Bool, false, List, [], ◌∷◌, arith, bit_and,
  not32, sym, ◌∙◌,
}
use debug_learning.Prelude.Bits.{bit, bit_and-bound}
use debug_learning.DnbError.{DnbError, assign}
use debug_learning.Exception.Ports.{PortInfo, PortCalls, save}
use debug_learning.Task.{MachTask, TaskCalls, is_valid, task_port_for_process_id}
use debug_learning.Task.Starting.{
  remove_ignored, set_port_and_start, save_and_start, start_exception_thread,
}
use debug_learning.Task.Starting.Laws.{ignores, AllFit, bit-remove_ignored}

-- Both lists ignore the same exceptions.
abbrev pub SameIgnored : List ℕ → List ℕ → Type 0
SameIgnored xs ys = (i : ℕ) → ignores i xs ≡ ignores i ys

-- The set of the ignored exceptions: lists up to what they ignore.
abbrev pub IgnoredSet : Type 0
IgnoredSet = Quot SameIgnored

abbrev pub of_list : List ℕ → IgnoredSet
of_list = Quot.mk

unfoldable pub contains : ℕ → IgnoredSet → Bool
contains i = Quot.lift (hlevel) (ignores i) (λ xs ys h. h i)

pub exact : {xs ys : List ℕ} → of_list xs ≡ of_list ys → SameIgnored xs ys
unfolding contains
exact e i = ap (contains i) e

-- Words of the same digits are equal.
bits_ext : (n a b : ℕ) → a < 2 ^ n → b < 2 ^ n → ((i : ℕ) → i < n → bit i a ≡ bit i b) → a ≡ b
bits_ext zero a b ha hb same = omega arith
bits_ext (suc n) a b ha hb same =
    let low : a % 2 ≡ b % 2 = same 0 (omega arith) in
    let high : a / 2 ≡ b / 2 =
      bits_ext n (a / 2) (b / 2) (omega arith) (omega arith) (λ i h. same (suc i) (omega arith)) in
    omega arith

remove_ignored-bound : (ms : List ℕ) (mask : ℕ) → remove_ignored ms mask ≤ mask
unfolding remove_ignored
remove_ignored-bound [] mask = omega arith
remove_ignored-bound (m ∷ ms) mask =
    omega (arith, remove_ignored-bound ms (bit_and mask (not32 m)), bit_and-bound mask (not32 m))

remove_ignored-same :
    (xs ys : List ℕ) (mask : ℕ)
    → mask < 2 ^ 32
    → AllFit xs
    → AllFit ys
    → SameIgnored xs ys
    → remove_ignored xs mask ≡ remove_ignored ys mask
remove_ignored-same xs ys mask hm fx fy same =
    bits_ext 32 _ _ (omega (arith, remove_ignored-bound xs mask))
      (omega (arith, remove_ignored-bound ys mask))
      (λ i h.
        let e = same i in
        bit-remove_ignored i xs mask h fx ∙ (rw e refl) ∙ sym (bit-remove_ignored i ys mask h fy))

module _ {W : Type 0} (k : TaskCalls W) (ports : PortCalls W) (exc_mask_all : ℕ) (xs ys : List ℕ)
    (fit_xs : AllFit xs) (fit_ys : AllFit ys) (same : of_list xs ≡ of_list ys) where
  save-bound :
      (task : ℕ) (p : PortInfo) (w : W)
      → exc_mask_all < 2 ^ 32
      → (save ports exc_mask_all task p w).1.mask < 2 ^ 32
  unfolding save
  save-bound task p w h = ground arith

  set_port_and_start-same :
      (task : ℕ) (t : MachTask) (w : W)
      → t.exc_port_info.mask < 2 ^ 32
      → set_port_and_start k ports exc_mask_all xs task t w
        ≡ set_port_and_start k ports exc_mask_all ys task t w
  unfolding set_port_and_start
  set_port_and_start-same task t w h =
      rw (remove_ignored-same xs ys t.exc_port_info.mask h fit_xs fit_ys (exact same)) refl

  save_and_start-same :
      (task : ℕ) (e : DnbError) (t : MachTask) (w : W)
      → exc_mask_all < 2 ^ 32
      → save_and_start k ports exc_mask_all xs task e t w
        ≡ save_and_start k ports exc_mask_all ys task e t w
  unfolding save_and_start
  save_and_start-same task e t w h =
      let (status, p, w') = save ports exc_mask_all t.task t.exc_port_info w in
      rw
        (set_port_and_start-same task (record t { exc_port_info = p }) w'
          (save-bound t.task t.exc_port_info w h))
        refl

  -- Where the masks are words of 32 bits, StartExceptionThread does the same and answers the same
  -- for two lists of ignored exceptions that are one set, whatever the order and however often one
  -- is named.
  pub start_exception_thread-same :
      (pid : ℕ) (e : DnbError) (t : MachTask) (w : W)
      → exc_mask_all < 2 ^ 32
      → start_exception_thread k ports exc_mask_all pid xs e t w
        ≡ start_exception_thread k ports exc_mask_all pid ys e t w
  unfolding start_exception_thread
  start_exception_thread-same pid e t w h =
      let (task, t1, w1) = task_port_for_process_id k pid false t w in
      let (valid, w2) = is_valid k task w1 in
      let (kr3, port, w3) = k.mach_port_allocate t1.exception_port w2 in
      let (kr4, w4) = k.mach_port_insert_right port w3 in
      rw (save_and_start-same task (assign kr4) (record t1 { exception_port = port }) w4 h) refl
