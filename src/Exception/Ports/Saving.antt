-- ===== src/Exception/Ports/Saving.antt =====
-- What `Save` and `Restore` of MachException.cpp leave, on every branch.
use debug_learning.Prelude.{
  ℕ, zero, suc, ◌+◌, ◌<◌, ◌≡◌, ◌≢◌, refl, Bool, true, false, ◌&&◌, ◌==◌, ◌/=◌, arith, u32,
  if◌then◌else◌, Bool-cases, inl, inr, ◌⊎◌, ◌↔◌, subst, sym, ==_iff, ltb,
}
use native.Mathlib.Numerals.{add-one}
use debug_learning.Sdk.{kern_invalid_argument, prev_exc_mask_all}
use debug_learning.DnbError.{DnbError, clear, fail, assign}
use debug_learning.Exception.Ports.{
  PortInfo, PortCalls, exc_types_count, save, restore, restore_loop,
}

module _ {W : Type 0} (k : PortCalls W) where
  -- `Save` asks for all exceptions, and once more for the older set only where the kernel does not
  -- know one of them. It leaves the answer of the last call, with the mask that was asked for; or,
  -- after a failure, the mask 0 and no entry, so that the caller can tell by the mask.
  pub save_lem :
      (exc_mask_all task : ℕ) (p : PortInfo) (w : W)
      → exc_mask_all ≢ 0
      → let (kr1, n1, entries1, w1) =
          k.task_get_exception_ports task exc_mask_all exc_types_count p.entries w in
        let (kr2, n2, entries2, w2) =
          k.task_get_exception_ports task prev_exc_mask_all exc_types_count entries1 w1 in
        let (status, p', w') = save k exc_mask_all task p w in
        let again = u32 kr1 == kern_invalid_argument && exc_mask_all /= prev_exc_mask_all in
        (status ≡ (if again then u32 kr2 else u32 kr1))
        × (w' ≡ (if again then w2 else w1))
        × ((p'.mask ≡ 0) ↔ (status ≢ 0))
        × (status ≡ 0
            → (p'.mask ≡ (if again then prev_exc_mask_all else exc_mask_all))
              × (p'.count ≡ (if again then n2 else n1)))
        × (status ≢ 0 → p'.count ≡ 0)
  unfolding save
  save_lem exc_mask_all task p w h = ground arith

  -- A mask other than 0 tells that `Save` succeeded.
  pub save-masked :
      (exc_mask_all task : ℕ) (p : PortInfo) (w : W)
      → (save k exc_mask_all task p w).1.mask == 0 ≡ false
      → (save k exc_mask_all task p w).0 ≡ 0
  unfolding save
  save-masked exc_mask_all task p w h = ground arith

  -- The state after the first `n` calls that `Restore` makes.
  abbrev pub after_sets : ℕ → PortInfo → ℕ → W → W
  after_sets task p zero w = w
  after_sets task p (suc n) w =
      (k.task_set_exception_ports task (p.entries n) (after_sets task p n w)).1

  -- the result of call `i`
  abbrev pub set_result : ℕ → PortInfo → ℕ → W → ℕ
  set_result task p i w =
      u32 (k.task_set_exception_ports task (p.entries i) (after_sets task p i w)).0

  -- The calls for the first `n` entries succeeded, in order; or the call for entry `i` was the
  -- first to fail and the last to be made, and its result is the status.
  abbrev pub Sets : ℕ → PortInfo → ℕ → W → ℕ → W → Type 0
  Sets task p n w status w' =
      ((status ≡ 0) × (w' ≡ after_sets task p n w) × ((j : ℕ) → j < n → set_result task p j w ≡ 0))
      ⊎ ((i : ℕ) × (i < n)
          × (status ≢ 0)
          × (status ≡ set_result task p i w)
          × (w' ≡ after_sets task p (suc i) w)
          × ((j : ℕ) → j < i → set_result task p j w ≡ 0))

  restore_loop-Sets :
      (n i total task : ℕ) (p : PortInfo) (e : DnbError) (w : W)
      → i + n ≡ total
      → e.err ≡ 0
      → ((j : ℕ) → j < i → set_result task p j w ≡ 0)
      → let (e', w') = restore_loop k n i task p e (after_sets task p i w) in
        Sets task p total w e'.err w'
  unfolding restore_loop
  restore_loop-Sets zero i total task p e w sum clean done =
      let same : i ≡ total = omega arith in
      subst (λ t. Sets task p t w e.err (after_sets task p i w)) same (inl (clean, refl, done))
  restore_loop-Sets (suc n) i total task p e w sum clean done =
      elim (Bool-cases (fail (assign kr))) [
        | inl failed ↦ rw failed (inr (i, omega arith, ground arith, refl, refl, done))
        | inr ok ↦ rw ok (
            rw (add-one i)
              (restore_loop-Sets n (suc i) total task p _ w (omega arith) (ground arith) (more ok)))
      ]
    where
      kr : ℕ
      kr = (k.task_set_exception_ports task (p.entries i) (after_sets task p i w)).0

      more : fail (assign kr) ≡ false → (j : ℕ) → j < suc i → set_result task p j w ≡ 0
      more ok j lt = elim (Bool-cases (j == i)) [
        | inl e ↦
            subst (λ x. set_result task p x w ≡ 0) (sym ((==_iff j i).0 e)) (ground (arith, ok))
        | inr ne ↦ done j (ground arith)
      ]

  -- `Restore` puts the saved entries back one by one, in their order. Either all calls succeed, or
  -- it stops at the first that fails and returns its result. Either way no entry stays saved, and
  -- the mask stays.
  pub restore_lem :
      (task : ℕ) (p : PortInfo) (w : W)
      → let (status, p', w') = restore k task p w in
        Sets task p p.count w status w' × (p'.count ≡ 0) × (p'.mask ≡ p.mask)
  unfolding restore
  restore_lem task p w = (choose (ltb 0 p.count) refl, refl, refl)
    where
      choose :
          (b : Bool)
          → ltb 0 p.count ≡ b
          → let (e, w') = if b then restore_loop k p.count 0 task p clear w else (clear, w) in
            Sets task p p.count w e.err w'
      choose true h =
          restore_loop-Sets p.count 0 p.count task p clear w (omega arith) refl
            (λ j lt. absurd (omega arith))
      choose false h =
          let empty : 0 ≡ p.count = ground (arith, h) in
          subst (λ n. Sets task p n w 0 w) empty (inl (refl, refl, λ j lt. absurd (omega arith)))
