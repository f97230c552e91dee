-- ===== src/Exception/Ports/Returning.antt =====
-- `Save` and then `Restore` of MachException.cpp: the exception ports that the task had come back.
use debug_learning.Prelude.{
  ℕ, zero, suc, ◌<◌, ◌≡◌, ◌≢◌, Bool, true, false, ◌&&◌, ◌==◌, ◌/=◌, arith, u32, if◌then◌else◌,
  Bool-cases, inl, inr, subst, ap, ◌∙◌, ==_iff,
}
use debug_learning.Prelude.Bits.{bit}
use debug_learning.Sdk.{kern_invalid_argument, prev_exc_mask_all}
use debug_learning.DnbError.{DnbError, fail}
use debug_learning.Exception.Ports.{Entry, PortInfo, PortCalls, exc_types_count, ask, save, restore}
use debug_learning.Exception.Ports.Saving.{after_sets, set_result, restore_lem}

-- The port, the behavior and the flavor for exceptions.
abbrev pub settings : Entry → ℕ × ℕ × ℕ
settings e = (e.port, e.behavior, e.flavor)

-- `handler w task b` is how task `task` handles the exceptions of the bit `b`. A list of the
-- handlers is true and covers the mask that it was asked for; setting a handler changes it for the
-- bits of its mask, and for no other.
pub record HandlerLaws {W : Type 0} (k : PortCalls W) (handler : W → ℕ → ℕ → ℕ × ℕ × ℕ)
    : Type 0 where
  pub describes :
      (t mask b i : ℕ) (e : ℕ → Entry) (w : W)
      → let (kr, count, entries, w') = k.task_get_exception_ports t mask exc_types_count e w in
        u32 kr ≡ 0 → i < count → bit b (entries i).mask ≡ 1 → settings (entries i) ≡ handler w t b
  pub covers :
      (t mask b : ℕ) (e : ℕ → Entry) (w : W)
      → let (kr, count, entries, w') = k.task_get_exception_ports t mask exc_types_count e w in
        u32 kr ≡ 0 → bit b mask ≡ 1 → (i : ℕ) × (i < count) × (bit b (entries i).mask ≡ 1)
  pub get_keeps :
      (t mask b : ℕ) (e : ℕ → Entry) (w : W)
      → handler (k.task_get_exception_ports t mask exc_types_count e w).3 t b ≡ handler w t b
  pub sets :
      (t b : ℕ) (e : Entry) (w : W)
      → u32 (k.task_set_exception_ports t e w).0 ≡ 0
      → bit b e.mask ≡ 1
      → handler (k.task_set_exception_ports t e w).1 t b ≡ settings e
  pub spares :
      (t b : ℕ) (e : Entry) (w : W)
      → bit b e.mask ≢ 1
      → handler (k.task_set_exception_ports t e w).1 t b ≡ handler w t b

module _ {W : Type 0} {k : PortCalls W} {handler : W → ℕ → ℕ → ℕ × ℕ × ℕ}
    (laws : HandlerLaws k handler) (task b : ℕ) where
  -- The saved entries say `v` of the bit `b`, and some of them does where the mask has the bit.
  abbrev pub Says : PortInfo → ℕ × ℕ × ℕ → Type 0
  Says p v =
      ((i : ℕ) → i < p.count → bit b (p.entries i).mask ≡ 1 → settings (p.entries i) ≡ v)
      × (bit b p.mask ≡ 1 → (i : ℕ) × (i < p.count) × (bit b (p.entries i).mask ≡ 1))

  ask-Says :
      (mask : ℕ) (p : PortInfo) (w : W)
      → (ask k task mask p w).0.err ≡ 0
      → Says (ask k task mask p w).1 (handler w task b)
  ask-Says mask p w ok = (
    λ i lt has. laws.describes task mask b i p.entries w ok lt has,
    λ has. laws.covers task mask b p.entries w ok has,
  )

  -- The second call, or the first one only.
  asked-Says :
      (again : Bool) (exc_mask_all : ℕ) (p : PortInfo) (w : W)
      → let first = ask k task exc_mask_all p w in
        let (e, q, w') = if again then ask k task prev_exc_mask_all first.1 first.2 else first in
        e.err ≡ 0 → Says q (handler w task b)
  asked-Says true exc_mask_all p w ok =
      let first = ask k task exc_mask_all p w in
      subst (Says _) (laws.get_keeps task exc_mask_all b p.entries w)
        (ask-Says prev_exc_mask_all first.1 first.2 ok)
  asked-Says false exc_mask_all p w ok = ask-Says exc_mask_all p w ok

  kept-Says :
      (e : DnbError) (q : PortInfo) (v : ℕ × ℕ × ℕ)
      → e.err ≡ 0
      → Says q v
      → Says (if fail e then record q { mask = 0; count = 0 } else q) v
  kept-Says e q v ok says = let passed : fail e ≡ false = ground (arith, ok) in rw passed says

  -- What `Save` leaves where it succeeds.
  pub save-Says :
      (exc_mask_all : ℕ) (p : PortInfo) (w : W)
      → (save k exc_mask_all task p w).0 ≡ 0
      → Says (save k exc_mask_all task p w).1 (handler w task b)
  unfolding save
  save-Says exc_mask_all p w ok =
      let first = ask k task exc_mask_all p w in
      let again = first.0.err == kern_invalid_argument && exc_mask_all /= prev_exc_mask_all in
      let asked = if again then ask k task prev_exc_mask_all first.1 first.2 else first in
      kept-Says asked.0 asked.1 _ ok (asked-Says again exc_mask_all p w ok)

  -- The first `n` calls of `Restore`, if they succeed.
  after_sets-Puts :
      (n : ℕ) (p : PortInfo) (v : ℕ × ℕ × ℕ) (w : W)
      → ((i : ℕ) → i < n → bit b (p.entries i).mask ≡ 1 → settings (p.entries i) ≡ v)
      → ((j : ℕ) → j < n → set_result k task p j w ≡ 0)
      → (i : ℕ) → i < n
      → bit b (p.entries i).mask ≡ 1
      → handler (after_sets k task p n w) task b ≡ v
  after_sets-Puts zero p v w says done i lt has = absurd (omega arith)
  after_sets-Puts (suc n) p v w says done i lt has =
      let w' = after_sets k task p n w in
      elim (Bool-cases (bit b (p.entries n).mask == 1)) [
        | inl found ↦
            let has_n = (==_iff _ 1).0 found in
            laws.sets task b (p.entries n) w' (done n (omega arith)) has_n
            ∙ says n (omega arith) has_n
        | inr missing ↦
            let lacks : bit b (p.entries n).mask ≢ 1 = ground (arith, missing) in
            let before : i ≢ n = λ e. lacks (subst (λ j. bit b (p.entries j).mask ≡ 1) e has) in
            laws.spares task b (p.entries n) w' lacks
            ∙ after_sets-Puts n p v w (λ j l. says j (omega arith)) (λ j l. done j (omega arith)) i
                (omega (arith, before)) has
      ]

  -- `Restore` of entries of which one has the bit, and all that have it say `v`.
  pub restore-Puts :
      (p : PortInfo) (v : ℕ × ℕ × ℕ) (later : W)
      → Says p v
      → bit b p.mask ≡ 1
      → let (status, p'', w'') = restore k task p later in status ≡ 0 → handler w'' task b ≡ v
  restore-Puts p v later (says, covers) has restored =
      let (i, lt, has_i) = covers has in
      elim (restore_lem k task p later).0 [
        | inl (ok, e, done) ↦
            ap (λ u. handler u task b) e ∙ after_sets-Puts p.count p v later says done i lt has_i
        | inr (j, l, bad, _, _, others) ↦ absurd (bad restored)
      ]

  -- Over a kernel whose lists of handlers are true and complete and which sets what it is asked to
  -- set: if `Save` succeeds, and later `Restore` in any state of the system, then the task handles
  -- each exception of the saved mask as it did before `Save`.
  pub restore-save :
      (exc_mask_all : ℕ) (p : PortInfo) (w later : W)
      → let (status, p', w') = save k exc_mask_all task p w in
        let (status', p'', w'') = restore k task p' later in
        status ≡ 0 → status' ≡ 0 → bit b p'.mask ≡ 1 → handler w'' task b ≡ handler w task b
  restore-save exc_mask_all p w later saved restored has =
      restore-Puts (save k exc_mask_all task p w).1 (handler w task b) later
        (save-Says exc_mask_all p w saved) has restored
