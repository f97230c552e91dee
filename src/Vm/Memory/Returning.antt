-- ===== src/Vm/Memory/Returning.antt =====
-- What Write of MachVMMemory.cpp has written is what Read finds there.
use debug_learning.Prelude.{
  ℕ, suc, ◌+◌, ◌<◌, ◌^◌, ◌≡◌, refl, List, [], ◌∷◌, length, get_or, arith, sub64, add64, ap, ◌∙◌,
  Option, some, none, false,
}
use debug_learning.Vm.Calls.{VmCalls}
use debug_learning.Vm.Memory.{MachVmMemory, read, write}
use debug_learning.Vm.Memory.Reading.{
  ReadLaws, IsRead, bytes_at, length-bytes_at, get_or-bytes_at, read-IsRead,
}
use debug_learning.Vm.Memory.Reading.All.{IsAll, NoneFails, read-IsAll}
use debug_learning.Vm.Memory.Writing.{WriteLaws}
use debug_learning.Vm.Memory.Mapped.{MappedLaws}
use debug_learning.Vm.Memory.Storing.{IsStored, write-IsStored}

-- Lists of one length are equal where their items are.
list_ext :
    (xs ys : List ℕ)
    → length xs ≡ length ys
    → ((i : ℕ) → i < length xs → get_or xs i 0 ≡ get_or ys i 0)
    → xs ≡ ys
list_ext [] [] size same = refl
list_ext [] (y ∷ ys) size same = absurd (omega arith)
list_ext (x ∷ xs) [] size same = absurd (omega arith)
list_ext (x ∷ xs) (y ∷ ys) size same =
    ap (λ z. z ∷ xs) (same 0 (omega arith))
    ∙ ap (◌∷◌ y) (list_ext xs ys (omega arith) (λ i h. same (suc i) (omega arith)))

-- A memory that holds `bytes` from `a` on.
bytes_at-stored :
    (mem : ℕ → ℕ) (a : ℕ) (bytes : List ℕ)
    → a + length bytes < 2 ^ 64
    → ((x : ℕ) → x < 2 ^ 64 → sub64 x a < length bytes → mem x ≡ get_or bytes (sub64 x a) 0)
    → bytes_at mem a (length bytes) ≡ bytes
bytes_at-stored mem a bytes end_ stored =
    list_ext _ bytes (length-bytes_at mem a (length bytes)) (λ i h.
      let near : i < length bytes = omega (arith, length-bytes_at mem a (length bytes)) in
      let back : sub64 (add64 a i) a ≡ i = omega arith in
      get_or-bytes_at mem a (length bytes) i 0 (omega arith) near
      ∙ stored (add64 a i) (omega arith) (omega arith)
      ∙ ap (λ j. get_or bytes j 0) back)

-- A read returned just these bytes.
abbrev pub IsBack : {W : Type 0} → List ℕ → Option (ℕ × List ℕ × MachVmMemory × W) → Type 0
IsBack bytes none = ⊥
IsBack bytes (some (n, buf, m, w)) = (n ≡ length bytes) × (buf ≡ bytes)

-- A write returned, and a read of the same range gets the bytes.
abbrev pub CanRead :
    {W : Type 0} → VmCalls W → ℕ → ℕ → List ℕ → Option (ℕ × MachVmMemory × W) → Type 0
CanRead k task a bytes none = ⊥
CanRead k task a bytes (some (n, m, w)) = IsBack bytes (read k false task a (length bytes) m w)

module _ {W : Type 0} {k : VmCalls W} {mem : W → ℕ → ℕ → ℕ} {task a : ℕ} (bytes : List ℕ)
    (maps : MappedLaws k mem task a (length bytes)) (reads : ReadLaws k mem)
    (writes : WriteLaws k mem) (sure : NoneFails k task) (some_bytes : 0 < length bytes)
    (end_ : a + length bytes < 2 ^ 64) (few : length bytes < 2 ^ 32) where
  read-IsBack :
      (w : W) (o : Option (ℕ × List ℕ × MachVmMemory × W))
      → bytes_at (mem w task) a (length bytes) ≡ bytes
      → IsRead mem task a (length bytes) (mem w task) o
      → IsAll (length bytes) o
      → IsBack bytes o
  read-IsBack w none stored h all = h
  read-IsBack w (some (n, buf, m, w')) stored h all =
      (all, h.1 ∙ ap (bytes_at (mem w task) a) all ∙ stored)

  stored-CanRead :
      (orig : ℕ → ℕ) (o : Option (ℕ × MachVmMemory × W))
      → IsStored mem task a (length bytes) bytes orig o
      → CanRead k task a bytes o
  stored-CanRead orig none h = h
  stored-CanRead orig (some (n, m, w)) h =
      read-IsBack w _ (bytes_at-stored (mem w task) a bytes end_ h.1)
        (read-IsRead reads task a (length bytes) m w (omega arith) some_bytes (omega arith))
        (read-IsAll reads task sure a (length bytes) m w (omega arith))

  pub read-write :
      (m : MachVmMemory) (w : W)
      → CanRead k task a bytes (write k task a (some bytes) (length bytes) m w)
  read-write m w =
      stored-CanRead (mem w task) _ (write-IsStored maps bytes m w writes end_ few (omega arith))
