-- ===== src/Process/Access/Returning/Tests.antt =====
-- Three bytes are written to a stopped process and read again.
use debug_learning.Prelude.{ℕ, refl, List, [], ◌∷◌, some, false, arith}
use debug_learning.Process.Access
use debug_learning.Process.Access.Returning.{IsReadBack, read_memory-write_memory}
use debug_learning.Process.Access.Sample.{
  Memory, vm, calls_with, mem_of, vm-ReadLaws, vm-WriteLaws, vm-MappedLaws,
}
use debug_learning.Process.Method.{◌>>=◌}
use debug_learning.Process.Sample.{stopped}

abbrev three_bytes : List ℕ
three_bytes = 0xaa ∷ 0xbb ∷ 0xcc ∷ []

abbrev empty : Memory
empty x = 0

-- across a page boundary
read_memory-write_memory_example : IsReadBack three_bytes (
    (do
      n ← Access.write_memory (calls_with vm) 0x3fff 3 (some three_bytes)
      Access.read_memory (calls_with vm) false 0x3fff 3)
      stopped empty)
read_memory-write_memory_example =
    read_memory-write_memory (calls_with vm) mem_of 0x3fff three_bytes stopped empty
      (vm-MappedLaws 0x3fff 3 (omega arith)) vm-ReadLaws vm-WriteLaws (λ a n w. refl) (omega arith)
      (omega arith) (omega arith) refl (omega arith)
