-- ===== src/Vm/Info/Tests.antt =====
-- A kernel with one region of 5000 pages, of which the even ones are dirty, and the theorems at it.
use debug_learning.Prelude.{
  ℕ, ◌+◌, ◌/◌, ◌%◌, ◌*◌, ◌≡◌, refl, Bool, true, false, [], ◌∷◌, some, ◌==◌, ◌/=◌, bit_and,
  if◌then◌else◌, arith,
}
use debug_learning.Vm.Calls.{VmCalls}
use debug_learning.Vm.Region.{new_region, get_region_for_address}
use debug_learning.Vm.Info.{DnbRegionInfo, get_memory_region_info, get_dirty_pages, page_dirty}
use debug_learning.Vm.Info.Covering.{Covers, get_memory_region_info-Covers}
use debug_learning.Vm.Info.Dirty.{page_at, DirtyLaws, FindsAll, get_dirty_pages-FindsAll}

abbrev is_even : ℕ → Bool
is_even a = a / 0x1000 % 2 == 0

abbrev marks : Bool → ℕ
marks dirty = if dirty then 8 else 0

abbrev kernel : VmCalls ℕ
kernel = record {
  mach_vm_protect = λ t a n max p w. (0, w);
  mach_vm_region_recurse = λ t a size depth info w. (
    record {
      kr = 0;
      start = 0x10000;
      size = 5000 * 0x1000;
      depth = 0;
      info = record { protection = 1; user_tag = 30; share_mode = 0 };
    },
    w,
  );
  task_vm_page_size = λ t w. (0, 0x1000, w);
  host_page_size = λ w. (0, 0x1000, w);
  mach_vm_read = λ t a n w. (5, [], w);
  mach_vm_write = λ t a bytes w. (5, w);
  vm_machine_attribute = λ t a n w. (5, w);
  mach_vm_page_range_query =
      λ t a size count w. (0, count, λ i. marks (is_even (page_at 0x1000 a i)), w + 1);
}

marked : (b : Bool) → (bit_and (marks b) page_dirty /= 0) ≡ b
marked true = refl
marked false = refl

kernel-DirtyLaws : DirtyLaws kernel 0x1000 7 is_even
kernel-DirtyLaws = record {
  answers = λ a c w h. (refl, λ j lt. marked (is_even (page_at 0x1000 a j)));
}

get_dirty_pages-FindsAll_example :
    FindsAll kernel 0x1000 7 0x10000 is_even 5000
      (get_dirty_pages kernel 0x1000 7 0x10000 (5000 * 0x1000) 0)
get_dirty_pages-FindsAll_example =
    get_dirty_pages-FindsAll kernel 0x1000 7 0x10000 is_even kernel-DirtyLaws (5000 * 0x1000) 0

dirty-three : get_dirty_pages kernel 0x1000 7 0x10000 0x3fff 0 ≡ some (0x10000 ∷ 0x12000 ∷ [], 1)
unfolding get_dirty_pages
dirty-three = refl

abbrev no_info : DnbRegionInfo
no_info = record { addr = 0; size = 0; permissions = 0; dirty_pages = []; vm_types = [] }

get_memory_region_info-Covers_example :
    Covers 0x1000 0x8000
      (get_region_for_address kernel (new_region 7) 0x8000 0)
      (get_memory_region_info kernel 0x1000 7 0x8000 no_info 0)
get_memory_region_info-Covers_example =
    get_memory_region_info-Covers kernel 0x1000 7 0x8000 no_info 0 (omega arith)
