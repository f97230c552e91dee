-- ===== src/Vm/Profile/Tests.antt =====
-- A system whose state is the memory that it has, and the profile of a task on it.
use debug_learning.Prelude.{ℕ, ◌+◌, ◌^◌, ◌≡◌, refl, List, [], ◌∷◌}
use debug_learning.Vm.Profile.{
  ProfileCalls, Profile, first_statics, get_physical_memory, get_memory_profile,
}
use debug_learning.Vm.Profile.Caching.{Scan, statics_after, get_memory_profile_again}

abbrev sample : ProfileCalls ℕ ℕ
sample = record {
  sysctl_memsize = λ old w. (w, w);
  mach_host_self = λ w. (3, w);
  host_statistics64 = λ host stats w. (stats + 1, w);
  task_vm_info = λ task w. (
    0,
    record { internal = 5; compressed = 3; purgeable_volatile_pmap = 2; phys_footprint = 9 },
    w,
  );
}

abbrev unset : Profile ℕ
unset = record {
  vminfo = 0;
  physical_memory = 0;
  anonymous = 0;
  phys_footprint = 0;
  memory_cap = 0;
}

-- all that is looked at
profile-all :
    (get_memory_profile sample (2 ^ 8 + 2 ^ 6 + 2 ^ 5) 77 unset first_statics (2 ^ 34)).1 ≡ record {
      vminfo = 1;
      physical_memory = 2 ^ 34;
      anonymous = 6;
      phys_footprint = 9;
      memory_cap = 0;
    }
unfolding get_memory_profile
profile-all = refl

-- between the two: a scan without the bit, and one with it
abbrev others : List (Scan sample)
others = (64, 77, unset, 5) ∷ (32, 78, unset, 6) ∷ []

get_memory_profile_again_example :
    let (ok1, q1, s1, w1) = get_memory_profile sample 32 77 unset first_statics (2 ^ 34) in
    let (ok2, q2, s2, w2) =
      get_memory_profile sample 32 77 unset (statics_after sample others s1) (2 ^ 35) in
    (q1.physical_memory ≡ (get_physical_memory sample first_statics (2 ^ 34)).0)
    × (q2.physical_memory ≡ q1.physical_memory)
    × (◌≡◌ {A = ℕ} 0 0 → w2 ≡ 2 ^ 35)
get_memory_profile_again_example =
    get_memory_profile_again sample 32 32 77 77 unset unset first_statics (2 ^ 34) (2 ^ 35) others
      refl refl
