-- ===== src/Vm/Profile/Caching.antt =====
-- What GetMemoryProfile of MachVMMemory.cpp reports, and what it remembers between two calls.
use debug_learning.Prelude.{ℕ, ◌+◌, ◌^◌, ◌≤◌, ◌<◌, ◌≡◌, ◌∙◌, sym, true, List, [], ◌∷◌, arith, u32}
use debug_learning.Prelude.Bits.{bit, bit_and-power}
use debug_learning.Vm.Profile.{
  ProfileCalls, Statics, Profile, get_physical_memory, ask_local_host, get_memory_profile,
  profile_memory,
}

module _ {W Stats : Type 0} (k : ProfileCalls W Stats) where
  -- What a scan does not ask for stays as it was: the memory of the host, the statistics and the
  -- footprint of the task, the anonymous memory of the task, and always the cap.
  pub get_memory_profile-keeps :
      (scan task : ℕ) (q : Profile Stats) (s : Statics) (w : W)
      → let (ok, q', s', w') = get_memory_profile k scan task q s w in
        (bit 5 scan ≡ 0
          → (q'.physical_memory ≡ q.physical_memory) × (s'.physical_memory ≡ s.physical_memory))
        × (bit 6 scan ≡ 0
            → (q'.vminfo ≡ q.vminfo)
              × (q'.anonymous ≡ q.anonymous)
              × (q'.phys_footprint ≡ q.phys_footprint))
        × (bit 8 scan ≡ 0 → q'.anonymous ≡ q.anonymous)
        × (q'.memory_cap ≡ q.memory_cap)
  unfolding get_memory_profile
  get_memory_profile-keeps scan task q s w =
      ground (arith, bit_and-power 5 scan, bit_and-power 6 scan, bit_and-power 8 scan)

  -- A task that the kernel describes has its footprint reported and, with the bit for it, what is
  -- internal or compressed less what is purgeable, where that does not overflow.
  profile_memory_lem :
      (scan task : ℕ) (q : Profile Stats) (s : Statics) (w : W)
      → let (host, s1, w1) = ask_local_host k s w in
        let (kr, i, w3) = k.task_vm_info task (k.host_statistics64 host q.vminfo w1).1 in
        let (q', s', w') = profile_memory k scan task q s w in
        u32 kr ≡ 0
        → (q'.phys_footprint ≡ i.phys_footprint)
          × (bit 8 scan ≡ 1
              → i.internal + i.compressed < 2 ^ 64
              → i.purgeable_volatile_pmap ≤ i.internal + i.compressed
              → q'.anonymous + i.purgeable_volatile_pmap ≡ i.internal + i.compressed)
  unfolding profile_memory
  profile_memory_lem scan task q s w = ground (arith, bit_and-power 8 scan)

  -- A scan, with the profile that it fills and the state in which it is made.
  abbrev pub Scan : Type 0
  Scan = ℕ × ℕ × Profile Stats × W

  -- the static variables after some scans, one after the other
  abbrev pub statics_after : List Scan → Statics → Statics
  statics_after [] s = s
  statics_after ((scan, task, q, w) ∷ more) s =
      let (ok, q', s', w') = get_memory_profile k scan task q s w in statics_after more s'

  abbrev Remembers : ℕ → Statics → Type 0
  Remembers value s = (s.calculated ≡ true) × (s.physical_memory ≡ value)

  -- No scan forgets.
  get_memory_profile-Remembers :
      (value scan task : ℕ) (q : Profile Stats) (s : Statics) (w : W)
      → Remembers value s
      → let (ok, q', s', w') = get_memory_profile k scan task q s w in Remembers value s'
  unfolding get_memory_profile
  get_memory_profile-Remembers value scan task q s w h = ground arith

  statics_after-Remembers :
      (value : ℕ) (scans : List Scan) (s : Statics)
      → Remembers value s
      → Remembers value (statics_after scans s)
  statics_after-Remembers value [] s h = h
  statics_after-Remembers value ((scan, task, q, w) ∷ more) s h =
      let (ok, q', s', w') = get_memory_profile k scan task q s w in
      statics_after-Remembers value more s' (get_memory_profile-Remembers value scan task q s w h)

  first_scan-Remembers :
      (scan task : ℕ) (q : Profile Stats) (s : Statics) (w : W)
      → bit 5 scan ≡ 1
      → let (ok, q', s', w') = get_memory_profile k scan task q s w in
        let value = (get_physical_memory k s w).0 in
        (q'.physical_memory ≡ value) × Remembers value s'
  unfolding get_memory_profile
  first_scan-Remembers scan task q s w h =
      ground (arith, bit_and-power 5 scan, bit_and-power 6 scan)

  reported :
      (value scan task : ℕ) (q : Profile Stats) (s : Statics) (w : W)
      → bit 5 scan ≡ 1
      → Remembers value s
      → let (ok, q', s', w') = get_memory_profile k scan task q s w in
        (q'.physical_memory ≡ value) × (bit 6 scan ≡ 0 → w' ≡ w)
  unfolding get_memory_profile
  reported value scan task q s w h known =
      ground (arith, bit_and-power 5 scan, bit_and-power 6 scan)

  -- The system is asked for the memory of the host once. After a scan with that bit, each later one
  -- with it reports the same value, whatever scans were made between the two, with that bit or
  -- without, whatever the system would answer then, and whether the first question succeeded or not;
  -- and a later scan without the bit for the memory of the task asks the system for nothing.
  pub get_memory_profile_again :
      (scan1 scan2 task1 task2 : ℕ) (q1 q2 : Profile Stats) (s : Statics) (w later : W)
      (between : List Scan)
      → bit 5 scan1 ≡ 1
      → bit 5 scan2 ≡ 1
      → let (ok1, q1', s1, w1) = get_memory_profile k scan1 task1 q1 s w in
        let (ok2, q2', s2, w2) =
          get_memory_profile k scan2 task2 q2 (statics_after between s1) later in
        (q1'.physical_memory ≡ (get_physical_memory k s w).0)
        × (q2'.physical_memory ≡ q1'.physical_memory)
        × (bit 6 scan2 ≡ 0 → w2 ≡ later)
  get_memory_profile_again scan1 scan2 task1 task2 q1 q2 s w later between h1 h2 =
      let value = (get_physical_memory k s w).0 in
      let (ok1, q1', s1, w1) = get_memory_profile k scan1 task1 q1 s w in
      let (first, known) = first_scan-Remembers scan1 task1 q1 s w h1 in
      let s' = statics_after between s1 in
      let (second, quiet) =
        reported value scan2 task2 q2 s' later h2
          (statics_after-Remembers value between s1 known) in
      (first, second ∙ sym first, quiet)
