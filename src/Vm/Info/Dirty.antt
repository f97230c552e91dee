-- ===== src/Vm/Info/Dirty.antt =====
-- `get_dirty_pages` of MachVMMemory.cpp asks chunk by chunk; the pages that it finds are those of
-- one pass over all pages.
use native.Mathlib.Nat.{add-mul}
use debug_learning.Prelude.{
  ℕ, zero, suc, ◌+◌, ◌-◌, ◌*◌, ◌/◌, ◌^◌, ◌≤◌, ◌<◌, ◌≡◌, refl, sym, ◌∙◌, ap, ap₂, Bool, Option, some,
  none, List, [], ◌∷◌, ◌++◌, append_assoc, append-nil, arith, u32, u64, add64, ltb, leb, ◌/=◌,
  bit_and, if◌then◌else◌, Bool-cases, ◌⊎◌, inl, inr,
}
use debug_learning.Vm.Calls.{VmCalls}
use debug_learning.Vm.Info.{get_dirty_pages, dirty_chunks, dirty_in_chunk, page_dirty}

-- The address of page `i` behind `addr`.
abbrev pub page_at : ℕ → ℕ → ℕ → ℕ
page_at page addr i = add64 addr (u64 (i * page))

-- The addresses of the dirty ones among `n` pages, from page `i` on.
unfoldable pub dirty_pages : (ℕ → Bool) → ℕ → ℕ → ℕ → ℕ → List ℕ
dirty_pages dirty page addr i zero = []
dirty_pages dirty page addr i (suc n) =
    let rest = dirty_pages dirty page addr (i + 1) n in
    if dirty (page_at page addr i) then page_at page addr i ∷ rest else rest

module _ (dirty : ℕ → Bool) (page addr : ℕ) where
  dirty_pages-append :
      (i m n : ℕ)
      → dirty_pages dirty page addr i m ++ dirty_pages dirty page addr (i + m) n
        ≡ dirty_pages dirty page addr i (m + n)
  unfolding dirty_pages
  dirty_pages-append i zero n =
      let ei : i + 0 ≡ i = omega arith in
      let en : n ≡ 0 + n = omega arith in ap₂ (dirty_pages dirty page addr) ei en
  dirty_pages-append i (suc m) n =
      let ei : i + suc m ≡ i + 1 + m = omega arith in
      let en : suc m + n ≡ suc (m + n) = omega arith in
      rw (ei, en) (ground (arith, dirty_pages-append (i + 1) m n))

  page_at-page_at : (q i : ℕ) → page_at page (page_at page addr q) i ≡ page_at page addr (q + i)
  page_at-page_at q i = omega (arith, add-mul q i page)

  dirty_in_chunk-eq :
      (n i q : ℕ) (dispositions : ℕ → ℕ)
      → ((j : ℕ)
          → j < i + n
          → (bit_and (dispositions j) page_dirty /= 0)
            ≡ dirty (page_at page (page_at page addr q) j))
      → dirty_in_chunk page n i (page_at page addr q) dispositions
        ≡ dirty_pages dirty page addr (q + i) n
  unfolding dirty_in_chunk dirty_pages
  dirty_in_chunk-eq zero i q dispositions h = refl
  dirty_in_chunk-eq (suc n) i q dispositions h =
      let ei : q + (i + 1) ≡ q + i + 1 = omega arith in
      let rest =
        rw ei at (dirty_in_chunk-eq n (i + 1) q dispositions (λ j lt. h j (omega arith))) in
      ground (arith, h i (omega arith), page_at-page_at q i, rest)

-- What the kernel documents of the query: it answers for as many pages as it was asked for, and
-- marks the dirty ones.
pub record DirtyLaws {W : Type 0} (k : VmCalls W) (page task : ℕ) (dirty : ℕ → Bool) : Type 0 where
  pub answers :
      (a c : ℕ) (w : W)
      → let (kr, count, dispositions, w') =
          k.mach_vm_page_range_query task a (u64 (c * page)) c w in
        kr ≡ 0
        → (count ≡ c)
          × ((j : ℕ)
              → j < c
              → (bit_and (dispositions j) page_dirty /= 0) ≡ dirty (page_at page a j))

-- Every query for the task succeeds.
abbrev pub AllAnswered : {W : Type 0} → VmCalls W → ℕ → Type 0
AllAnswered {W} k task = (a size c : ℕ) (w : W) → (k.mach_vm_page_range_query task a size c w).0 ≡ 0

module _ {W : Type 0} (k : VmCalls W) (page task addr : ℕ) (dirty : ℕ → Bool) where
  -- The dirty ones among the first pages of the `n` from page `i` on, behind what was found before:
  -- all of the `n` if every query succeeds.
  abbrev pub Finds : List ℕ → ℕ → ℕ → List ℕ → Type 0
  Finds before i n found =
      (m : ℕ) × (m ≤ n)
      × (found ≡ before ++ dirty_pages dirty page addr i m)
      × (AllAnswered k task → m ≡ n)

  -- The answer for `pages` pages: none where they are too many for an `int`.
  abbrev pub FindsAll : ℕ → Option (List ℕ × W) → Type 0
  FindsAll pages none = 2 ^ 31 ≤ pages
  FindsAll pages (some (found, w)) = Finds [] 0 pages found

module _ {W : Type 0} (k : VmCalls W) (page task addr : ℕ) (dirty : ℕ → Bool)
    (laws : DirtyLaws k page task dirty) where
  -- A chunk of `asked` pages, and what the other chunks find.
  Finds-chunk :
      (before chunk found : List ℕ) (q q' n n' asked : ℕ)
      → chunk ≡ dirty_pages dirty page addr q asked
      → asked + n' ≡ n
      → (q + asked ≡ q') ⊎ (n' ≡ 0)
      → Finds k page task addr dirty (before ++ chunk) q' n' found
      → Finds k page task addr dirty before q n found
  unfolding dirty_pages
  Finds-chunk before chunk found q q' n n' asked ec en (inl eq) (m, le, ef, all) = (
    asked + m,
    omega arith,
    ef
        ∙ append_assoc before chunk (dirty_pages dirty page addr q' m)
        ∙ ap (λ l. before ++ l)
            (ap₂ (λ l x. l ++ dirty_pages dirty page addr x m) ec (sym eq)
              ∙ dirty_pages-append dirty page addr q asked m),
    λ a. omega (arith, all a),
  )
  Finds-chunk before chunk found q q' n n' asked ec en (inr none_left) (zero, le, ef, all) = (
    asked,
    omega arith,
    ef ∙ append-nil (before ++ chunk) ∙ ap (λ l. before ++ l) ec,
    λ a. omega arith,
  )
  Finds-chunk before chunk found q q' n n' asked ec en (inr none_left) (suc m, le, ef, all) =
      absurd (omega arith)

  -- the pages that a chunk from page `q` on asks for
  abbrev asked_of : ℕ → ℕ → ℕ
  asked_of pages q =
      let most = if ltb pages 4096 then pages else 4096 in
      if ltb (pages - q) most then pages - q else most

  asked_of-glue :
      (pages c n : ℕ)
      → suc n ≡ (pages - c * 4096 + 4095) / 4096
      → let asked = asked_of pages (c * 4096) in
        (asked + (pages - (c + 1) * 4096) ≡ pages - c * 4096)
        × ((c * 4096 + asked ≡ (c + 1) * 4096) ⊎ (pages - (c + 1) * 4096 ≡ 0))
        × (n ≡ (pages - (c + 1) * 4096 + 4095) / 4096)
  asked_of-glue pages c n e = (ground arith, last, ground arith)
    where
      last : (c * 4096 + asked_of pages (c * 4096) ≡ (c + 1) * 4096) ⊎ (pages - (c + 1) * 4096 ≡ 0)
      last = elim (Bool-cases (ltb (pages - c * 4096) 4096)) [
        | inl short ↦ inr (ground (arith, short))
        | inr long ↦ inl (ground (arith, e, long))
      ]

  dirty_chunks-Finds :
      (n c pages : ℕ) (before : List ℕ) (w : W)
      → n ≡ (pages - c * 4096 + 4095) / 4096
      → let most = if ltb pages 4096 then pages else 4096 in
        Finds k page task addr dirty before
          (c * 4096)
          (pages - c * 4096)
          (dirty_chunks k page n c task addr pages most before w).0
  unfolding dirty_chunks dirty_pages
  dirty_chunks-Finds zero c pages before w e =
      (0, omega arith, sym (append-nil before), λ all. omega arith)
  dirty_chunks-Finds (suc n) c pages before w e =
      let asked = asked_of pages (c * 4096) in
      let start = page_at page addr (c * 4096) in
      let (kr, count, dispositions, w') =
        k.mach_vm_page_range_query task start (u64 (asked * page)) asked w in
      elim (Bool-cases (kr /= 0)) [
        | inl failed ↦ rw failed (
          0,
          omega arith,
          sym (append-nil before),
          λ all. absurd (ground (arith, failed, all start (u64 (asked * page)) asked w)),
        )
        | inr ok ↦ rw ok (
            let (en, eq, left) = asked_of-glue pages c n e in
            let (ec, truth) = laws.answers start asked w (ground (arith, ok)) in
            Finds-chunk before (dirty_in_chunk page count 0 start dispositions) _ (c * 4096)
              ((c + 1) * 4096) (pages - c * 4096) (pages - (c + 1) * 4096) asked
              (ap (λ x. dirty_in_chunk page x 0 start dispositions) ec
                ∙ dirty_in_chunk-eq dirty page addr asked 0 (c * 4096) dispositions
                    (λ j lt. truth j (omega arith))
                ∙ ap (λ q. dirty_pages dirty page addr q asked) (omega arith))
              en eq (dirty_chunks-Finds n (c + 1) pages _ w' left))
      ]

  -- `get_dirty_pages` has a defined answer where the count of the pages is an `int`. Over a kernel
  -- that answers a query as documented, this is the list of the dirty ones among the first pages of
  -- the range, found in one pass; if no query fails, among all of them.
  pub get_dirty_pages-FindsAll :
      (size : ℕ) (w : W)
      → FindsAll k page task addr dirty
          (u32 (size / page))
          (get_dirty_pages k page task addr size w)
  unfolding get_dirty_pages
  get_dirty_pages-FindsAll size w =
      let pages = u32 (size / page) in
      elim (Bool-cases (leb (2 ^ 31) pages)) [
        | inl many ↦ rw many (ground (arith, many))
        | inr few ↦ rw few (
            let whole : pages - 0 ≡ pages = omega arith in
            let chunks = (pages + 4096 - 1) / 4096 in
            rw whole at (dirty_chunks-Finds chunks 0 pages [] w (omega arith)))
      ]
