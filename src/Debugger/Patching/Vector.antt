-- ===== src/Debugger/Patching/Vector.antt =====
-- The bytes that `main` of mac_ptrace/main.cpp reads at `ADDR`, and what it makes of them.
use debug_learning.Prelude.{
  ℕ, ◌+◌, ◌-◌, ◌<◌, ◌≤◌, ◌^◌, ◌≡◌, refl, List, ◌∷◌, ◌++◌, true, false, drop, length, replicate,
  get_or, get_or-append, get_or-append_far, get_or-replicate, get_or-drop, arith, ltb, zero, suc,
  if◌then◌else◌, sub64, add64, ap, ◌∙◌, Bool-cases, inl, inr, length-append, length-replicate,
}
use debug_learning.Vm.Memory.Reading.{bytes_at, length-bytes_at, get_or-bytes_at}
use debug_learning.Debugger.{addr}

-- The vector of `size` bytes, the first `n` of which were read from `a`.
abbrev pub vector : (ℕ → ℕ) → ℕ → ℕ → ℕ → List ℕ
vector orig a n size = bytes_at orig a n ++ replicate (size - n) 0

-- The memory where `n` of the twelve bytes were read: the first two are zero, those that were not
-- read too, and all else is `orig`.
abbrev pub patched : (ℕ → ℕ) → ℕ → ℕ → ℕ
patched orig n x =
    let i = sub64 x addr in
    if ltb i 2 then 0 else if ltb i n then orig x else if ltb i 12 then 0 else orig x

get_or-two_zeros :
    (v : List ℕ) (i : ℕ) → get_or (0 ∷ 0 ∷ drop 2 v) i 0 ≡ (if ltb i 2 then 0 else get_or v i 0)
get_or-two_zeros v zero = refl
get_or-two_zeros v (suc zero) = refl
get_or-two_zeros v (suc (suc i)) =
    let far : ltb (suc (suc i)) 2 ≡ false = ground arith in
    let e : 2 + i ≡ suc (suc i) = omega arith in
    rw far (get_or-drop 2 i v 0 ∙ ap (λ k. get_or v k 0) e)

get_or-vector :
    (orig : ℕ → ℕ) (a n size i : ℕ)
    → a < 2 ^ 64
    → get_or (vector orig a n size) i 0 ≡ (if ltb i n then orig (add64 a i) else 0)
get_or-vector orig a n size i ha = elim (Bool-cases (ltb i n)) [
  | inl near ↦ rw near (
      get_or-append (bytes_at orig a n) (replicate (size - n) 0) i 0
        (omega (arith, length-bytes_at orig a n, lt near))
      ∙ get_or-bytes_at orig a n i 0 ha (lt near))
  | inr far ↦ rw far (
      get_or-append_far (bytes_at orig a n) (replicate (size - n) 0) i 0
        (omega (arith, length-bytes_at orig a n, ge far))
      ∙ get_or-replicate (size - n) _ 0)
]
  where
    lt : ltb i n ≡ true → i < n
    lt h = ground arith

    ge : ltb i n ≡ false → n ≤ i
    ge h = ground arith

pub get_or-patched :
    (orig : ℕ → ℕ) (n x : ℕ)
    → n ≤ 12
    → x < 2 ^ 64
    → sub64 x addr < 12
    → get_or (0 ∷ 0 ∷ drop 2 (vector orig addr n 12)) (sub64 x addr) 0 ≡ patched orig n x
get_or-patched orig n x hn hx near =
    let back : add64 addr (sub64 x addr) ≡ x = omega arith in
    let inside : ltb (sub64 x addr) 12 ≡ true = ground arith in
    let first = get_or-two_zeros (vector orig addr n 12) (sub64 x addr) in
    let rest = get_or-vector orig addr n 12 (sub64 x addr) (omega arith) in
    rw (first, rest, back, inside) refl

pub length-vector : (orig : ℕ → ℕ) (n : ℕ) → n ≤ 12 → length (vector orig addr n 12) ≡ 12
length-vector orig n hn = omega (
  arith,
  length-append (bytes_at orig addr n) (replicate (12 - n) 0),
  length-bytes_at orig addr n,
  length-replicate {A = ℕ} (12 - n) 0,
)
