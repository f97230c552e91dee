-- ===== src/Exception/Ports/Sample.antt =====
-- A kernel for the tests that keeps a handler for each exception.
use debug_learning.Prelude.{
  ℕ, zero, suc, ◌+◌, ◌^◌, ◌/◌, ◌<◌, ◌≡◌, refl, ltb, arith, u32, Bool, true, false, ◌==◌,
  if◌then◌else◌, ap, sym, subst,
}
use debug_learning.Prelude.Bits.{bit, bit-zero}
use debug_learning.Sdk.{kern_invalid_argument}
use debug_learning.Exception.Ports.{Entry, PortInfo, PortCalls}
use debug_learning.Exception.Ports.Returning.{HandlerLaws, settings}

-- the handler for each exception
abbrev pub Handlers : Type 0
Handlers = ℕ → ℕ × ℕ × ℕ

abbrev pub entry_of : Handlers → ℕ → Entry
entry_of w i =
    let (port, behavior, flavor) = w i in
    record { mask = 2 ^ i; port = port; behavior = behavior; flavor = flavor }

abbrev listed : Bool → (ℕ → Entry) → Handlers → ℕ × ℕ × (ℕ → Entry) × Handlers
listed true entries w = (0, 14, entry_of w, w)
listed false entries w = (kern_invalid_argument, 0, entries, w)

abbrev pub kernel : PortCalls Handlers
kernel = record {
  task_get_exception_ports = λ t mask n entries w. listed (ltb mask (2 ^ 14)) entries w;
  task_set_exception_ports = λ t e w. (0, λ b. if bit b e.mask == 1 then settings e else w b);
}

abbrev pub handler_of : Handlers → ℕ → ℕ → ℕ × ℕ × ℕ
handler_of w t = w

bit-power : (b i : ℕ) → bit b (2 ^ i) ≡ 1 → b ≡ i
bit-power zero zero h = refl
bit-power zero (suc i) h = absurd (omega arith)
bit-power (suc b) zero h = absurd (omega (arith, bit-zero b))
bit-power (suc b) (suc i) h =
    let half : 2 ^ suc i / 2 ≡ 2 ^ i = omega arith in
    ap suc (bit-power b i (subst (λ n. bit b n ≡ 1) half h))

bit-own : (b : ℕ) → bit b (2 ^ b) ≡ 1
bit-own zero = refl
bit-own (suc b) =
    let half : 2 ^ suc b / 2 ≡ 2 ^ b = omega arith in
    subst (λ n. bit b n ≡ 1) (sym half) (bit-own b)

bit-below : (n b mask : ℕ) → mask < 2 ^ n → bit b mask ≡ 1 → b < n
bit-below zero b mask h e =
    let none_left : mask ≡ 0 = omega arith in
    absurd (omega (arith, bit-zero b, subst (λ m. bit b m ≡ 1) none_left e))
bit-below (suc n) zero mask h e = omega arith
bit-below (suc n) (suc b) mask h e =
    let rest = bit-below n b (mask / 2) (omega arith) e in omega (arith, rest)

listed-describes :
    (known : Bool) (e : ℕ → Entry) (w : Handlers) (b i : ℕ)
    → let (kr, count, entries, w') = listed known e w in
      u32 kr ≡ 0 → bit b (entries i).mask ≡ 1 → settings (entries i) ≡ w b
listed-describes true e w b i ok has = ap w (sym (bit-power b i has))
listed-describes false e w b i ok has = absurd (omega (arith, ok))

listed-covers :
    (known : Bool) (e : ℕ → Entry) (w : Handlers) (mask b : ℕ)
    → ltb mask (2 ^ 14) ≡ known
    → let (kr, count, entries, w') = listed known e w in
      u32 kr ≡ 0 → bit b mask ≡ 1 → (i : ℕ) × (i < count) × (bit b (entries i).mask ≡ 1)
listed-covers true e w mask b h ok has = (b, bit-below 14 b mask (ground (arith, h)) has, bit-own b)
listed-covers false e w mask b h ok has = absurd (omega (arith, ok))

listed-keeps : (known : Bool) (e : ℕ → Entry) (w : Handlers) (b : ℕ) → (listed known e w).3 b ≡ w b
listed-keeps true e w b = refl
listed-keeps false e w b = refl

pub kernel-HandlerLaws : HandlerLaws kernel handler_of
kernel-HandlerLaws = record {
  describes = λ t mask b i e w ok lt has. listed-describes (ltb mask (2 ^ 14)) e w b i ok has;
  covers = λ t mask b e w ok has. listed-covers (ltb mask (2 ^ 14)) e w mask b refl ok has;
  get_keeps = λ t mask b e w. listed-keeps (ltb mask (2 ^ 14)) e w b;
  sets = λ t b e w ok has. ground (arith, has);
  spares = λ t b e w lacks. ground (arith, lacks);
}

-- What the task had before, what the debugger set, and an object without ports.
abbrev pub before : Handlers
before b = (b + 100, 1, 5)

abbrev pub during : Handlers
during b = (7, 2, 0)

abbrev pub no_ports : PortInfo
no_ports = record { mask = 0; entries = entry_of during; count = 0 }
