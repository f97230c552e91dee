-- ===== src/Int3/Joining.antt =====
-- What the main thread of linux_int3/main.cpp knows of the other threads where it joins them.
use Prim.{Unit, tt}
use debug_learning.Prelude.{ℕ, zero, suc, ◌+◌, ◌≤◌, ◌≡◌, ◌≢◌, refl, arith}
use debug_learning.Int3.{
  MainPoint, announcing, calling, joining_thrower, joining_worker, ended, ThrowerPoint, to_announce,
  to_call, thrown_out, join_thrower, join_worker,
}

-- The INT3 that a thread has run where it is there.
abbrev pub main_calls : MainPoint → ℕ
main_calls announcing = 0
main_calls calling = 0
main_calls joining_thrower = 1
main_calls joining_worker = 1
main_calls ended = 1

abbrev pub thrower_calls : ThrowerPoint → ℕ
thrower_calls to_announce = 0
thrower_calls to_call = 0
thrower_calls thrown_out = 1

-- What the point of the main thread says of the others.
abbrev pub IsJoined : MainPoint → ThrowerPoint → ℕ → Type 0
IsJoined announcing q rounds = Unit
IsJoined calling q rounds = Unit
IsJoined joining_thrower q rounds = Unit
IsJoined joining_worker q rounds = q ≡ thrown_out
IsJoined ended q rounds = (q ≡ thrown_out) × (rounds ≡ 0)

-- Before the thread has run its INT3, the main thread waits for it.
pub IsJoined-before :
    (m : MainPoint) (q q' : ThrowerPoint) (r : ℕ)
    → q ≢ thrown_out
    → IsJoined m q r
    → IsJoined m q' r
IsJoined-before announcing q q' r early h = tt
IsJoined-before calling q q' r early h = tt
IsJoined-before joining_thrower q q' r early h = tt
IsJoined-before joining_worker q q' r early h = absurd (early h)
IsJoined-before ended q q' r early h = absurd (early h.0)

-- While the worker has a round left, the main thread has not ended.
pub IsJoined-round :
    (m : MainPoint) (q : ThrowerPoint) (r r' : ℕ) → r ≢ 0 → IsJoined m q r → IsJoined m q r'
IsJoined-round announcing q r r' left h = tt
IsJoined-round calling q r r' left h = tt
IsJoined-round joining_thrower q r r' left h = tt
IsJoined-round joining_worker q r r' left h = h
IsJoined-round ended q r r' left h = absurd (left h.1)

pub join_thrower-IsJoined :
    (q : ThrowerPoint) (r : ℕ) → IsJoined (join_thrower q) q r × (main_calls (join_thrower q) ≡ 1)
join_thrower-IsJoined to_announce r = (tt, refl)
join_thrower-IsJoined to_call r = (tt, refl)
join_thrower-IsJoined thrown_out r = (refl, refl)

pub join_worker-IsJoined :
    (q : ThrowerPoint) (r : ℕ)
    → q ≡ thrown_out
    → IsJoined (join_worker r) q r × (main_calls (join_worker r) ≡ 1)
join_worker-IsJoined q zero h = ((h, refl), refl)
join_worker-IsJoined q (suc r) h = (h, refl)

pub calls_bound :
    (m : MainPoint) (q : ThrowerPoint) (r : ℕ)
    → IsJoined m q r
    → (main_calls m + thrower_calls q ≤ 2)
      × (m ≡ ended → (main_calls m + thrower_calls q ≡ 2) × (q ≡ thrown_out) × (r ≡ 0))
calls_bound m q r h = ground arith
