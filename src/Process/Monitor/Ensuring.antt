-- ===== src/Process/Monitor/Ensuring.antt =====
-- What a method of MachProcess.cpp leaves of the object and of the system where it returns.
use Prim.{Unit, tt}
use debug_learning.Prelude.{Bool, true, false, if◌then◌else◌}
use debug_learning.Outcome.{Outcome, returned, thrown, aborted, endless}
use debug_learning.Process.Method.{MachProcess, Action, proceed}

-- The method returned, with an object and a state for which `P` holds; or it did not return.
abbrev pub Ensures :
    {W A : Type 0} → (MachProcess → W → Type 0) → Outcome A × MachProcess × W → Type 0
Ensures P (returned a, p, w) = P p w
Ensures P (thrown c, p, w) = Unit
Ensures P (aborted, p, w) = Unit
Ensures P (endless, p, w) = Unit

pub Ensures-proceed :
    {W A B : Type 0} (P Q : MachProcess → W → Type 0) (f : A → Action W B) (o : Outcome A)
    (p : MachProcess) (w : W)
    → Ensures P (o, p, w)
    → ((a : A) → P p w → Ensures Q (f a p w))
    → Ensures Q (proceed f o p w)
Ensures-proceed P Q f (returned a) p w h next = next a h
Ensures-proceed P Q f (thrown c) p w h next = tt
Ensures-proceed P Q f aborted p w h next = tt
Ensures-proceed P Q f endless p w h next = tt

pub Ensures-map :
    {W A : Type 0} (P Q : MachProcess → W → Type 0) (o : Outcome A) (p : MachProcess) (w : W)
    → (P p w → Q p w)
    → Ensures P (o, p, w)
    → Ensures Q (o, p, w)
Ensures-map P Q (returned a) p w f h = f h
Ensures-map P Q (thrown c) p w f h = tt
Ensures-map P Q aborted p w f h = tt
Ensures-map P Q endless p w f h = tt

pub Ensures-if :
    {W A : Type 0} (P : MachProcess → W → Type 0) (test : Bool) (x y : Outcome A × MachProcess × W)
    → Ensures P x
    → Ensures P y
    → Ensures P (if test then x else y)
Ensures-if P true x y hx hy = hx
Ensures-if P false x y hx hy = hy
