-- ===== src/Logger/Joining.antt =====
-- The separators of logger.hpp stand between the items and nowhere else.
use debug_learning.Prelude.{
  Text, ℕ, ◌+◌, ◌-◌, ◌≡◌, refl, ap, List, [], ◌∷◌, ◌++◌, map, append-nil, length, arith, ne→/=_true,
}
use debug_learning.Logger.{char, log_items, log_iteratorable, log_pair, log_pairs, log_key_values}

-- The texts with `sep` between two of them.
abbrev pub join : Text → List Text → Text
join sep [] = []
join sep (x ∷ []) = x
join sep (x ∷ y ∷ ys) = x ++ (sep ++ join sep (y ∷ ys))

log_items-join :
    (n i : ℕ) (xs : List Text) → i + length xs ≡ n → log_items n i xs ≡ join (char b',') xs
unfolding log_items
log_items-join n i [] h = refl
log_items-join n i (x ∷ []) h =
    let last : i ≡ n - 1 = omega arith in rw (← last) (ground (arith, append-nil x))
log_items-join n i (x ∷ y ∷ ys) h =
    rw (ne→/=_true i (n - 1) (omega arith))
      (ap (λ t. x ++ (char b',' ++ t)) (log_items-join n (i + 1) (y ∷ ys) (omega arith)))

log_pairs-join :
    (size : ℕ) (ps : List (Text × Text))
    → length ps ≡ size
    → log_pairs size ps ≡ join (char b',') (map log_pair ps)
unfolding log_pairs
log_pairs-join size [] h = refl
log_pairs-join size (p ∷ []) h =
    let none_left : size - 1 ≡ 0 = omega arith in rw none_left (append-nil (log_pair p))
log_pairs-join size (p ∷ q ∷ qs) h =
    rw (ne→/=_true (size - 1) 0 (omega arith))
      (ap (λ t. log_pair p ++ (char b',' ++ t)) (log_pairs-join (size - 1) (q ∷ qs) (omega arith)))

-- A sequence and a map are printed with a comma between two items and none at the ends, though one
-- loop finds the last item by its position and the other by a count.
pub log-join :
    (xs : List Text) (ps : List (Text × Text))
    → (log_iteratorable xs ≡ char b'[' ++ (join (char b',') xs ++ char b']'))
      × (log_key_values ps ≡ char b'{' ++ (join (char b',') (map log_pair ps) ++ char b'}'))
unfolding log_iteratorable log_key_values
log-join xs ps = (
  ap (λ t. char b'[' ++ (t ++ char b']')) (log_items-join (length xs) 0 xs (omega arith)),
  ap (λ t. char b'{' ++ (t ++ char b'}')) (log_pairs-join (length ps) ps refl),
)
