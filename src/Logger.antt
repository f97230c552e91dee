-- ===== src/Logger.antt =====
-- mac_ptrace/logger.hpp: how a sequence, a map and a line of the log are printed.
--
-- Printing one item is `std::ostream`'s work, so an item is the
-- text that it prints as. The stream, its mutex and the clock are those of Logger/Output; here the
-- time is an argument.
pub mod Joining
pub mod Output
mod Tests
use debug_learning.Prelude.{
  Text, ℕ, ◌+◌, ◌-◌, List, [], ◌∷◌, ◌++◌, map, length, ◌/=◌, if◌then◌else◌,
}

abbrev pub char : ℕ → Text
char c = c ∷ []

-- The loop of `logIteratorable`, at the item `i` of `n`: a comma unless the item is the last one.
unfoldable pub log_items : ℕ → ℕ → List Text → Text
log_items n i [] = []
log_items n i (x ∷ xs) = x ++ ((if i /= n - 1 then char b',' else []) ++ log_items n (i + 1) xs)

-- `logIteratorable`
unfoldable pub log_iteratorable : List Text → Text
unfolding log_items
log_iteratorable xs = char b'[' ++ (log_items (length xs) 0 xs ++ char b']')

-- `operator<<` of a pair
abbrev pub log_pair : Text × Text → Text
log_pair (key, value) = key ++ (char b':' ++ value)

-- The loop of `logKeyValues`, with `size` pairs left: a comma unless none is left behind the pair.
unfoldable pub log_pairs : ℕ → List (Text × Text) → Text
log_pairs size [] = []
log_pairs size (p ∷ ps) =
    log_pair p ++ ((if size - 1 /= 0 then char b',' else []) ++ log_pairs (size - 1) ps)

-- `logKeyValues`
unfoldable pub log_key_values : List (Text × Text) → Text
unfolding log_pairs
log_key_values ps = char b'{' ++ (log_pairs (length ps) ps ++ char b'}')

-- `_log`
unfoldable pub log_args : List Text → Text
log_args [] = char 10
log_args (x ∷ xs) = x ++ (char b' ' ++ log_args xs)

-- `log`, at the time `timestamp`
unfoldable pub log : Text → List Text → Text
unfolding log_args
log timestamp args = char b'[' ++ (timestamp ++ (char b']' ++ log_args args))
