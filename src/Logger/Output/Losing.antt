-- ===== src/Logger/Output/Losing.antt =====
-- `setOutput` of mac_ptrace/logger.hpp with a path that cannot be opened: the test for it is `bad()`,
-- which a stream that failed to open does not answer true to.
use Prim.{tt}
use debug_learning.Prelude.{Text, ℕ, Bool, false, List, [], ◌∷◌, ◌≡◌, refl, ◌∙◌, ap}
use debug_learning.Outcome.{returned}
use debug_learning.Logger.{log}
use debug_learning.Logger.Output.{Logger, file, StreamCalls, set_output, print_line}

-- What is documented of file streams. `is_good s w` says that the stream `s` can be written to, and
-- `content w` is what all files hold. A failure to open sets `failbit` alone, so `bad()` is false;
-- what is written to a stream that is not good is dropped.
pub record FileLaws {W C : Type 0} (k : StreamCalls W) (is_good : ℕ → W → Bool) (content : W → C)
    : Type 0 where
  pub opens : (path : Text) (w : W) → let (s, w') = k.open_file path w in k.is_bad s w' ≡ false
  pub drops :
      (s : ℕ) (text : Text) (w : W)
      → is_good s w ≡ false
      → let w' = k.print (file s) text w in (content w' ≡ content w) × (is_good s w' ≡ false)
  pub tells :
      (s : ℕ) (w : W)
      → let w' = (k.now w).1 in (content w' ≡ content w) × (is_good s w' ≡ is_good s w)

module _ {W : Type 0} (k : StreamCalls W) where
  -- The lines are logged one after the other.
  abbrev pub print_lines : List (List Text) → Logger → W → W
  print_lines [] l w = w
  print_lines (line ∷ lines) l w = print_lines lines l (print_line k line l w)

  module _ {C : Type 0} {is_good : ℕ → W → Bool} {content : W → C}
      (laws : FileLaws k is_good content) where
    print_lines-keeps :
        (s : ℕ) (lines : List (List Text)) (l : Logger) (w : W)
        → l.target ≡ file s
        → is_good s w ≡ false
        → content (print_lines lines l w) ≡ content w
    unfolding print_line
    print_lines-keeps s [] l w h closed = refl
    print_lines-keeps s (line ∷ lines) l w h closed =
        let (time, w1) = k.now w in
        let w2 = k.print l.target (log time line) w1 in
        let told = laws.tells s w in
        let kept = laws.drops s (log time line) w1 (told.1 ∙ closed) in
        let same = ap (λ t. k.print t (log time line) w1) h in
        print_lines-keeps s lines l w2 h (ap (is_good s) same ∙ kept.1)
        ∙ ap content same
        ∙ kept.0
        ∙ told.0

    -- With a path that cannot be opened, `setOutput` returns all the same, and every line that is
    -- logged afterwards is lost: no file holds more than before.
    pub set_output-drops :
        (path : Text) (lines : List (List Text)) (l : Logger) (w : W)
        → let (s, w1) = k.open_file path w in
          let (o, l', w') = set_output k path l w in
          is_good s w1 ≡ false
          → (o ≡ returned tt) × (content (print_lines lines l' w') ≡ content w')
    unfolding set_output
    set_output-drops path lines l w closed =
        let (s, w1) = k.open_file path w in
        (
          rw (laws.opens path w) refl,
          print_lines-keeps s lines (record l { target = file s }) w1 refl closed,
        )
