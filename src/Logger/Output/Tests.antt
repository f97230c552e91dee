-- ===== src/Logger/Output/Tests.antt =====
-- A system in which no file can be opened, and a system that keeps what is printed.
use Prim.{tt}
use debug_learning.Prelude.{Text, codes, ◌≡◌, refl, false, [], ◌∷◌, ◌++◌}
use debug_learning.Outcome.{returned}
use debug_learning.Logger.{log}
use debug_learning.Logger.Output.{
  new_logger, cout, file, StreamCalls, set_output, log_info, print_line,
}
use debug_learning.Logger.Output.Losing.{FileLaws, print_lines, set_output-drops}

-- The state is what was printed on the console and in a file.
abbrev console : StreamCalls (Text × Text)
console = record {
  open_file = λ path w. (4, w);
  is_bad = λ s w. false;
  print = λ t text (out, in_file). elim t [
    | cout ↦ (out ++ text, in_file)
    | file s ↦ (out, in_file ++ text)
  ];
  close = λ s w. w;
  now = λ w. (codes "7", w);
}

print-info :
    (log_info console (codes "pid" ∷ codes "8" ∷ []) new_logger ([], [])).0
    ≡ codes "[7][INFO] pid 8 \n"
unfolding print_line log
print-info = refl

-- No file can be opened, and what is printed to one is dropped.
abbrev closed : StreamCalls (Text × Text)
closed = record console {
  print =
      λ t text (out, in_file). elim t [ cout ↦ (out ++ text, in_file) | file s ↦ (out, in_file) ];
}

closed-FileLaws : FileLaws closed (λ s w. false) (λ w. w.1)
closed-FileLaws = record {
  opens = λ path w. refl;
  drops = λ s text w h. (refl, refl);
  tells = λ s w. (refl, refl);
}

set_output-drops_example :
    let (o, l, w) = set_output closed (codes "log") new_logger ([], []) in
    (o ≡ returned tt) × ((print_lines closed ((codes "a" ∷ []) ∷ []) l w).1 ≡ [])
unfolding set_output
set_output-drops_example =
    set_output-drops closed closed-FileLaws (codes "log") ((codes "a" ∷ []) ∷ []) new_logger
      ([], []) refl
