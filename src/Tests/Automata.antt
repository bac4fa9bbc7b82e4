-- ===== src/Tests/Automata.antt =====
-- Automata of v1/engine/src/lib.rs: a file is written and then executed.
use correlation_engine.Prelude.{ℕ, ◌≡◌, refl, List, [], ◌∷◌, none, some, false}
use correlation_engine.Prelude.Maps.{get, insert}
use correlation_engine.Prelude.Texts.{equal}
use correlation_engine.Prelude.Bits.{testb}
use correlation_engine.Edr.Automaton.{
  Step, Scope, RoleSource, Automaton, Nodes, new, try_commit, has, bits, bits_from, latest,
  scope_ok, resolve, value_named, assign, bind_all, commit, Named, take_over, merge_ts, merge_roles,
  merge_automata,
}
use correlation_engine.Edr.Automaton.Order.{
  Grown, no_automata, seeds, commits, merges, IsTaken, Grown-IsTaken,
}

abbrev written : Step
written = record {
  bit = 0;
  prereq_mask = 0;
  seg_window = 0;
  bindings = (record { role = 88 ∷ []; source = RoleSource.object }) ∷ [];
}

abbrev executed : Step
executed = record {
  bit = 1;
  prereq_mask = 1;
  seg_window = 60000;
  bindings = (record { role = 88 ∷ []; source = RoleSource.image }) ∷ [];
}

abbrev write_nodes : Nodes
write_nodes = record { a_uid = 0; o_uid = 7; img_uid = none }

abbrev exec_nodes : Nodes
exec_nodes = record { a_uid = 0; o_uid = 8; img_uid = some 7 }

abbrev after_write : Automaton
after_write = record {
  pattern_idx = 0;
  completed_mask = 1;
  step_ts = (0, 1000) ∷ [];
  bound_nodes = (88 ∷ [], 7) ∷ [];
  armed = false;
}

abbrev after_exec : Automaton
after_exec = record {
  pattern_idx = 0;
  completed_mask = 3;
  step_ts = (0, 1000) ∷ (1, 5000) ∷ [];
  bound_nodes = (88 ∷ [], 7) ∷ [];
  armed = false;
}

write_commits : try_commit written Scope.free 1000 write_nodes (new 0) ≡ some after_write
unfolding try_commit has bits bits_from latest scope_ok resolve value_named assign bind_all commit
    equal get insert
write_commits = refl

exec_commits : try_commit executed Scope.free 5000 exec_nodes after_write ≡ some after_exec
unfolding try_commit has bits bits_from latest scope_ok resolve value_named assign bind_all commit
    equal get insert
exec_commits = refl

-- another file than the one written
other_file_refused :
    try_commit executed Scope.free 5000
      (record { a_uid = 0; o_uid = 8; img_uid = some 9 })
      after_write
    ≡ none
unfolding try_commit has bits bits_from latest scope_ok resolve value_named assign bind_all commit
    equal get insert
other_file_refused = refl

abbrev dropper : List ℕ
dropper = 68 ∷ []

abbrev steps_of : List ℕ → List Step
steps_of pid = written ∷ executed ∷ []

abbrev begun : Named Automaton
begun = assign dropper (new 0) []

abbrev half : Named Automaton
half = assign dropper after_write begun

-- the storyline of the writer joins one in which the pattern has only begun, and then the file is executed
abbrev joined : Automaton
joined = take_over (new 0) after_write

abbrev storyline : Named Automaton
storyline = assign dropper after_exec (merge_automata half begun)

begun-Grown : Grown steps_of begun
begun-Grown = seeds dropper 0 no_automata

half-Grown : Grown steps_of half
unfolding value_named assign equal
half-Grown =
    commits dropper (new 0) after_write 0 written Scope.free 1000 write_nodes begun-Grown refl refl
      write_commits

joined_commits : try_commit executed Scope.free 5000 exec_nodes joined ≡ some after_exec
unfolding try_commit has bits bits_from latest scope_ok resolve value_named assign bind_all commit
    equal get insert take_over merge_ts merge_roles
joined_commits = refl

joined_there : value_named dropper (merge_automata half begun) ≡ some joined
unfolding value_named assign equal merge_automata
joined_there = refl

storyline-Grown : Grown steps_of storyline
storyline-Grown =
    commits dropper joined after_exec 1 executed Scope.free 5000 exec_nodes
      (merges half-Grown begun-Grown) joined_there refl joined_commits

whole_there : value_named dropper storyline ≡ some after_exec
unfolding value_named assign equal merge_automata
whole_there = refl

Grown-IsTaken_example : IsTaken (steps_of dropper) after_exec 1
unfolding testb
Grown-IsTaken_example =
    Grown-IsTaken steps_of storyline dropper after_exec 1 storyline-Grown whole_there refl
