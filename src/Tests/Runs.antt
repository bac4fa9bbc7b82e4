-- ===== src/Tests/Runs.antt =====
-- Runs of the engines of engine_core/src.
use correlation_engine.Prelude.{ℕ, ◌≡◌, ◌≢◌, ◌↔◌, ◌%◌, refl, true, some, List, [], ◌∷◌}
use correlation_engine.Prelude.Lists.{length, get_elem?}
use correlation_engine.Prelude.Maps.{get, insert, contains, add, extend}
use correlation_engine.Event.{Op, op_index, op_bit}
use correlation_engine.Event.OpSet
use correlation_engine.Prelude.Bits.{testb, Subset}
use correlation_engine.Rules.{DagStep, DagPattern, matches, all_in, bit_mask}
use correlation_engine.Detector.{Verdict, rank, max_verdict, apply, react, is_disarmed}
use correlation_engine.Lines.{
  Lines, relabel, no_lines, slot, fresh, resolve_line, append_automata, absorb, move_line, merge,
  merge_if_apart, unify_storyline, storyline_of,
}
use correlation_engine.Dag
use correlation_engine.Lines.Merge.{IsUnified, unify_storyline_total}
use correlation_engine.Lines.Connected.{Linked}
use correlation_engine.Dag.Effect.{Granted}
use correlation_engine.Dag.Total.{IsSound, new-IsSound, replay_total, replay-IsSound}
use correlation_engine.Dag.Storylines.{passed, storyline_of-Linked}
use correlation_engine.Dag.Disarm.{on_event-disarm, on_event_rights, disarmed_forever}
use correlation_engine.Dag.Reached.{milestones_justified}
use correlation_engine.Graph
use correlation_engine.Graph.Agree.{verdicts_agree}
use correlation_engine.Linear
use correlation_engine.Tests.Scenario.{
  ransomware_dag, chain, encrypt, write_again, chained, disarmed, linear_rules, linear_events,
}

replay-chain :
    Dag.replay chain (Dag.new ransomware_dag)
    ≡ some (Verdict.inspect ∷ Verdict.inspect ∷ Verdict.inspect ∷ [], chained)
unfolding Dag.replay Dag.new Dag.on_event Dag.advance Dag.advance_all Dag.advance_automata
    Dag.commit_steps Dag.is_ready Dag.seed Dag.seed_steps Dag.push_automaton Dag.step_matches
    Dag.quiet matches all_in bit_mask OpSet.contains OpSet.is_empty op_index op_bit rank max_verdict
    apply react is_disarmed relabel no_lines slot fresh resolve_line append_automata absorb
    move_line merge merge_if_apart unify_storyline get insert contains add extend
replay-chain = refl

on_event-encrypt : Dag.on_event encrypt chained ≡ some (Verdict.disarm, disarmed)
unfolding Dag.on_event Dag.advance Dag.advance_all Dag.advance_automata Dag.commit_steps
    Dag.is_ready Dag.seed Dag.seed_steps Dag.push_automaton Dag.step_matches Dag.quiet matches
    all_in bit_mask OpSet.contains OpSet.is_empty OpSet.union op_index op_bit rank max_verdict apply
    react is_disarmed relabel no_lines slot fresh resolve_line append_automata absorb move_line
    merge merge_if_apart unify_storyline get insert contains add extend
on_event-encrypt = refl

on_event-write_again : Dag.on_event write_again disarmed ≡ some (Verdict.block, disarmed)
unfolding Dag.on_event is_disarmed get OpSet.contains op_bit op_index
on_event-write_again = refl

write_is_disarmed : is_disarmed disarmed.disarmed 10 Op.write ≡ true
unfolding is_disarmed get OpSet.contains OpSet.is_empty op_bit op_index
write_is_disarmed = refl

replay-write_again : Dag.replay (write_again ∷ []) disarmed ≡ some (Verdict.block ∷ [], disarmed)
unfolding Dag.replay Dag.on_event is_disarmed get OpSet.contains OpSet.is_empty op_bit op_index
replay-write_again = refl

chained-IsSound : IsSound chained
chained-IsSound =
    replay-IsSound chain (Dag.new ransomware_dag)
      (Verdict.inspect ∷ Verdict.inspect ∷ Verdict.inspect ∷ []) chained
      (new-IsSound ransomware_dag) replay-chain

replay_total_example :
    (vs : List Verdict) × (g' : Dag.Engine) × (Dag.replay (encrypt ∷ []) chained ≡ some (vs, g'))
    × (length vs ≡ 1)
    × IsSound g'
replay_total_example = replay_total (encrypt ∷ []) chained chained-IsSound

storyline_of-Linked_example :
    Linked (passed chain (Dag.new ransomware_dag) []) 13 11
    ↔ ((ms : List ℕ) × (storyline_of 13 chained.lines ≡ some (some ms)) × (contains 11 ms ≡ true))
storyline_of-Linked_example =
    storyline_of-Linked ransomware_dag chain
      (Verdict.inspect ∷ Verdict.inspect ∷ Verdict.inspect ∷ []) chained 11 13 replay-chain

verdicts_agree_example :
    Graph.replay linear_events (Graph.new linear_rules)
    ≡ Linear.replay linear_events (Linear.new linear_rules)
verdicts_agree_example = verdicts_agree linear_rules linear_events

disarmed_forever_example : Dag.on_event write_again disarmed ≡ some (Verdict.block, disarmed)
disarmed_forever_example =
    disarmed_forever (write_again ∷ []) disarmed (Verdict.block ∷ []) disarmed write_again
      write_is_disarmed replay-write_again

on_event-disarm_example : Granted encrypt ransomware_dag.patterns disarmed.disarmed
on_event-disarm_example = on_event-disarm encrypt chained disarmed on_event-encrypt

on_event_rights_example :
    ((k : ℕ) (op : Op)
      → is_disarmed chained.disarmed k op ≡ true
      → is_disarmed disarmed.disarmed k op ≡ true)
    × ((k : ℕ) (op : Op)
        → k ≢ 10
        → is_disarmed disarmed.disarmed k op ≡ is_disarmed chained.disarmed k op)
on_event_rights_example = on_event_rights encrypt chained Verdict.disarm disarmed on_event-encrypt

unify_storyline_total_example :
    (r : ℕ) × (s' : Lines Dag.Automaton) × IsUnified 11 20 chained.lines r s'
unify_storyline_total_example =
    unify_storyline_total 11 20 chained.lines chained-IsSound.lines_valid

milestones_justified_example :
    (p : DagPattern) × (k : ℕ) × (step : DagStep) × (get_elem? ransomware_dag.patterns 0 ≡ some p)
    × (get_elem? p.steps k ≡ some step)
    × (step.bit % 64 ≡ 2)
    × Subset step.prereq_mask 7
milestones_justified_example =
    milestones_justified ransomware_dag chain
      (Verdict.inspect ∷ Verdict.inspect ∷ Verdict.inspect ∷ []) chained replay-chain 0
      (record {
        members = 10 ∷ 11 ∷ 12 ∷ 13 ∷ [];
        automata = (0, record { done_mask = 7 } ∷ []) ∷ [];
        last_activity = 3;
      })
      (unfold slot in refl) 0 (record { done_mask = 7 } ∷ []) (unfold get in refl) 0
      (record { done_mask = 7 }) refl 2 (unfold testb in refl)
