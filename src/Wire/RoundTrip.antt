-- ===== src/Wire/RoundTrip.antt =====
-- What `decode` reads back from what `encode` wrote.
use correlation_engine.Prelude.{ℕ, ◌%◌, ◌^◌, ◌≡◌, refl, sym, ◌∙◌, ap, List, [], ◌∷◌, ◌++◌}
use mathlib.Core.List.{append_assoc, append-nil}
use correlation_engine.Prelude.Lists.{length, All}
use correlation_engine.Rules.{Step, Pattern, RuleSet, DagStep, DagPattern, DagRuleSet}
use correlation_engine.Wire.Primitives.{ok, le_bytes, same_bytes}
use correlation_engine.Wire.{
  magic, magic_dag, encode_match, encode_action, encode_steps, encode_patterns, encode,
  encode_dag_steps, encode_dag_patterns, encode_dag, read_steps, read_patterns, expect_end, decode,
  read_dag_steps, read_dag_patterns, decode_dag,
}
use correlation_engine.Wire.Fields.{
  u64-le_bytes, u8-cons, read_match-encode, read_action-encode, u16-length, read_name-encode,
  expect_magic_lem, FitsStep, FitsPattern, Fits, FitsDagStep, FitsDagPattern, FitsDag,
}

read_steps-encode :
    (ss : List Step) (rest : List ℕ)
    → All FitsStep ss
    → read_steps (length ss) (encode_steps ss ++ rest) ≡ ok (ss, rest)
unfolding read_steps encode_steps
read_steps-encode [] rest h = refl
read_steps-encode (s ∷ ss) rest h =
    rw (append_assoc (encode_match s.matcher) (encode_action s.action ++ encode_steps ss) rest) (
      rw (append_assoc (encode_action s.action) (encode_steps ss) rest) (
        rw (read_match-encode s.matcher (encode_action s.action ++ (encode_steps ss ++ rest)) h.0.0)
          (rw (read_action-encode s.action (encode_steps ss ++ rest) h.0.1)
            (rw (read_steps-encode ss rest h.1)))))

read_patterns-encode :
    (ps : List Pattern) (rest : List ℕ)
    → All FitsPattern ps
    → read_patterns (length ps) (encode_patterns ps ++ rest) ≡ ok (ps, rest)
unfolding read_patterns encode_patterns
read_patterns-encode [] rest h = refl
read_patterns-encode (p ∷ ps) rest h =
    let steps = encode_steps p.steps in
    let more = encode_patterns ps in
    let count = le_bytes 2 (length p.steps % 2 ^ 16) in
    rw
      (append_assoc (le_bytes 2 (length p.name % 2 ^ 16)) (p.name ++ (count ++ (steps ++ more)))
        rest)
      (rw (append_assoc p.name (count ++ (steps ++ more)) rest) (
        rw (read_name-encode p.name ((count ++ (steps ++ more)) ++ rest) h.0.0) (
          rw (append_assoc count (steps ++ more) rest) (
            rw (u16-length (length p.steps) ((steps ++ more) ++ rest) h.0.1) (
              rw (append_assoc steps more rest) (
                rw (read_steps-encode p.steps (more ++ rest) h.0.2)
                  (rw (read_patterns-encode ps rest h.1))))))))

-- A linear ruleset is decoded from its encoding, with no byte left, when its patterns, the steps of
-- each pattern and the bytes of each name are fewer than 2 ^ 16, the TTPs of each step fewer than 2 ^
-- 8, its names are UTF-8, and its TTPs and operation sets are below 2 ^ 32.
pub decode-encode : (r : RuleSet) → Fits r → decode (encode r) ≡ ok r
unfolding decode encode expect_end
decode-encode r h =
    let body = encode_patterns r.patterns in
    rw
      (expect_magic_lem magic (le_bytes 2 (length r.patterns % 2 ^ 16) ++ body) refl
        (unfold same_bytes in refl))
      (rw (u16-length (length r.patterns) body h.0) (
        rw (
          ap (read_patterns (length r.patterns)) (sym (append-nil body))
          ∙ read_patterns-encode r.patterns [] h.1)))

read_dag_steps-encode :
    (ss : List DagStep) (rest : List ℕ)
    → All FitsDagStep ss
    → read_dag_steps (length ss) (encode_dag_steps ss ++ rest) ≡ ok (ss, rest)
unfolding read_dag_steps encode_dag_steps
read_dag_steps-encode [] rest h = refl
read_dag_steps-encode (s ∷ ss) rest h =
    let pre = le_bytes 8 s.prereq_mask in
    let m = encode_match s.matcher in
    let a = encode_action s.action in
    let more = encode_dag_steps ss in
    rw (u8-cons s.bit ((pre ++ (m ++ (a ++ more))) ++ rest)) (
      rw (append_assoc pre (m ++ (a ++ more)) rest) (
        rw (u64-le_bytes s.prereq_mask ((m ++ (a ++ more)) ++ rest) h.0.1) (
          rw (append_assoc m (a ++ more) rest) (
            rw (read_match-encode s.matcher ((a ++ more) ++ rest) h.0.2) (
              rw (append_assoc a more rest) (
                rw (read_action-encode s.action (more ++ rest) h.0.3)
                  (rw (read_dag_steps-encode ss rest h.1))))))))

read_dag_patterns-encode :
    (ps : List DagPattern) (rest : List ℕ)
    → All FitsDagPattern ps
    → read_dag_patterns (length ps) (encode_dag_patterns ps ++ rest) ≡ ok (ps, rest)
unfolding read_dag_patterns encode_dag_patterns
read_dag_patterns-encode [] rest h = refl
read_dag_patterns-encode (p ∷ ps) rest h =
    let steps = encode_dag_steps p.steps in
    let more = encode_dag_patterns ps in
    let count = le_bytes 2 (length p.steps % 2 ^ 16) in
    rw
      (append_assoc (le_bytes 2 (length p.name % 2 ^ 16)) (p.name ++ (count ++ (steps ++ more)))
        rest)
      (rw (append_assoc p.name (count ++ (steps ++ more)) rest) (
        rw (read_name-encode p.name ((count ++ (steps ++ more)) ++ rest) h.0.0) (
          rw (append_assoc count (steps ++ more) rest) (
            rw (u16-length (length p.steps) ((steps ++ more) ++ rest) h.0.1) (
              rw (append_assoc steps more rest) (
                rw (read_dag_steps-encode p.steps (more ++ rest) h.0.2)
                  (rw (read_dag_patterns-encode ps rest h.1))))))))

-- A DAG ruleset is decoded from its encoding, with no byte left, when its patterns, the steps of each
-- pattern and the bytes of each name are fewer than 2 ^ 16, the TTPs of each step fewer than 2 ^ 8,
-- its names are UTF-8, and its TTPs and operation sets are below 2 ^ 32, its bits below 2 ^ 8 and its
-- prerequisite masks below 2 ^ 64.
pub decode_dag-encode_dag : (r : DagRuleSet) → FitsDag r → decode_dag (encode_dag r) ≡ ok r
unfolding decode_dag encode_dag expect_end
decode_dag-encode_dag r h =
    let body = encode_dag_patterns r.patterns in
    rw
      (expect_magic_lem magic_dag (le_bytes 2 (length r.patterns % 2 ^ 16) ++ body) refl
        (unfold same_bytes in refl))
      (rw (u16-length (length r.patterns) body h.0) (
        rw (
          ap (read_dag_patterns (length r.patterns)) (sym (append-nil body))
          ∙ read_dag_patterns-encode r.patterns [] h.1)))
