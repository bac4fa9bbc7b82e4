-- ===== src/Tests/Formats.antt =====
-- Rulesets through the byte format of engine_core/src/wire.rs, and sets of operations.
use correlation_engine.Prelude.{◌≡◌, refl, ◌||◌, arith}
use correlation_engine.Event.{Op}
use correlation_engine.Event.OpSet
use correlation_engine.Event.OpSet.{contains-union}
use correlation_engine.Wire.{encode, decode, encode_dag, decode_dag}
use correlation_engine.Wire.Utf8.{is_utf8}
use correlation_engine.Wire.Primitives.{ok}
use correlation_engine.Wire.Fields.{Fits, FitsDag}
use correlation_engine.Wire.RoundTrip.{decode-encode, decode_dag-encode_dag}
use correlation_engine.Tests.Scenario.{ransomware_dag, linear_rules}

linear_rules-Fits : Fits linear_rules
unfolding is_utf8
linear_rules-Fits = (
  omega arith,
  (
    (
      (omega arith, refl),
      omega arith,
      (
        ((omega arith, omega arith, (omega arith, tt)), tt),
        (((omega arith, omega arith, (omega arith, tt)), omega arith), tt),
      ),
    ),
    tt,
  ),
)

pub ransomware_dag-FitsDag : FitsDag ransomware_dag
unfolding is_utf8
ransomware_dag-FitsDag = (
  omega arith,
  (
    (
      (omega arith, refl),
      omega arith,
      (
        (omega arith, omega arith, (omega arith, omega arith, (omega arith, tt)), tt),
        (
          (omega arith, omega arith, (omega arith, omega arith, (omega arith, tt)), tt),
          (
            (omega arith, omega arith, (omega arith, omega arith, (omega arith, tt)), tt),
            (
              (
                omega arith,
                omega arith,
                (omega arith, omega arith, (omega arith, tt)),
                omega arith,
              ),
              tt,
            ),
          ),
        ),
      ),
    ),
    tt,
  ),
)

decode-encode_example : decode (encode linear_rules) ≡ ok linear_rules
decode-encode_example = decode-encode linear_rules linear_rules-Fits

decode_dag-encode_dag_example : decode_dag (encode_dag ransomware_dag) ≡ ok ransomware_dag
decode_dag-encode_dag_example = decode_dag-encode_dag ransomware_dag ransomware_dag-FitsDag

contains-union_example :
    OpSet.contains (OpSet.union 5 8) Op.read
    ≡ (OpSet.contains 5 Op.read || OpSet.contains 8 Op.read)
contains-union_example = contains-union 5 8 Op.read
