-- ===== src/Control/RoundTrip.antt =====
-- The driver's side of endpoint_service/src/control.rs: records of 16 bytes, each read back as the
-- command that it was made from.
use correlation_engine.Prelude.{
  ℕ, ◌+◌, ◌^◌, ◌<◌, ◌≡◌, ◌↔◌, refl, false, some, List, ◌∷◌, ◌++◌, ltb, arith,
}
use correlation_engine.Prelude.Lists.{length, length-append}
use correlation_engine.Wire.Primitives.{le_bytes, from_le, length-le_bytes}
use correlation_engine.Edr.{Op, NodeKey}
use correlation_engine.Control.{
  ArmCmd, arm, disarm, op_code, op_from_code, command, encode, ok, decode, field,
}

-- An operation's code is read back as that operation, and no other code is read as it.
pub op_from_code_iff : (c : ℕ) (op : Op) → (op_from_code c ≡ some op) ↔ (c ≡ op_code op)
unfolding op_from_code op_code
op_from_code_iff c op = (forth c op, back c op)
  where
    forth : (c : ℕ) (op : Op) → op_from_code c ≡ some op → c ≡ op_code op
    forth c Op.exec h = ground arith
    forth c Op.read h = ground arith
    forth c Op.write h = ground arith
    forth c Op.inject h = ground arith
    forth c Op.open_op h = ground arith
    forth c Op.connect h = ground arith
    forth c Op.create h = ground arith
    forth c Op.delete h = ground arith
    forth c Op.load h = ground arith
    forth c Op.dup h = ground arith

    back : (c : ℕ) (op : Op) → c ≡ op_code op → op_from_code c ≡ some op
    back c Op.exec h = rw h
    back c Op.read h = rw h
    back c Op.write h = rw h
    back c Op.inject h = rw h
    back c Op.open_op h = rw h
    back c Op.connect h = rw h
    back c Op.create h = rw h
    back c Op.delete h = rw h
    back c Op.load h = rw h
    back c Op.dup h = rw h

-- a command for a process, with numbers of their widths
abbrev pub IsEnforceable : NodeKey → Type 0
IsEnforceable (NodeKey.process pid start_ms) = (pid < 2 ^ 32) × (start_ms < 2 ^ 64)
IsEnforceable _ = ⊥

abbrev pub actor_of : ArmCmd → NodeKey
actor_of (arm actor op) = actor
actor_of (disarm actor) = actor

-- the fields of a record, at their offsets
fields_of :
    (kind op pid start_ms : ℕ) (rest : List ℕ)
    → kind < 256
    → op < 256
    → pid < 2 ^ 32
    → start_ms < 2 ^ 64
    → (field 1 0 ((kind ∷ op ∷ 0 ∷ 0 ∷ (le_bytes 4 pid ++ le_bytes 8 start_ms)) ++ rest) ≡ kind)
      × (field 1 1 ((kind ∷ op ∷ 0 ∷ 0 ∷ (le_bytes 4 pid ++ le_bytes 8 start_ms)) ++ rest) ≡ op)
      × (field 4 4 ((kind ∷ op ∷ 0 ∷ 0 ∷ (le_bytes 4 pid ++ le_bytes 8 start_ms)) ++ rest) ≡ pid)
      × (field 8 8 ((kind ∷ op ∷ 0 ∷ 0 ∷ (le_bytes 4 pid ++ le_bytes 8 start_ms)) ++ rest)
          ≡ start_ms)
unfolding le_bytes from_le
fields_of kind op pid start_ms rest p q r s = (omega arith, omega arith, omega arith, omega arith)

length-record :
    (kind op pid start_ms : ℕ) (rest : List ℕ)
    → length ((kind ∷ op ∷ 0 ∷ 0 ∷ (le_bytes 4 pid ++ le_bytes 8 start_ms)) ++ rest)
      ≡ 16 + length rest
unfolding le_bytes
length-record kind op pid start_ms rest = omega arith

op_code-lt : (op : Op) → op_code op < 256
unfolding op_code
op_code-lt Op.exec = omega arith
op_code-lt Op.read = omega arith
op_code-lt Op.write = omega arith
op_code-lt Op.inject = omega arith
op_code-lt Op.open_op = omega arith
op_code-lt Op.connect = omega arith
op_code-lt Op.create = omega arith
op_code-lt Op.delete = omega arith
op_code-lt Op.load = omega arith
op_code-lt Op.dup = omega arith

-- What one command on the wire is: 16 bytes, read back as the command whatever follows them.
pub record IsCarried (c : ArmCmd) (bytes : List ℕ) : Type 0 where
  pub written : encode c ≡ some bytes
  pub sixteen : length bytes ≡ 16
  pub read_back : (rest : List ℕ) → decode (bytes ++ rest) ≡ ok c

arm-IsCarried :
    (op : Op) (pid start_ms : ℕ)
    → pid < 2 ^ 32
    → start_ms < 2 ^ 64
    → IsCarried
        (arm (NodeKey.process pid start_ms) op)
        (1 ∷ op_code op ∷ 0 ∷ 0 ∷ (le_bytes 4 pid ++ le_bytes 8 start_ms))
unfolding encode command decode
arm-IsCarried op pid start_ms p q = record {
  written = refl;
  sixteen = omega (
    arith,
    length-le_bytes 4 pid,
    length-le_bytes 8 start_ms,
    length-append (le_bytes 4 pid) (le_bytes 8 start_ms),
  );
  read_back = λ rest.
      let (k, o, i, s) =
        fields_of 1 (op_code op) pid start_ms rest (omega arith) (op_code-lt op) p q in
      let long : ltb (16 + length rest) 16 ≡ false = ground arith in
      rw (length-record 1 (op_code op) pid start_ms rest)
        (rw (long, k) (rw (o, i, s) (rw (op_from_code_iff (op_code op) op).1 refl)));
}

disarm-IsCarried :
    (pid start_ms : ℕ)
    → pid < 2 ^ 32
    → start_ms < 2 ^ 64
    → IsCarried
        (disarm (NodeKey.process pid start_ms))
        (2 ∷ 0 ∷ 0 ∷ 0 ∷ (le_bytes 4 pid ++ le_bytes 8 start_ms))
unfolding encode command decode
disarm-IsCarried pid start_ms p q = record {
  written = refl;
  sixteen = omega (
    arith,
    length-le_bytes 4 pid,
    length-le_bytes 8 start_ms,
    length-append (le_bytes 4 pid) (le_bytes 8 start_ms),
  );
  read_back = λ rest.
      let (k, o, i, s) = fields_of 2 0 pid start_ms rest (omega arith) (omega arith) p q in
      let long : ltb (16 + length rest) 16 ≡ false = ground arith in
      rw (length-record 2 0 pid start_ms rest) (rw (long, k) (rw (i, s)));
}

-- A command for a process is written as 16 bytes, which are read back as the command, whatever follows
-- them.
pub encode-IsCarried :
    (c : ArmCmd) → IsEnforceable (actor_of c) → (bytes : List ℕ) × IsCarried c bytes
encode-IsCarried (arm (NodeKey.process pid start) op) (p, q) = (_, arm-IsCarried op pid start p q)
encode-IsCarried (disarm (NodeKey.process pid start)) (p, q) = (_, disarm-IsCarried pid start p q)
encode-IsCarried (arm (NodeKey.file id) op) h = elim h [ ]
encode-IsCarried (arm (NodeKey.socket k) op) h = elim h [ ]
encode-IsCarried (arm (NodeKey.other k s) op) h = elim h [ ]
encode-IsCarried (disarm (NodeKey.file id)) h = elim h [ ]
encode-IsCarried (disarm (NodeKey.socket k)) h = elim h [ ]
encode-IsCarried (disarm (NodeKey.other k s)) h = elim h [ ]
