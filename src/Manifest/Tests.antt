-- ===== src/Manifest/Tests.antt =====
-- A small contract, its invocations, and the theorems of the executor at them.
use ppsc.Base.{
  ◌≡◌, refl, ap, Bool, true, false, none, some, [], ◌∷◌, arith, Result, ok, err, and_then, nat_eq,
  pair_eq, bytes_eq, string_eq,
}
use ppsc.Base.Bytes.{Bytes}
use ppsc.Base.Dict.{lookup, insert}
use ppsc.Manifest.Types.{
  address, fhe_uint, fhe_bool, secret_bool, void, type_beq, public, fhe, secret_sharing,
  ManifestRuntimeError, policy_rejected, underflow, ManifestValue, address_value, state_key,
  OperatorNode, FunctionManifest, ContractManifest, InvocationInputs, ExecutionOutcome,
}
use ppsc.Manifest.Executor.{
  Values, resolve_owned, resolve_all, state_of, find_function, validate_inputs, bind_inputs,
  run_operators, evaluate, execute,
}
use ppsc.Manifest.Memory.{
  InMemoryManifestState, memory_store, execute_commits, execute_fails_unchanged,
}
use ppsc.Manifest.Plan.{Starts, Performs, evaluate_follows_manifest}
use ppsc.Manifest.Typing.{IsTyped, execute-IsTyped}
use ppsc.Manifest.Gate.{failed_require_rejects}
use ppsc.Manifest.Plaintext.{
  plaintext_manifest_backend, encoded, ss_bool_prefix, bool_byte, fhe_uint_of, secret_uint_of, pick,
  open_for_tests, secret_bool_of, fhe_bool_prefix,
}
use ppsc.Manifest.Plaintext.Laws.{evaluate_computes, conversion_commutes, conversions_round_trip}
use ppsc.Manifest.Plaintext

abbrev sender : Bytes
sender =
    1 ∷ 2 ∷ 3 ∷ 4 ∷ 5 ∷ 6 ∷ 7 ∷ 8 ∷ 9 ∷ 10 ∷ 11 ∷ 12 ∷ 13 ∷ 14 ∷ 15 ∷ 16 ∷ 17 ∷ 18 ∷ 19 ∷ 20 ∷ []

abbrev send_token : OperatorNode
send_token = record {
  id = "n0";
  opcode = "host.send_encrypted_token";
  domain = public;
  inputs = "input:amount" ∷ [];
  output_type = void;
  representation = public;
  state = none;
}

abbrev gate : OperatorNode
gate = record {
  id = "n1";
  opcode = "require_secret";
  domain = secret_sharing;
  inputs = "input:allowed" ∷ [];
  output_type = void;
  representation = public;
  state = none;
}

abbrev pay : FunctionManifest
pay = record {
  name = "pay";
  signature = "pay(bytes32,bytes32)";
  selector = "0x00000000";
  inputs =
      record { name = "amount"; source_type = fhe_uint; abi_type = "bytes32"; representation = fhe }
      ∷ record {
        name = "allowed";
        source_type = secret_bool;
        abi_type = "bytes32";
        representation = secret_sharing;
      }
      ∷ [];
  operators = send_token ∷ gate ∷ [];
  state_writes =
      record { state = "last"; key = some "context:msg.sender"; value = "input:amount" } ∷ [];
  opening_output = none;
}

abbrev contract : ContractManifest
contract = record {
  language_version = 1;
  contract = "Pay";
  state =
      record { name = "last"; value_type = fhe_uint; key_type = some address; representation = fhe }
      ∷ [];
  functions = pay ∷ [];
}

abbrev amount : ManifestValue
amount = record { value_type = fhe_uint; bytes = 7 ∷ [] }

abbrev allowed : Bool → ManifestValue
allowed b = encoded secret_bool ss_bool_prefix (bool_byte b)

abbrev call_with : Bool → InvocationInputs
call_with b = ("amount", amount) ∷ ("allowed", allowed b) ∷ []

abbrev old_amount : ManifestValue
old_amount = record { value_type = fhe_uint; bytes = 3 ∷ [] }

abbrev stored : InMemoryManifestState
stored = record { cells = (("last", sender), old_amount) ∷ []; poisoned = false }

abbrev paid : ExecutionOutcome
paid = record {
  state_writes = record { state = "last"; key = sender; value = amount } ∷ [];
  host_calls = record { opcode = "host.send_encrypted_token"; arguments = amount ∷ [] } ∷ [];
  opening = none;
}

pay_succeeds :
    evaluate contract memory_store plaintext_manifest_backend "pay" sender (call_with true) stored
    ≡ ok paid
unfolding evaluate find_function type_beq resolve_owned secret_bool_of state_key address_value
pay_succeeds = refl

execute_commits_example :
    let out =
      execute contract memory_store plaintext_manifest_backend "pay" sender
        (call_with true)
        stored in
    (out.0 ≡ ok paid)
    × (out.1.poisoned ≡ false)
    × (lookup ("last", sender) out.1.cells ≡ some amount)
execute_commits_example =
    execute_commits contract plaintext_manifest_backend "pay" sender (call_with true) stored
      ("last", sender) refl pay_succeeds

evaluate_follows_manifest_example :
    (function : FunctionManifest) × (start end : Values) × (find_function "pay" contract.functions
      ≡ some function)
    × Starts contract memory_store plaintext_manifest_backend function sender (call_with true) start
    × Performs contract memory_store plaintext_manifest_backend function stored start end paid
evaluate_follows_manifest_example =
    evaluate_follows_manifest contract memory_store plaintext_manifest_backend "pay" sender
      (call_with true) stored pay_succeeds

stored-IsTyped : IsTyped contract stored.cells
unfolding state_of
stored-IsTyped = (
  (
    record { name = "last"; value_type = fhe_uint; key_type = some address; representation = fhe },
    refl,
    refl,
  ),
  tt,
)

execute-IsTyped_example :
    IsTyped contract
      (execute contract memory_store plaintext_manifest_backend "pay" sender
        (call_with true)
        stored).1.cells
execute-IsTyped_example =
    execute-IsTyped contract plaintext_manifest_backend "pay" sender (call_with true) stored
      stored-IsTyped

abbrev started : Bool → Values
started b =
    ("context:msg.sender", record { value_type = address; bytes = sender })
    ∷ ("input:amount", amount)
    ∷ ("input:allowed", allowed b)
    ∷ []

gate_reads : secret_bool_of (allowed false) ≡ ok false
unfolding secret_bool_of
gate_reads = refl

found_pay : find_function "pay" contract.functions ≡ some pay
unfolding find_function
found_pay = refl

valid_call : validate_inputs pay (call_with false) ≡ ok tt
unfolding validate_inputs type_beq
valid_call = refl

bound_call :
    bind_inputs pay.inputs
      (call_with false)
      (insert "context:msg.sender" (record { value_type = address; bytes = sender }) [])
    ≡ ok (started false)
unfolding bind_inputs
bound_call = refl

failed_require_rejects_example :
    execute contract memory_store plaintext_manifest_backend "pay" sender (call_with false) stored
    ≡ (err policy_rejected, stored)
unfolding run_operators resolve_all address_value resolve_owned
failed_require_rejects_example =
    failed_require_rejects contract memory_store plaintext_manifest_backend "pay" sender
      (call_with false) stored (send_token ∷ []) [] gate found_pay refl refl valid_call bound_call
      refl refl gate_reads

pay_rejected :
    (execute contract memory_store plaintext_manifest_backend "pay" sender
      (call_with false)
      stored).0
    ≡ err policy_rejected
pay_rejected =
    ap (λ (out : Result ManifestRuntimeError ExecutionOutcome × InMemoryManifestState). out.0)
      failed_require_rejects_example

execute_fails_unchanged_example :
    (execute contract memory_store plaintext_manifest_backend "pay" sender
      (call_with false)
      stored).1
    ≡ stored
execute_fails_unchanged_example =
    execute_fails_unchanged contract plaintext_manifest_backend "pay" sender (call_with false)
      stored pay_rejected

evaluate_computes_example :
    let arguments = fhe_uint_of 5 ∷ fhe_uint_of 8 ∷ [] in
    (Plaintext.evaluate "fhe.add" arguments ≡ ok (fhe_uint_of 13))
    × (Plaintext.evaluate "fhe.sub" arguments ≡ err underflow)
    × (Plaintext.evaluate "fhe.ge" arguments
        ≡ ok (encoded fhe_bool fhe_bool_prefix (bool_byte false)))
evaluate_computes_example = evaluate_computes 5 8 (omega arith) (omega arith)

conversion_commutes_example :
    let encrypted = fhe_uint_of 5 ∷ fhe_uint_of 8 ∷ [] in
    let shared = secret_uint_of 5 ∷ secret_uint_of 8 ∷ [] in
    (and_then
        (Plaintext.evaluate "fhe.add" encrypted)
        (λ c. Plaintext.evaluate "convert.h2s" (c ∷ []))
      ≡ Plaintext.evaluate "mpc.add" shared)
    × (and_then
          (Plaintext.evaluate "fhe.sub" encrypted)
          (λ c. Plaintext.evaluate "convert.h2s" (c ∷ []))
        ≡ Plaintext.evaluate "mpc.sub" shared)
    × (and_then
          (Plaintext.evaluate "fhe.ge" encrypted)
          (λ c. Plaintext.evaluate "convert.h2s" (c ∷ []))
        ≡ Plaintext.evaluate "mpc.ge" shared)
conversion_commutes_example = conversion_commutes 5 8 (omega arith) (omega arith)

conversions_round_trip_example :
    (and_then
        (Plaintext.evaluate "convert.h2s" (fhe_uint_of 9 ∷ []))
        (λ v. Plaintext.evaluate "convert.s2h" (v ∷ []))
      ≡ ok (fhe_uint_of 9))
    × (open_for_tests (fhe_uint_of 9) ≡ ok 9)
    × (open_for_tests (secret_uint_of 9) ≡ ok 9)
    × (and_then (pick (secret_uint_of 9)) open_for_tests ≡ ok 9)
conversions_round_trip_example = conversions_round_trip 9 (omega arith)
