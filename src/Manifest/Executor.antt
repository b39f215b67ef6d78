-- ===== src/Manifest/Executor.antt =====
-- `ManifestExecutor`: a function's operators in order, then its writes, in crates/runtime/src/manifest.rs.
use ppsc.Base.{
  ℕ, ◌+◌, ◌-◌, ◌*◌, Bool, true, false, ◌&&◌, ◌||◌, not, Option, none, some, List, [], ◌∷◌, ◌++◌,
  String, ltb, leb, ◌==◌, if◌then◌else◌, length, is_empty, first, drop, Result, ok, err, and_then,
  map_ok, ok_or, Action, pure, lift, ◌>>=◌, ◌>>◌, nat_eq, pair_eq, bytes_eq, string_eq,
}
use ppsc.Base.Bytes.{Bytes, u128_mod, text_bytes, starts_with}
use ppsc.Base.Dict.{Dict, lookup, insert}
use Prim.Native.String.{String, ◌++◌ as str_append}
use ppsc.Manifest.Types.{
  ValueType, address, opened, type_beq, Representation, public, fhe, secret_sharing,
  ManifestRuntimeError, function_not_found, missing_input, type_mismatch, unknown_reference,
  invalid_manifest, invalid_state_key, unsupported_operator, policy_rejected, ManifestValue,
  address_value, public_uint, state_key, void_value, StateManifest, AbiInput, OperatorNode,
  PlannedWrite, FunctionManifest, ContractManifest, InvocationInputs, StateWrite, HostCall,
  ExecutionOutcome, ManifestStateStore, ManifestCryptoBackend,
}

abbrev pub Executed : Type 0 → Type 0
Executed A = Action ManifestRuntimeError (List HostCall) A

abbrev pub Values : Type 0
Values = Dict String ManifestValue

-- `str::parse::<u128>`: decimal digits after an optional plus sign, at least one, below 2 ^ 128.
abbrev pub is_digit : ℕ → Bool
is_digit b = leb 48 b && leb b 57

unfoldable pub parse_digits : ℕ → Bytes → Option ℕ
parse_digits acc [] = some acc
parse_digits acc (b ∷ bs) =
    let rest = parse_digits (acc * 10 + (b - 48)) bs in
    if is_digit b && ltb (acc * 10 + (b - 48)) u128_mod then rest else none

abbrev pub some_digits : Bytes → Option ℕ
some_digits bs = if is_empty bs then none else parse_digits 0 bs

unfoldable pub parse_u128 : Bytes → Option ℕ
parse_u128 [] = none
parse_u128 (b ∷ bs) = if b == 43 then some_digits bs else some_digits (b ∷ bs)

unfoldable pub resolve : String → Values → Result ManifestRuntimeError ManifestValue
resolve reference values = ok_or (lookup reference values) unknown_reference

-- A reference that begins with `const:` spells a number.
unfoldable pub resolve_owned : String → Values → Result ManifestRuntimeError ManifestValue
unfolding resolve parse_u128
resolve_owned reference values =
    let name = text_bytes reference in
    if starts_with name (text_bytes "const:")
    then map_ok public_uint (ok_or (parse_u128 (drop 6 name)) invalid_manifest)
    else resolve reference values

unfoldable pub resolve_all : List String → Values → Result ManifestRuntimeError (List ManifestValue)
resolve_all [] values = ok []
resolve_all (reference ∷ references) values =
    let rest = resolve_all references values in
    and_then (resolve_owned reference values) λ v. map_ok (λ vs. v ∷ vs) rest

-- `state`: the declaration of a name.
unfoldable pub find_state : String → List StateManifest → Option StateManifest
find_state name [] = none
find_state name (declared ∷ rest) =
    let later = find_state name rest in
    if string_eq.beq declared.name name then some declared else later

unfoldable pub state_of : ContractManifest → String → Result ManifestRuntimeError StateManifest
unfolding find_state
state_of manifest name = ok_or (find_state name manifest.state) invalid_manifest

unfoldable pub find_function : String → List FunctionManifest → Option FunctionManifest
find_function name [] = none
find_function name (candidate ∷ rest) =
    let later = find_function name rest in
    if string_eq.beq candidate.name name then some candidate else later

-- The supplied values are as many as the declared inputs, each under its name and of its type.
unfoldable pub check_inputs :
    List AbiInput → InvocationInputs → Result ManifestRuntimeError (Unit {0})
check_inputs [] inputs = ok tt
check_inputs (declared ∷ rest) inputs =
    let later = check_inputs rest inputs in
    and_then (ok_or (lookup declared.name inputs) missing_input) λ supplied.
      if not (type_beq supplied.value_type declared.source_type) then err type_mismatch else later

unfoldable pub validate_inputs :
    FunctionManifest → InvocationInputs → Result ManifestRuntimeError (Unit {0})
unfolding check_inputs
validate_inputs function inputs =
    if not (length inputs == length function.inputs)
    then err missing_input
    else check_inputs function.inputs inputs

-- The values that the operators start from.
unfoldable pub bind_inputs :
    List AbiInput → InvocationInputs → Values → Result ManifestRuntimeError Values
bind_inputs [] inputs values = ok values
bind_inputs (input ∷ rest) inputs values =
    let later = bind_inputs rest inputs in
    and_then (ok_or (lookup input.name inputs) missing_input)
      λ v. later (insert (str_append "input:" input.name) v values)

-- The key of a `load_state`.
unfoldable pub load_key : Option ValueType → List ManifestValue → Result ManifestRuntimeError Bytes
load_key none arguments = if is_empty arguments then ok [] else err invalid_state_key
load_key (some key_type) arguments =
    if type_beq key_type address
    then and_then (ok_or (first arguments) invalid_manifest) state_key
    else err invalid_state_key

-- The key of a planned write.
unfoldable pub write_key :
    Option String → Option ValueType → Values → Result ManifestRuntimeError Bytes
write_key none none values = ok []
write_key none (some key_type) values = err invalid_state_key
write_key (some reference) none values = err invalid_state_key
write_key (some reference) (some key_type) values =
    if type_beq key_type address
    then and_then (resolve reference values) state_key
    else err invalid_state_key

-- The value, if it has the type that is asked of it.
abbrev pub of_type : ValueType → ManifestValue → Result ManifestRuntimeError ManifestValue
of_type value_type v = if not (type_beq v.value_type value_type) then err type_mismatch else ok v

abbrev pub is_host_call : String → Bool
is_host_call opcode =
    string_eq.beq opcode "host.receive_encrypted_token"
    || string_eq.beq opcode "host.send_encrypted_token"

abbrev pub is_committee_domain : Representation → Bool
is_committee_domain public = false
is_committee_domain fhe = true
is_committee_domain secret_sharing = true

module _ {S : Type 0} (manifest : ContractManifest) (store : ManifestStateStore S)
    (backend : ManifestCryptoBackend) where
  unfoldable pub load_state :
      OperatorNode → List ManifestValue → S → Result ManifestRuntimeError ManifestValue
  unfolding state_of load_key
  load_state operator arguments s = and_then (ok_or operator.state invalid_manifest) λ state.
      and_then (state_of manifest state) λ declaration.
        and_then (load_key declaration.key_type arguments)
          λ key. and_then (store.load state key s) (of_type operator.output_type)

  unfoldable pub require_secret : List ManifestValue → Result ManifestRuntimeError ManifestValue
  require_secret arguments = and_then (ok_or (first arguments) invalid_manifest) λ condition.
      and_then (backend.secret_bool condition)
        λ holds. if not holds then err policy_rejected else ok void_value

  unfoldable pub open_picked : List ManifestValue → Result ManifestRuntimeError ManifestValue
  open_picked arguments =
      and_then (ok_or (first arguments) invalid_manifest)
        λ v. and_then (backend.pick v) (of_type opened)

  unfoldable pub evaluate_operator :
      OperatorNode → List ManifestValue → Result ManifestRuntimeError ManifestValue
  evaluate_operator operator arguments =
      if not (is_committee_domain operator.domain)
      then err unsupported_operator
      else and_then (backend.evaluate operator.opcode arguments) (of_type operator.output_type)

  -- The `match` on the opcode.
  unfoldable pub dispatch : OperatorNode → List ManifestValue → S → Executed ManifestValue
  unfolding load_state require_secret open_picked evaluate_operator
  dispatch operator arguments s calls =
      if string_eq.beq operator.opcode "load_state"
      then (load_state operator arguments s, calls)
      else if string_eq.beq operator.opcode "require_secret"
      then (require_secret arguments, calls)
      else if string_eq.beq operator.opcode "opening.pick"
      then (open_picked arguments, calls)
      else if is_host_call operator.opcode
      then (ok void_value, calls ++ record { opcode = operator.opcode; arguments = arguments } ∷ [])
      else (evaluate_operator operator arguments, calls)

  unfoldable pub execute_operator : OperatorNode → Values → S → Executed ManifestValue
  unfolding resolve_all dispatch
  execute_operator operator values s = do
    arguments ← lift (resolve_all operator.inputs values)
    dispatch operator arguments s

  unfoldable pub run_operators : List OperatorNode → S → Values → Executed Values
  unfolding execute_operator
  run_operators [] s values = pure values
  run_operators (operator ∷ operators) s values =
      let later = run_operators operators s in
      do output ← execute_operator operator values s; later (insert operator.id output values)

  unfoldable pub plan_write : PlannedWrite → Values → Result ManifestRuntimeError StateWrite
  unfolding state_of write_key
  plan_write write values = and_then (state_of manifest write.state) λ state.
      and_then (write_key write.key state.key_type values) λ key.
        and_then (resolve write.value values) λ found.
          map_ok (λ v. record { state = write.state; key = key; value = v })
            (of_type state.value_type found)

  unfoldable pub plan_writes :
      List PlannedWrite → Values → Result ManifestRuntimeError (List StateWrite)
  unfolding plan_write
  plan_writes [] values = ok []
  plan_writes (write ∷ writes) values =
      let rest = plan_writes writes values in
      and_then (plan_write write values) λ w. map_ok (λ ws. w ∷ ws) rest

  -- `transpose` of the opening's reference.
  unfoldable pub resolve_opening :
      Option String → Values → Result ManifestRuntimeError (Option ManifestValue)
  resolve_opening none values = ok none
  resolve_opening (some reference) values = map_ok some (resolve reference values)

  unfoldable pub finish :
      FunctionManifest
      → Result ManifestRuntimeError Values × List HostCall
      → Result ManifestRuntimeError ExecutionOutcome
  unfolding plan_writes resolve_opening
  finish function (r, calls) = and_then r λ values.
      and_then (plan_writes function.state_writes values) λ writes.
        map_ok (λ o. record { state_writes = writes; host_calls = calls; opening = o })
          (resolve_opening function.opening_output values)

  unfoldable pub evaluate :
      String → Bytes → InvocationInputs → S → Result ManifestRuntimeError ExecutionOutcome
  unfolding validate_inputs bind_inputs run_operators finish
  evaluate name sender inputs s =
      and_then (ok_or (find_function name manifest.functions) function_not_found) λ function.
        and_then (validate_inputs function inputs) λ _.
          and_then
            (bind_inputs function.inputs inputs
              (insert "context:msg.sender" (address_value sender) []))
            λ values. finish function (run_operators function.operators s values [])

  unfoldable pub execute :
      String → Bytes → InvocationInputs → Action ManifestRuntimeError S ExecutionOutcome
  execute name sender inputs = do
    outcome ← (λ s. (evaluate name sender inputs s, s))
    store.commit outcome.state_writes
    pure outcome
