-- ===== src/Compiler/Tests.antt =====
-- The token contract of the paper, from its source text to its execution, and the theorems at it.
use ppsc.Base.{
  ℕ, ◌≡◌, ◌≢◌, ◌⊎◌, refl, true, false, [], ◌∷◌, Result, ok, err, nat_eq, pair_eq, bytes_eq,
  string_eq,
}
use ppsc.Base.Bytes.{to_be_bytes, from_be_bytes, Bytes, text_bytes}
use ppsc.Manifest.Types.{
  unknown_reference, address_value, state_key, ContractManifest, InvocationInputs,
}
use ppsc.Manifest.Executor.{find_function, resolve_owned, evaluate, execute}
use ppsc.Manifest.Memory.{commit, InMemoryManifestState, memory_store, load}
use ppsc.Manifest.Plaintext
use ppsc.Manifest.Plaintext.{secret_bool_of, plaintext_manifest_backend, fhe_uint_of}
use ppsc.Compiler.Syntax.{parse_type, Program, Tokens, CompileError}
use ppsc.Compiler.Outcome.{Outcome, done, failed}
use ppsc.Compiler.Declarations.{parse, parse_source}
use ppsc.Compiler.Compile.{compile_program}
use ppsc.Compiler.Totality.Declarations.{parse_source_ends}
use ppsc.Compiler.Printer.{stamp, print_program}
use ppsc.Compiler.Printer.Programs.{IsPrintable, kinds_of, parse-print_program}
use ppsc.Compiler.Typing.Programs.{
  StatesFollow, FunctionsTyped, distinct, names_of, compile_program_typed,
}
use ppsc.Compiler.Typing.Execution.{compiled_references_resolve}
use ppsc.Compiler.Typing.Development.{development_resolves}

abbrev source : Bytes
source =
    text_bytes
      "privacy contract Token { // balances\n private FheUint balance[address]; private Sint total; function transfer(address to, FheUint amount) public { SecretBool sufficient = H2S(FHE.ge(balance[msg.sender], amount)); require(sufficient); balance[msg.sender] = FHE.sub(balance[msg.sender], amount); balance[to] = FHE.add(balance[to], amount); } function getBalance() public { Sint share = H2S(balance[msg.sender]); total = share; return Pick(share); } }"

abbrev program_of : Outcome Program → Program
program_of (done p) = p
program_of _ = record { name = ""; states = []; functions = [] }

abbrev token : Program
unfolding parse_source
token = program_of (parse_source source)

parse_source_test : parse_source source ≡ done token
unfolding parse_source
parse_source_test = refl

abbrev offset_of : Outcome Program → ℕ
offset_of (failed e) = e.offset
offset_of _ = 0

parse_source_rejects_test :
    offset_of (parse_source (text_bytes "privacy contract Bad { private }")) ≡ 31
unfolding parse_source
parse_source_rejects_test = refl

parse_source_ends_example :
    ((p : Program) × (parse_source source ≡ done p))
    ⊎ ((e : CompileError) × (parse_source source ≡ failed e))
parse_source_ends_example = parse_source_ends source

abbrev printed : Tokens
unfolding print_program
printed = stamp (λ n. n) (print_program token)

token-IsPrintable : IsPrintable token
unfolding token parse_type
token-IsPrintable = (
  ((refl, refl), ((refl, refl), tt)),
  (
    ((refl, (refl, tt)), (refl, (refl, (refl, (refl, tt))))),
    ((tt, (refl, (refl, (refl, tt)))), tt),
  ),
)

printed_kinds : kinds_of printed ≡ print_program token
unfolding printed token
printed_kinds = refl

parse-print_program_example : parse printed ≡ done token
parse-print_program_example = parse-print_program token printed token-IsPrintable printed_kinds

abbrev no_manifest : ContractManifest
no_manifest = record { language_version = 0; contract = ""; state = []; functions = [] }

abbrev manifest_of : Result CompileError ContractManifest → ContractManifest
manifest_of (ok m) = m
manifest_of (err e) = no_manifest

abbrev compiled : ContractManifest
unfolding compile_program
compiled = manifest_of (compile_program (λ s. s) token)

compiled_ok : compile_program (λ s. s) token ≡ ok compiled
unfolding compiled compile_program token
compiled_ok = refl

compile_program_typed_example :
    StatesFollow token.states compiled.state
    × (distinct (names_of compiled.state) ≡ true)
    × FunctionsTyped token.states token.functions compiled.functions
compile_program_typed_example = compile_program_typed (λ s. s) token compiled_ok

abbrev alice : Bytes
alice =
    1 ∷ 2 ∷ 3 ∷ 4 ∷ 5 ∷ 6 ∷ 7 ∷ 8 ∷ 9 ∷ 10 ∷ 11 ∷ 12 ∷ 13 ∷ 14 ∷ 15 ∷ 16 ∷ 17 ∷ 18 ∷ 19 ∷ 20 ∷ []

abbrev hundred : InMemoryManifestState
unfolding fhe_uint_of
hundred = record { cells = (("balance", alice), fhe_uint_of 100) ∷ []; poisoned = false }

abbrev to_self : InvocationInputs
unfolding fhe_uint_of
to_self = ("to", address_value alice) ∷ ("amount", fhe_uint_of 40) ∷ []

compiled_references_resolve_example :
    evaluate compiled memory_store plaintext_manifest_backend "transfer" alice to_self hundred
    ≢ err unknown_reference
compiled_references_resolve_example =
    compiled_references_resolve compiled memory_store plaintext_manifest_backend
      development_resolves (λ s. s) token "transfer" alice to_self hundred compiled_ok

-- A transfer to oneself leaves more than there was: both balances are loaded before either is written.
self_transfer_mints_test :
    load "balance" alice
      (execute compiled memory_store plaintext_manifest_backend "transfer" alice to_self hundred).1
    ≡ ok (fhe_uint_of 140)
unfolding execute load evaluate find_function compiled token to_self hundred address_value
    resolve_owned state_key Plaintext.evaluate to_be_bytes from_be_bytes secret_bool_of commit
self_transfer_mints_test = refl
