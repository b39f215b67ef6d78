-- ===== src/Lib.antt =====
-- PPSC: confidential balances and computations on data that a committee of nodes holds as secret
-- shares or ciphertexts. The program is a workspace of Rust crates; this library models its core.
--
-- The parts and how they interact:
-- - Ledger: `BalanceRuntime` of crates/runtime/src/lib.rs credits deposits, debits withdrawals and
--   moves balances between accounts. It keeps balances as ciphertexts and asks a backend to convert
--   them to shares, add, subtract and compare. Ledger/State has its state and commands,
--   Ledger/Operations `credit_deposit` and `debit_withdrawal`, Ledger/Exchange `transfer`,
--   `encrypted_balance`, `open_balance_for_owner` and `state_root`. Ledger/Value reads a state as
--   plain balances; Ledger/Deposit, Withdrawal and Transfer state what each operation does to them.
-- - Backend: the traits `MpcBackend`, `FheBackend`, `HybridConversionBackend` and
--   `CommitmentBackend` of the same file as one record of operations, and the contract `IsCorrect`
--   that the ledger relies on. Backend/Plaintext is `PlaintextBackend`, Backend/Plaintext/Laws fills
--   the contract with it.
-- - PrivateTransfer: crates/runtime/src/private_transfer.rs, a transfer that a hidden comparison with
--   a minimum decides, over the same backend. `evaluate_transfer` is `evaluate` of
--   `PrivateTransferProgram`, `poll_transfer` is `poll_once` of `PrivateTransferExecutor`, and
--   PrivateTransfer/Fixture has the services of its tests, PrivateTransfer/Completion what they hold
--   after a request.
-- - Workflow: crates/runtime/src/workflow.rs. Workflow/Storage is `InMemoryStorageNetwork`,
--   Workflow/Crypto `PlaintextWorkflowCrypto`, Workflow/Sortition `DeterministicDevSortition`,
--   Workflow/Chain `InMemoryChain`, and Workflow/Runtime `WorkflowRuntime`, whose `poll_once` takes an
--   event from the chain, hands the inputs off to a new committee, computes and stores the output.
-- - Manifest: crates/runtime/src/manifest.rs with the data types of crates/compiler/src/lib.rs.
--   Manifest/Executor is `ManifestExecutor`, Manifest/Memory `InMemoryManifestState`,
--   Manifest/Plaintext `PlaintextManifestBackend`. Manifest/Plan, Typing and Gate say what an executed
--   function plans, which types it keeps and when it is rejected. Manifest/Outbox is the payload that
--   crates/runtime/src/manifest_daemon.rs writes for a computed task and the decoder
--   of it, and Manifest/Daemon is the poll of `ManifestCommitteeDaemon` of that file.
-- - Compiler: crates/compiler/src/lib.rs, which makes the manifests that the executor runs.
--   Compiler/Syntax has tokens, syntax trees and errors, Compiler/Lexer `lex`, Compiler/Parser and
--   Declarations the methods of `Parser`, Compiler/Operations the table of operations,
--   Compiler/Lowering the methods of `Lowerer`, and Compiler/Compile `compile`. Compiler/Totality
--   shows that lexing and parsing end, Compiler/Printer that printed programs are read back,
--   Compiler/Typing what the emitted operators satisfy and how they run in Manifest/Executor.
-- - Sharing: crates/crypto/src/mpc/shamir.rs and handoff.rs of that folder, over an interface for the
--   trait `ShareField` of field.rs. Sharing/Laws has the laws of a field that
--   they rely on.
-- - Session: `HandoffSession` of crates/protocol/src/handoff.rs, the same handoff as messages through
--   a dealer. Session/Refinement sets it against `basic_handoff`, Session/Dealer says which messages
--   the dealer accepts.
-- - Core: the identifiers and the data representation of crates/core/src/lib.rs.
-- - Base: results, actions with a state, maps, bytes and lists, for all of them.
--
-- How the code is read:
-- - An identifier of 32 bytes is the number that its bytes spell, the first byte the highest; arrays
--   of bytes are ordered as these numbers. Other byte strings are lists of numbers. The texts of a
--   manifest are strings; their equality is that of their characters.
-- - A mutex is a flag: when it is poisoned the operation returns the error of the code. A method
--   that changes state is an action, whose state comes back after an error too.
-- - `u64` and `u128` are natural numbers with the overflow checks of the code. The version number of
--   a ledger record wraps at 2 ^ 64, as in a release build.
-- - A `HashMap` or `BTreeMap` is an association list; where the program iterates over a `BTreeMap`
--   (the storage nodes), the list is kept in the order of its keys (Base/BTree).
-- - `run_until_idle` runs on fuel, one unit for each poll. More fuel than queued events is enough,
--   since each poll takes an event and no handler adds one.
-- - The compiler's source is a list of bytes, and a byte is read as the character of that number, as
--   the code does. `Parser` is a function of the tokens from its cursor on; reading past them is the
--   outcome `panicked`, running out of fuel the outcome `out_of_fuel`, and neither occurs from `lex`.
--   A `CompileError` carries its message as a constructor with the values shown. The environment of
--   `Lowerer` is an association list.
-- - The services of a private transfer, and the chain and the store of the daemon, are records of
--   operations on a state. The daemon's selectors are ASCII texts; the names in its payloads are
--   UTF-8, and the name of a decoded write stays the bytes that passed the test for UTF-8.
-- - The loops are recursion over their lists; a `collect` of results stops at the first error.
-- - The random coefficients of `split` are an argument. The field is a type with its operations; the
--   sharing theorems name the laws they use, and the tests meet them with a field of three elements.
-- - `dev_digest` and the plaintext backends are modelled as they are. They are the development
--   backends of the program; nothing is claimed of their secrecy.
--
-- Not modelled: PostgreSQL persistence, the uploads and the processes around the daemons (SQL and
-- sockets), the asynchronous network, the other MPC protocols, the arkworks fields (a parameter),
-- the FHE crate over its C++ bridge, the files and the Solidity text that the compiler writes, and
-- the Solidity contracts and the front end (other languages).
pub mod Base
pub mod Core
pub mod Backend
pub mod Ledger
pub mod Workflow
pub mod Manifest
pub mod Compiler
pub mod PrivateTransfer
pub mod Sharing
pub mod Session
