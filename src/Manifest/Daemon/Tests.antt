-- ===== src/Manifest/Daemon/Tests.antt =====
-- A daemon over a cursor alone, with one running task.
use ppsc.Base.{ℕ, ◌+◌, ◌≡◌, refl, true, [], ◌∷◌, none, ◌==◌, if◌then◌else◌, Result, ok, err}
use ppsc.Manifest.Types.{ContractManifest, ManifestRuntimeError, state_not_found, cursor_mismatch}
use ppsc.Manifest.Executor.{evaluate, find_function}
use ppsc.Manifest.Plaintext.{plaintext_manifest_backend}
use ppsc.Manifest.Outbox.{encode_outbox_payload}
use ppsc.Manifest.Daemon.{poll_daemon}
use ppsc.Manifest.Daemon.Types.{
  ManifestChainTask, ManifestTaskSource, DaemonStore, running, computed,
}
use ppsc.Manifest.Daemon.Hex.{decode_hex}
use ppsc.Manifest.Daemon.Polls.{Justified, poll_daemon_moves}

abbrev next_if : ℕ → ℕ → Result ManifestRuntimeError (Unit {0}) × ℕ
next_if index cursor =
    if index == cursor then (ok tt, cursor + 1) else (err cursor_mismatch, cursor)

abbrev cursor_store : DaemonStore ℕ
cursor_store = record {
  next_execution_index = λ cursor. (ok cursor, cursor);
  complete_skipped = λ index _ cursor. next_if index cursor;
  commit_computation = λ index _ _ _ cursor. next_if index cursor;
  input = λ _ _. err state_not_found;
  states = record { load = λ _ _ _. err state_not_found; commit = λ _ cursor. (ok tt, cursor) };
}

abbrev ping_contract : ContractManifest
ping_contract = record {
  language_version = 1;
  contract = "Ping";
  state = [];
  functions =
      record {
        name = "ping";
        signature = "ping()";
        selector = "0x7d32e7bd";
        inputs = [];
        operators = [];
        state_writes = [];
        opening_output = none;
      }
      ∷ [];
}

abbrev ping_task : ManifestChainTask
ping_task = record {
  execution_id = 9;
  contract_id = 5;
  selector = 125 ∷ 50 ∷ 231 ∷ 189 ∷ [];
  requester = [];
  private_input_ids = [];
  public_inputs = [];
  status = running;
  node_is_current_member = true;
}

abbrev ping_chain : ManifestTaskSource
ping_chain = record { execution_count = ok 1; task_at = λ _. ok ping_task }

decode_hex_test : decode_hex 2 (48 ∷ 120 ∷ 55 ∷ 100 ∷ 43 ∷ 50 ∷ []) ≡ ok (125 ∷ 2 ∷ [])
unfolding decode_hex
decode_hex_test = refl

poll_daemon_test :
    poll_daemon cursor_store ping_chain plaintext_manifest_backend ping_contract 5 0
    ≡ (ok (computed 0 9), 1)
unfolding poll_daemon evaluate find_function encode_outbox_payload
poll_daemon_test = refl

poll_daemon_moves_example :
    Justified cursor_store ping_chain plaintext_manifest_backend ping_contract 5 0 1 ping_task 0
      (poll_daemon cursor_store ping_chain plaintext_manifest_backend ping_contract 5 0)
poll_daemon_moves_example =
    poll_daemon_moves cursor_store ping_chain plaintext_manifest_backend ping_contract 5 0 1
      ping_task 0 0 refl refl refl
