-- ===== src/Manifest/Daemon/Polls.antt =====
-- When a poll of crates/runtime/src/manifest_daemon.rs moves the cursor of its node.
use ppsc.Base.{
  ℕ, ◌≡◌, refl, ◌⊎◌, inl, inr, true, false, leb, ◌==◌, Bool-cases, Result-cases, Result, ok, err,
  map_err, after, pure, List, ap, ◌∙◌, arith,
}
use ppsc.Base.Bytes.{Bytes}
use ppsc.Core.{Identifier}
use ppsc.Manifest.Executor.{evaluate}
use ppsc.Manifest.Types.{
  StateWrite, FunctionManifest, InvocationInputs, ManifestRuntimeError, ContractManifest,
  ExecutionOutcome, ManifestCryptoBackend,
}
use ppsc.Manifest.Outbox.{DaemonError, runtime, encode_outbox_payload}
use ppsc.Manifest.Daemon.{
  function_by_selector, invocation_inputs, task_result, compute_task, skip_task, handle_task,
  poll_daemon,
}
use ppsc.Manifest.Daemon.Types.{
  ManifestChainTask, ManifestTaskSource, DaemonStore, PollOutcome, idle, waiting, skipped, computed,
  is_terminal, is_running,
}

module _ {S : Type 0} (store : DaemonStore S) (chain : ManifestTaskSource)
    (backend : ManifestCryptoBackend) (manifest : ContractManifest) (contract_id : Identifier)
    (index count : ℕ) (task : ManifestChainTask) (s : S) where
  -- The task is another contract's, or over.
  abbrev pub IsDead : Type 0
  IsDead = ((task.contract_id == contract_id) ≡ false) ⊎ (is_terminal task.status ≡ true)

  -- The task is this contract's, runs, and the node is in its committee.
  abbrev pub IsMine : Type 0
  IsMine =
      ((task.contract_id == contract_id) ≡ true)
      × (is_running task.status ≡ true)
      × (task.node_is_current_member ≡ true)

  -- The writes and the payload that the computation of the task commits: the outcome is the one
  -- of the manifest's function with the task's selector, for the requester and the inputs of the
  -- task, and the payload encodes it under the task's execution id.
  abbrev pub IsComputation : List StateWrite → Bytes → Type 0
  IsComputation writes payload =
      (function : FunctionManifest) × (inputs : InvocationInputs) × (outcome : ExecutionOutcome)
      × (function_by_selector manifest.functions task.selector ≡ ok function)
      × (invocation_inputs store function task s ≡ ok inputs)
      × (evaluate manifest store.states backend function.name task.requester inputs s ≡ ok outcome)
      × (outcome.state_writes ≡ writes)
      × (encode_outbox_payload task.execution_id outcome ≡ ok payload)

  task_result-IsComputation :
      {outcome : ExecutionOutcome} {payload : Bytes}
      → task_result store chain backend manifest contract_id task s ≡ ok (outcome, payload)
      → IsComputation outcome.state_writes payload
  unfolding task_result
  task_result-IsComputation {outcome} {payload} h =
      elim (Result-cases (function_by_selector manifest.functions task.selector)) [
        | inr (e, failed) ↦ absurd (ground arith)
        | inl (function, found) ↦ elim (Result-cases (invocation_inputs store function task s)) [
          | inr (e, failed) ↦ absurd (ground arith)
          | inl (inputs, read) ↦
              elim (Result-cases
                (evaluate manifest store.states backend function.name task.requester inputs s)) [
                  | inr (e, failed) ↦ absurd (ground arith)
                  | inl (o, evaluated) ↦
                      elim (Result-cases (encode_outbox_payload task.execution_id o)) [
                        | inr (e, failed) ↦ absurd (ground arith)
                        | inl (bytes, encoded) ↦
                            let same : (o ≡ outcome) × (bytes ≡ payload) = ground arith in
                            (
                              function,
                              inputs,
                              o,
                              found,
                              read,
                              evaluated,
                              ap (λ x. x.state_writes) same.0,
                              encoded ∙ ap ok same.1,
                            )
                      ]
                ]
        ]
      ]

  -- What a poll with a result has done to the store since it read the cursor.
  abbrev pub Justified : Result DaemonError PollOutcome × S → Type 0
  Justified (err e, s') =
      (IsMine × (task_result store chain backend manifest contract_id task s ≡ err e) × (s' ≡ s))
      ⊎ ((x : ManifestRuntimeError) × (e ≡ runtime x)
          × ((IsDead × (store.complete_skipped index task.execution_id s ≡ (err x, s')))
              ⊎ (IsMine
                  × ((writes : List StateWrite) × (payload : Bytes) × IsComputation writes payload
                      × (store.commit_computation index task.execution_id writes payload s
                          ≡ (err x, s'))))))
  Justified (ok idle, s') = (s' ≡ s) × (leb count index ≡ true)
  Justified (ok waiting, s') =
      (s' ≡ s)
      × ((task.contract_id == contract_id) ≡ true)
      × (is_terminal task.status ≡ false)
      × ((is_running task.status ≡ false) ⊎ (task.node_is_current_member ≡ false))
  Justified (ok (skipped i id), s') =
      (i ≡ index)
      × (id ≡ task.execution_id)
      × IsDead
      × (store.complete_skipped index task.execution_id s ≡ (ok tt, s'))
  Justified (ok (computed i id), s') =
      (i ≡ index)
      × (id ≡ task.execution_id)
      × IsMine
      × ((writes : List StateWrite) × (payload : Bytes) × IsComputation writes payload
          × (store.commit_computation index task.execution_id writes payload s ≡ (ok tt, s')))

  finish_skip :
      (out : Result ManifestRuntimeError (Unit {0}) × S)
      → store.complete_skipped index task.execution_id s ≡ out
      → IsDead
      → Justified
          (after (map_err runtime out.0, out.1) (λ _. pure (skipped index task.execution_id)))
  finish_skip (ok _, s') e dead = (refl, refl, dead, e)
  finish_skip (err x, s') e dead = inr (x, refl, inl (dead, e))

  finish_compute :
      (out : Result ManifestRuntimeError (Unit {0}) × S) (writes : List StateWrite)
      (payload : Bytes)
      → IsComputation writes payload
      → store.commit_computation index task.execution_id writes payload s ≡ out
      → IsMine
      → Justified
          (after (map_err runtime out.0, out.1) (λ _. pure (computed index task.execution_id)))
  finish_compute (ok _, s') writes payload r e mine = (refl, refl, mine, (writes, payload, r, e))
  finish_compute (err x, s') writes payload r e mine =
      inr (x, refl, inr (mine, (writes, payload, r, e)))

  skip_task-Justified :
      IsDead → Justified (skip_task store chain backend manifest contract_id index task s)
  unfolding skip_task
  skip_task-Justified dead = finish_skip _ refl dead

  compute_task-Justified :
      IsMine → Justified (compute_task store chain backend manifest contract_id index task s)
  unfolding compute_task
  compute_task-Justified mine =
      elim (Result-cases (task_result store chain backend manifest contract_id task s)) [
        | inr (e, failed) ↦ rw failed (inl (mine, failed, refl))
        | inl ((outcome, payload), found) ↦ rw found (
            finish_compute _ outcome.state_writes payload (task_result-IsComputation found) refl
              mine)
      ]

  handle_task-Justified :
      Justified (handle_task store chain backend manifest contract_id index task s)
  unfolding handle_task
  handle_task-Justified = elim (Bool-cases (task.contract_id == contract_id)) [
    | inr foreign ↦ rw foreign (skip_task-Justified (inl foreign))
    | inl own ↦ rw own (elim (Bool-cases (is_terminal task.status)) [
      | inl over ↦ rw over (skip_task-Justified (inr over))
      | inr live ↦ rw live (elim (Bool-cases (is_running task.status)) [
        | inr still ↦ rw still (refl, own, live, inl still)
        | inl running_now ↦ rw running_now (elim (Bool-cases task.node_is_current_member) [
          | inr outside ↦ simp outside (refl, own, live, inr refl)
          | inl member ↦ simp member (compute_task-Justified (own, running_now, member))
        ])
      ])
    ])
  ]

  -- For a poll that reads the cursor at `index`, on a chain with `count` tasks of which the one
  -- at `index` is `task`: what the poll does to the store after that, whether it succeeds or
  -- fails, is nothing, or one completion of the task as skipped, or one commit of its
  -- computation. It completes the task as skipped only when the task is another contract's or
  -- over, and commits only when the task is this contract's, runs and has the node in its
  -- committee, with the writes of the outcome that the manifest's function for the task's
  -- selector has on the task's inputs, and with the encoding of that outcome. A poll that waits
  -- or is idle has left the store as it was, and it waits only on a live task of this contract
  -- that does not run or has the node outside its committee. A poll fails only with the error of
  -- computing such a task, which leaves the store as it was, or with that of the completion or
  -- the commit itself.
  pub poll_daemon_moves :
      (before : S)
      → store.next_execution_index before ≡ (ok index, s)
      → chain.execution_count ≡ ok count
      → chain.task_at index ≡ ok task
      → Justified (poll_daemon store chain backend manifest contract_id before)
  unfolding poll_daemon
  poll_daemon_moves before next counted found =
      rw (next, counted)
        (elim (Bool-cases (leb count index)) [
          | inl done ↦ rw done (refl, done)
          | inr more ↦ rw (more, found) handle_task-Justified
        ])
