-- ===== src/Workflow/Runtime/Loop.antt =====
-- The event loop: each poll takes one event from the queue, so the loop ends.
use ppsc.Base.{
  ℕ, zero, suc, ◌+◌, ◌≤◌, ◌<◌, ◌≡◌, refl, ◌∙◌, ◌⊎◌, inl, inr, true, false, some, List, [], ◌∷◌,
  arith, length, Result, ok, err, Result-cases, nat_eq, pair_eq, bytes_eq, string_eq,
}
use ppsc.Core.{NodeId, DataId, ExecutionId, DataRepresentation, secret_sharing, homomorphic}
use ppsc.Workflow.Types.{WorkflowError, WorkflowCryptoBackend}
use ppsc.Workflow.Sortition.{SortitionBackend}
use ppsc.Workflow.Chain.{RuntimeChainEvent, data_published, compute_requested}
use ppsc.Workflow.Runtime.{
  World, check_published, compute, output_id_of, fetch_input, fetch_inputs, store_output,
  run_compute, handle_event, handle_next, poll_once, run_until_idle,
}
use ppsc.Workflow.Chain.{next_event, record_handoff, record_computation}

list_cases : {A : Type 0} (xs : List A) → (xs ≡ []) ⊎ ((y : A) × (ys : List A) × (xs ≡ y ∷ ys))
list_cases [] = inl refl
list_cases (x ∷ xs) = inr (x, xs, refl)

-- The end of the loop: with success, every event is counted and the queue is empty; with an error,
-- the queue is no longer than before.
abbrev pub Finished : ℕ → World → Result WorkflowError ℕ × World → Type 0
Finished handled w (ok n, w') = (n ≡ handled + length w.chain.events) × (w'.chain.events ≡ [])
Finished handled w (err e, w') = length w'.chain.events ≤ length w.chain.events

module _ (R : WorkflowCryptoBackend) where
  events-fetch_input :
      (x : ExecutionId) (committee : List NodeId) (d : DataId) (w : World)
      → (fetch_input R x committee d w).1.chain.events ≡ w.chain.events
  unfolding fetch_input record_handoff
  events-fetch_input x committee d w = ground arith

  events-fetch_inputs :
      (x : ExecutionId) (committee : List NodeId) (ds : List DataId) (w : World)
      → (fetch_inputs R x committee ds w).1.chain.events ≡ w.chain.events
  unfolding fetch_inputs
  events-fetch_inputs x committee [] w = refl
  events-fetch_inputs x committee (d ∷ ds) w = ground (
    arith,
    events-fetch_input x committee d w,
    events-fetch_inputs x committee ds (fetch_input R x committee d w).1,
  )

  events-store_output :
      (r : DataRepresentation) (d : DataId) (v : ℕ) (committee : List NodeId) (w : World)
      → (store_output R r d v committee w).1.chain.events ≡ w.chain.events
  unfolding store_output
  events-store_output secret_sharing d v committee w = ground arith
  events-store_output homomorphic d v committee w = ground arith

  module _ (S : SortitionBackend) where
    events-handle_event :
        (e : RuntimeChainEvent) (w : World) → (handle_event R S e w).1.chain.events ≡ w.chain.events
    unfolding handle_event check_published run_compute record_computation
    events-handle_event (data_published e) w = ground arith
    events-handle_event (compute_requested e) w =
        elim (Result-cases (S.select e.seed e.eligible_nodes e.committee_size)) [
          | inl (committee, p) ↦
              let fetched = fetch_inputs R e.execution_id committee e.input_data_ids w in
              elim (Result-cases fetched.0) [
                | inl (values, q) ↦ elim (Result-cases (compute e.operation values)) [
                  | inl (v, c) ↦ ground (
                    arith,
                    events-fetch_inputs e.execution_id committee e.input_data_ids w,
                    events-store_output e.output_representation
                        (output_id_of e.execution_id v e.output_representation) v committee
                        fetched.1,
                  )
                  | inr (er, c) ↦
                      ground
                        (arith, events-fetch_inputs e.execution_id committee e.input_data_ids w)
                ]
                | inr (er, q) ↦
                    ground (arith, events-fetch_inputs e.execution_id committee e.input_data_ids w)
              ]
          | inr (er, p) ↦ ground arith
        ]

    -- A poll that reports more work took exactly one event from the queue.
    poll_once_takes :
        (w : World)
        → (poll_once R S w).0 ≡ ok true
        → length w.chain.events ≡ suc (length (poll_once R S w).1.chain.events)
    unfolding poll_once handle_next next_event
    poll_once_takes w h = elim (list_cases w.chain.events) [
      | inl e ↦ ground arith
      | inr (x, xs, e) ↦
          let taken : World = record w { chain = record w.chain { events = xs } } in
          ground (arith, events-handle_event x taken)
    ]

    -- A poll that reports no more work found the queue empty and left it so.
    poll_once_idle :
        (w : World)
        → (poll_once R S w).0 ≡ ok false
        → (w.chain.events ≡ []) × ((poll_once R S w).1.chain.events ≡ [])
    unfolding poll_once handle_next next_event
    poll_once_idle w h = elim (list_cases w.chain.events) [
      | inl e ↦ (e, ground arith)
      | inr (x, xs, e) ↦ ground arith
    ]

    poll_once_shrinks :
        (w : World) → length (poll_once R S w).1.chain.events ≤ length w.chain.events
    unfolding poll_once handle_next next_event
    poll_once_shrinks w = elim (list_cases w.chain.events) [
      | inl e ↦ ground arith
      | inr (x, xs, e) ↦
          let taken : World = record w { chain = record w.chain { events = xs } } in
          ground (arith, events-handle_event x taken)
    ]

    Finished-step :
        (handled : ℕ) (w w' : World) (out : Result WorkflowError ℕ × World)
        → length w.chain.events ≡ suc (length w'.chain.events)
        → Finished (handled + 1) w' out
        → Finished handled w out
    Finished-step handled w w' (ok n, v) one (counted, idle) = (omega (arith, counted, one), idle)
    Finished-step handled w w' (err e, v) one fewer = omega (arith, fewer, one)

    module _ (fuel handled : ℕ) (w : World) where
      run_more :
          (poll_once R S w).0 ≡ ok true
          → run_until_idle R S (suc fuel) handled w
            ≡ run_until_idle R S fuel (handled + 1) (poll_once R S w).1
      unfolding run_until_idle
      run_more more = ground arith

      run_idle :
          (poll_once R S w).0 ≡ ok false
          → run_until_idle R S (suc fuel) handled w ≡ some (ok handled, (poll_once R S w).1)
      unfolding run_until_idle
      run_idle idle = ground arith

      run_failed :
          {e : WorkflowError}
          → (poll_once R S w).0 ≡ err e
          → run_until_idle R S (suc fuel) handled w ≡ some (err e, (poll_once R S w).1)
      unfolding run_until_idle
      run_failed failed = ground arith

    -- The event loop returns a result whenever its fuel exceeds the number of queued events. When
    -- the result is a success, the count is the count it started from plus the number of queued
    -- events and the queue is empty; when it is an error, the queue is no longer than before.
    pub run_until_idle_ends :
        (fuel handled : ℕ) (w : World)
        → length w.chain.events < fuel
        → (out : Result WorkflowError ℕ × World) × (run_until_idle R S fuel handled w ≡ some out)
          × Finished handled w out
    run_until_idle_ends zero handled w enough = ground arith
    run_until_idle_ends (suc fuel) handled w enough =
        let w' = (poll_once R S w).1 in
        elim (Result-cases (poll_once R S w).0) [
          | inr (e, failed) ↦ ((err e, w'), run_failed fuel handled w failed, poll_once_shrinks w)
          | inl (true, more) ↦
              let one = poll_once_takes w more in
              let (out, ended, finished) =
                run_until_idle_ends fuel (handled + 1) w' (omega (arith, one, enough)) in
              (
                out,
                run_more fuel handled w more ∙ ended,
                Finished-step handled w w' out one finished,
              )
          | inl (false, more) ↦
              let (empty, left) = poll_once_idle w more in
              ((ok handled, w'), run_idle fuel handled w more, (rw empty (omega arith), left))
        ]
