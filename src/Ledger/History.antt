-- ===== src/Ledger/History.antt =====
-- Replay protection: what an identifier has been used for once never succeeds with it again.
use ppsc.Base.{
  ℕ, ◌≡◌, Bool, true, false, List, [], ◌∷◌, arith, ok, err, nat_eq, pair_eq, bytes_eq, string_eq,
}
use ppsc.Ledger.State.{RuntimeState}
use ppsc.Base.Dict.{contains}
use ppsc.Backend.{ConfidentialBackend}
use ppsc.Ledger.Operations.{credit_deposit, debit_withdrawal}
use ppsc.Ledger.Exchange.{transfer}
use ppsc.Ledger.Supply.{Command, deposit, withdraw, move, run, run_command}

-- The identifiers that a state remembers, one set for each kind of command.
pub data Used : Type 0 where
  deposit_id nullifier transfer_id : ℕ → Used

abbrev pub remembers : Used → RuntimeState → Bool
remembers (deposit_id d) s = contains s.processed_deposits d
remembers (nullifier d) s = contains s.spent_nullifiers d
remembers (transfer_id d) s = contains s.processed_transfers d

-- What a command would use up.
abbrev pub uses : Command → Used
uses (deposit c) = deposit_id c.deposit_id
uses (withdraw c) = nullifier c.nullifier
uses (move c) = transfer_id c.transfer_id

module _ (B : ConfidentialBackend) where
  abbrev pub succeeds : Command → RuntimeState → Bool
  succeeds (deposit c) s = elim (credit_deposit B c s).0 [ ok _ ↦ true | err _ ↦ false ]
  succeeds (withdraw c) s = elim (debit_withdrawal B c s).0 [ ok _ ↦ true | err _ ↦ false ]
  succeeds (move c) s = elim (transfer B c s).0 [ ok _ ↦ true | err _ ↦ false ]

  -- A command that succeeds has its identifier remembered.
  succeeds-remembers :
      (c : Command) (s : RuntimeState)
      → succeeds c s ≡ true
      → remembers (uses c) (run_command B c s) ≡ true
  unfolding credit_deposit debit_withdrawal transfer
  succeeds-remembers (deposit c) s h = ground arith
  succeeds-remembers (withdraw c) s h = ground arith
  succeeds-remembers (move c) s h = ground arith

  -- No command forgets an identifier.
  run_command-remembers :
      (u : Used) (c : Command) (s : RuntimeState)
      → remembers u s ≡ true
      → remembers u (run_command B c s) ≡ true
  unfolding credit_deposit debit_withdrawal transfer
  run_command-remembers (deposit_id d) (deposit c) s h = ground arith
  run_command-remembers (deposit_id d) (withdraw c) s h = ground arith
  run_command-remembers (deposit_id d) (move c) s h = ground arith
  run_command-remembers (nullifier d) (deposit c) s h = ground arith
  run_command-remembers (nullifier d) (withdraw c) s h = ground arith
  run_command-remembers (nullifier d) (move c) s h = ground arith
  run_command-remembers (transfer_id d) (deposit c) s h = ground arith
  run_command-remembers (transfer_id d) (withdraw c) s h = ground arith
  run_command-remembers (transfer_id d) (move c) s h = ground arith

  run-remembers :
      (u : Used) (cs : List Command) (s : RuntimeState)
      → remembers u s ≡ true
      → remembers u (run B cs s) ≡ true
  unfolding run
  run-remembers u [] s h = h
  run-remembers u (c ∷ cs) s h =
      run-remembers u cs (run_command B c s) (run_command-remembers u c s h)

  -- A command whose identifier is remembered fails.
  remembered_fails :
      (c : Command) (s : RuntimeState) → remembers (uses c) s ≡ true → succeeds c s ≡ false
  unfolding credit_deposit debit_withdrawal transfer
  remembered_fails (deposit c) s h = ground arith
  remembered_fails (withdraw c) s h = ground arith
  remembered_fails (move c) s h = ground arith

  -- After a command has succeeded, a command of the same kind with the same identifier (deposit
  -- id, nullifier or transfer id) fails after any sequence of further commands, for every
  -- backend.
  pub replay_fails :
      (first_use again : Command) (between : List Command) (s : RuntimeState)
      → uses again ≡ uses first_use
      → succeeds first_use s ≡ true
      → succeeds again (run B between (run_command B first_use s)) ≡ false
  replay_fails first_use again between s same done =
      remembered_fails again _
        (rw same (run-remembers (uses first_use) between _ (succeeds-remembers first_use s done)))
