-- ===== src/Ledger/Atomic.antt =====
-- Every operation of the ledger that fails leaves the state as it was.
use ppsc.Base.{◌≡◌, false, arith, nat_eq, pair_eq, bytes_eq, string_eq}
use ppsc.Ledger.State.{RuntimeState}
use ppsc.Backend.{ConfidentialBackend}
use ppsc.Ledger.Operations.{credit_deposit, debit_withdrawal}
use ppsc.Ledger.Exchange.{transfer}
use ppsc.Ledger.Supply.{Command, deposit, withdraw, move, run_command}
use ppsc.Ledger.History.{succeeds}

module _ (B : ConfidentialBackend) where
  -- A deposit, withdrawal or transfer that fails, for whatever reason and with any backend,
  -- leaves the whole state as it was.
  pub failed_command_keeps_state :
      (c : Command) (s : RuntimeState) → succeeds B c s ≡ false → run_command B c s ≡ s
  unfolding credit_deposit debit_withdrawal transfer
  failed_command_keeps_state (deposit c) s h = ground arith
  failed_command_keeps_state (withdraw c) s h = ground arith
  failed_command_keeps_state (move c) s h = ground arith
