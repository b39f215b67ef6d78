-- ===== src/Ledger/Transfer.antt =====
-- `transfer` against its specification on plain numbers.
use ppsc.Base.{
  ℕ, ◌+◌, ◌-◌, ◌≤◌, ◌<◌, ◌≡◌, refl, ◌⊎◌, inl, inr, Bool, false, ◌||◌, not, Option, none, some, ◌∷◌,
  arith, ltb, leb, ◌==◌, if◌then◌else◌, ltb→lt, lt→ltb, leb→le, le→leb, Bool-cases, Option-cases,
  Result, ok, err, ok_or, after, nat_eq, pair_eq, bytes_eq, string_eq,
}
use ppsc.Ledger.State.{
  RuntimeError, RuntimeState, TransferCommand, TransferTransition, BalanceRecord, BalanceKey,
  next_version, invalid_amount, stale_state_root, nullifier_already_spent, balance_not_found,
  insufficient_balance, state_unavailable,
}
use ppsc.Ledger.Value.{
  value_or_zero, record_value, balance_of, HasValue, IsValid, share_of, total, IsValid-lookup,
  total-insert,
}
use ppsc.Base.Dict.{lookup, insert, lookup-insert, insert-AllValues, AllValues, contains}
use ppsc.Base.Bytes.{u128_mod}
use ppsc.Backend.{ConfidentialBackend, IsCorrect, FheAmount, MpcAmount, overflow}
use ppsc.Ledger.Exchange.{moved, receiver_shares, store_transfer, transfer, next_version_or_first}
use ppsc.Base.Dict.{sum_values}

-- The balances after a transfer, the sender's first.
abbrev pub moved_balances : ℕ → Option ℕ → ℕ → Result RuntimeError (ℕ × ℕ)
moved_balances amount none to = err balance_not_found
moved_balances amount (some from) to =
    if leb amount from
    then (if ltb (to + amount) u128_mod
        then ok (from - amount, to + amount)
        else err (RuntimeError.backend overflow))
    else err insufficient_balance

-- The result of a transfer: an error, or the two new balances.
abbrev pub transfer_result :
    TransferCommand → RuntimeState → Option ℕ → Option ℕ → Result RuntimeError (ℕ × ℕ)
transfer_result c s sender receiver =
    if c.amount == 0 || c.sender == c.receiver
    then err invalid_amount
    else if s.poisoned
    then err state_unavailable
    else if not (s.state_root == c.expected_old_state_root)
    then err stale_state_root
    else if contains s.processed_transfers c.transfer_id
    then err nullifier_already_spent
    else moved_balances c.amount sender (value_or_zero receiver)

or_false_right : (a b : Bool) → (a || b) ≡ false → b ≡ false
or_false_right a b h = ground arith

abbrev pub sender_key : TransferCommand → BalanceKey
sender_key c = (c.sender, c.asset)

abbrev pub receiver_key : TransferCommand → BalanceKey
receiver_key c = (c.receiver, c.asset)

module _ {B : ConfidentialBackend} (C : IsCorrect B) (c : TransferCommand) where
  -- What a transfer has done, by its specified result: an error left the state alone; a success
  -- gave both accounts their new balances, touched no other and kept the total.
  abbrev pub Transfers :
      RuntimeState
      → BalanceKey
      → Result RuntimeError (ℕ × ℕ)
      → Result RuntimeError TransferTransition × RuntimeState
      → Type 0
  Transfers s k (err e) out = out ≡ (err e, s)
  Transfers s k (ok a) (err e, s') = ⊥
  Transfers s k (ok (from, to)) (ok t, s') =
      IsValid C s'
      × (balance_of C k s' ≡ (
          if pair_eq.beq (receiver_key c) k
          then some to
          else if pair_eq.beq (sender_key c) k
          then some from
          else balance_of C k s))
      × (s'.processed_transfers ≡ c.transfer_id ∷ s.processed_transfers)
      × (s'.state_root ≡ t.new_state_root)
      × (total C k.1 s' ≡ total C k.1 s)

module _ {B : ConfidentialBackend} (C : IsCorrect B) (c : TransferCommand)
    (amount_fits : c.amount < u128_mod) where
  -- The backend's part of a transfer between two balances.
  abbrev Moves : ℕ → ℕ → Result RuntimeError (FheAmount × FheAmount) → Type 0
  Moves from to (ok (x, y)) =
      (c.amount ≤ from)
      × (to + c.amount < u128_mod)
      × (C.fhe_value x ≡ some (from - c.amount))
      × (C.fhe_value y ≡ some (to + c.amount))
  Moves from to (err e) = moved_balances c.amount (some from) to ≡ err e

  receiver_shares_lem :
      (r : Option BalanceRecord)
      → (r ≡ none) ⊎ ((a : ℕ) × (record_value C r ≡ some a))
      → (m : MpcAmount) × (receiver_shares B r ≡ ok m)
        × (C.mpc_value m ≡ some (value_or_zero (record_value C r)))
  unfolding receiver_shares
  receiver_shares_lem none h = C.shares 0 (omega arith)
  receiver_shares_lem (some r) (inl absent) = cc
  receiver_shares_lem (some r) (inr (a, v)) = rw v (C.to_mpc r.ciphertext a v)

  -- With shares of both balances at hand.
  moved-Moves :
      (sender : BalanceRecord) (receiver : Option BalanceRecord) {from : ℕ}
      → C.fhe_value sender.ciphertext ≡ some from
      → (receiver ≡ none) ⊎ ((a : ℕ) × (record_value C receiver ≡ some a))
      → Moves from (value_or_zero (record_value C receiver)) (moved B c sender receiver)
  unfolding moved
  moved-Moves sender receiver {from} h hr =
      let to = value_or_zero (record_value C receiver) in
      let (m, e1, v1) = C.to_mpc sender.ciphertext from h in
      let (n, e2, v2) = receiver_shares_lem receiver hr in
      let (d, e3, v3) = C.shares c.amount amount_fits in
      let e4 = C.compares m d from c.amount v1 v3 in
      elim (Bool-cases (leb c.amount from)) [
        | inr short ↦ rw (e1, e2, e3, e4, short, short) refl
        | inl enough ↦
            let covered : c.amount ≤ from = leb→le _ _ enough in
            let (p, e5, v5) = C.subtracts m d from c.amount v1 v3 covered in
            elim (Bool-cases (ltb (to + c.amount) u128_mod)) [
              | inr over ↦
                  let full : u128_mod ≤ to + c.amount = ground arith in
                  rw
                    (
                      e1,
                      e2,
                      e3,
                      e4,
                      enough,
                      e5,
                      C.add_overflows n d to c.amount v2 v3 full,
                      enough,
                      over,
                    )
                    refl
              | inl fits ↦
                  let room : to + c.amount < u128_mod = ltb→lt _ _ fits in
                  let (q, e6, v6) = C.adds n d to c.amount v2 v3 room in
                  let (x, e7, v7) = C.to_fhe p c.sender c.asset (from - c.amount) v5 in
                  let (y, e8, v8) = C.to_fhe q c.receiver c.asset (to + c.amount) v6 in
                  rw (e1, e2, e3, e4, enough, e5, e6, e7, e8) (covered, room, v7, v8)
            ]
      ]

  module _ (s : RuntimeState) (k : BalanceKey) (distinct : (c.sender == c.receiver) ≡ false)
      {from : ℕ} (funds : balance_of C (sender_key c) s ≡ some from) (covered : c.amount ≤ from)
      (x y : BalanceRecord) (vx : C.fhe_value x.ciphertext ≡ some (from - c.amount))
      (vy : C.fhe_value y.ciphertext
        ≡ some (value_or_zero (balance_of C (receiver_key c) s) + c.amount)) where
    abbrev debited_state : RuntimeState
    debited_state = record s { balances = insert (sender_key c) x s.balances }

    -- The sender's new record does not touch the receiver's.
    receiver_kept : balance_of C (receiver_key c) debited_state ≡ balance_of C (receiver_key c) s
    receiver_kept = rw (lookup-insert (sender_key c) (receiver_key c)) (ground arith)

    total_kept :
        sum_values (share_of C k.1) (insert (receiver_key c) y debited_state.balances)
        ≡ total C k.1 s
    total_kept =
        let taken = total-insert C k.1 (sender_key c) x s in
        let given = total-insert C k.1 (receiver_key c) y debited_state in
        let taken' = rw (funds, vx) at taken in
        let given' = rw (receiver_kept, vy) at given in ground (arith, taken', given')

    transferred-IsValid :
        IsValid C s → AllValues (HasValue C) (insert (receiver_key c) y debited_state.balances)
    transferred-IsValid valid =
        insert-AllValues (HasValue C) (receiver_key c) y _ (_, vy)
          (insert-AllValues (HasValue C) (sender_key c) x s.balances (_, vx) valid)

    transferred_balance :
        record_value C (lookup k (insert (receiver_key c) y debited_state.balances)) ≡ (
          if pair_eq.beq (receiver_key c) k
          then some (value_or_zero (balance_of C (receiver_key c) s) + c.amount)
          else if pair_eq.beq (sender_key c) k
          then some (from - c.amount)
          else balance_of C k s)
    transferred_balance =
        rw (lookup-insert (receiver_key c) k, lookup-insert (sender_key c) k)
          (elim (Bool-cases (pair_eq.beq (receiver_key c) k)) [
            | inl e ↦ rw (e, vy)
            | inr e ↦ rw e (elim (Bool-cases (pair_eq.beq (sender_key c) k)) [
              | inl e1 ↦ rw (e1, vx)
              | inr e1 ↦ rw e1
            ])
          ])

  finish_transfer :
      (s : RuntimeState) (k : BalanceKey) (r : Result RuntimeError (FheAmount × FheAmount))
      (v w : ℕ) {from : ℕ}
      → IsValid C s
      → (c.sender == c.receiver) ≡ false
      → balance_of C (sender_key c) s ≡ some from
      → Moves from (value_or_zero (balance_of C (receiver_key c) s)) r
      → Transfers C c s k
          (moved_balances c.amount (some from) (value_or_zero (balance_of C (receiver_key c) s)))
          (after (r, s) (λ b. store_transfer B c b v w))
  unfolding store_transfer
  finish_transfer s k (err e) v w valid distinct funds why = rw why refl
  finish_transfer s k (ok (x, y)) v w valid distinct funds (covered, room, vx, vy) =
      rw (le→leb _ _ covered, lt→ltb _ _ room)
        (
          transferred-IsValid s k distinct funds covered _ _ vx vy valid,
          transferred_balance s k distinct funds covered _ _ vx vy,
          refl,
          refl,
          total_kept s k distinct funds covered _ _ vx vy,
        )

  receiver_has_value :
      (s : RuntimeState)
      → IsValid C s
      → (lookup (receiver_key c) s.balances ≡ none)
        ⊎ ((a : ℕ) × (record_value C (lookup (receiver_key c) s.balances) ≡ some a))
  receiver_has_value s valid = elim (Option-cases (lookup (receiver_key c) s.balances)) [
    | inl absent ↦ inl absent
    | inr (r, found) ↦
        let (a, v) = IsValid-lookup C s (receiver_key c) valid found in inr (a, rw found v)
  ]

  transfer_balances :
      (s : RuntimeState) (k : BalanceKey)
      → IsValid C s
      → (c.sender == c.receiver) ≡ false
      → Transfers C c s k
          (moved_balances c.amount
            (balance_of C (sender_key c) s)
            (value_or_zero (balance_of C (receiver_key c) s)))
          (after
            (ok_or (lookup (sender_key c) s.balances) balance_not_found, s)
            (λ sender s1.
              after
                (moved B c sender (lookup (receiver_key c) s1.balances), s1)
                (λ b.
                  store_transfer B c b
                    (next_version sender.version)
                    (next_version_or_first (lookup (receiver_key c) s1.balances)))))
  transfer_balances s k valid distinct = elim (Option-cases (lookup (sender_key c) s.balances)) [
    | inl absent ↦ rw absent refl
    | inr (r, found) ↦
        let (from, v) = IsValid-lookup C s (sender_key c) valid found in
        let funds : balance_of C (sender_key c) s ≡ some from = rw found v in
        rw (found, v)
          (finish_transfer s k (moved B c r (lookup (receiver_key c) s.balances)) _ _ valid distinct
            funds
            (moved-Moves r (lookup (receiver_key c) s.balances) v (receiver_has_value s valid)))
  ]

  -- For every backend that meets the contract `IsCorrect`, a transfer whose amount fits 128 bits,
  -- on a state whose stored ciphertexts all decrypt, implements `transfer_result` on the plain
  -- balances. Where that is an error (the amount is 0 or the sender is the receiver, the state is
  -- unavailable, the expected root is stale, the transfer was processed before, the sender has no
  -- record, the balance is too small, the receiver's balance would overflow), the same error is
  -- returned and the state is unchanged. Otherwise the transfer succeeds, the new ciphertexts
  -- decrypt, sender and receiver hold the specified balances, every other balance is as before,
  -- the transfer id is recorded, the state root is the returned one, and the total in every asset
  -- is unchanged.
  pub transfer-refines :
      (s : RuntimeState) (k : BalanceKey)
      → IsValid C s
      → Transfers C c s k
          (transfer_result c s (balance_of C (sender_key c) s) (balance_of C (receiver_key c) s))
          (transfer B c s)
  unfolding transfer
  transfer-refines s k valid = elim (Bool-cases (c.amount == 0 || c.sender == c.receiver)) [
    | inl e ↦ rw e refl
    | inr e1 ↦ rw e1 (elim (Bool-cases s.poisoned) [
      | inl e ↦ simp e refl
      | inr e2 ↦ simp e2 (elim (Bool-cases (s.state_root == c.expected_old_state_root)) [
        | inl e3 ↦ rw e3 (elim (Bool-cases (contains s.processed_transfers c.transfer_id)) [
          | inl e ↦ rw e refl
          | inr e4 ↦ rw e4 (transfer_balances s k valid (or_false_right _ _ e1))
        ])
        | inr e ↦ rw e refl
      ])
    ])
  ]
