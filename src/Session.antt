-- ===== src/Session.antt =====
-- `HandoffSession` of crates/protocol/src/handoff.rs: the handoff of a secret as messages through a
-- dealer, stage by stage.
pub mod Refinement
pub mod Dealer
pub mod Tests
use ppsc.Base.{
  ℕ, zero, suc, ◌+◌, ◌-◌, ◌*◌, ◌/◌, ◌%◌, ◌^◌, ◌≤◌, ◌<◌, ◌≡◌, ◌≢◌, refl, sym, ap, ◌∙◌, ◌↔◌, ◌⊎◌, inl,
  inr, Bool, true, false, ◌&&◌, ◌||◌, not, Option, none, some, List, [], ◌∷◌, ◌++◌, map, arith,
  String, ltb, leb, ◌==◌, if◌then◌else◌, ltb→lt, lt→ltb, leb→le, le→leb, ==_iff, ==_refl,
  Bool-cases, Option-cases, length, is_empty, first, get_elem?, take, drop, All, length-append,
  length-map, Result, ok, err, and_then, map_ok, map_err, ok_or, Action, pure, lift, gets, modify,
  fail_if, after, ◌>>=◌, ◌>>◌, Result-cases, EqKey, nat_eq, pair_eq, bytes_eq, string_eq,
}
use ppsc.Core.{NodeId, ExecutionId, Identifier}
use ppsc.Sharing.{
  ShareField, MpcError, ShamirShare, Committee, HandoffMask, Mpc, size, points_of, values_of,
  interpolate, reconstruct, reconstruct_from_parts, subtract_shares, masked_difference_shares,
  apply_difference, basic_handoff,
}

pub data HandoffError : Type 0 where
  invalid_state share_count_mismatch wrong_committee wrong_degree wrong_execution : HandoffError
  insufficient_shares : ℕ → ℕ → HandoffError
  duplicate_sender : NodeId → HandoffError
  invalid_share_index : ℕ → HandoffError
  crypto : MpcError → HandoffError

abbrev pub CommitteeId : Type 0
CommitteeId = Identifier

pub record MaskedShareSubmission (F : Type 0) : Type 0 where
  pub execution_id : ExecutionId
  pub from_committee : CommitteeId
  pub to_committee : CommitteeId
  pub sender : NodeId
  pub share_index : ℕ
  pub degree : ℕ
  pub masked_share : F

pub record MaskedDeltaBroadcast (F : Type 0) : Type 0 where
  pub execution_id : ExecutionId
  pub from_committee : CommitteeId
  pub to_committee : CommitteeId
  pub dealer : NodeId
  pub delta : F

pub data HandoffPhase (F : Type 0) : Type 0 where
  initialized : List (ShamirShare F) → HandoffMask F → HandoffPhase F
  collecting : List (MaskedShareSubmission F) → List (ShamirShare F) → HandoffPhase F
  reconstructed : F → List (ShamirShare F) → HandoffPhase F
  output_ready : List (ShamirShare F) → HandoffPhase F

pub record HandoffSession (F : Type 0) : Type 0 where
  pub execution_id : ExecutionId
  pub from_committee : CommitteeId
  pub to_committee : CommitteeId
  pub src : Committee F
  pub dst : Committee F
  pub source_degree : ℕ
  pub dealer : NodeId
  pub source_senders : List NodeId
  pub phase : HandoffPhase F

abbrev pub Stage : Type 0 → Type 0
Stage A = Result HandoffError A

abbrev pub or_crypto : {A : Type 0} → Mpc A → Stage A
or_crypto r = map_err HandoffError.crypto r

-- `seen`, the set of the senders
abbrev pub has_sender : List NodeId → NodeId → Bool
has_sender [] k = false
has_sender (x ∷ xs) k = k == x || has_sender xs k

module _ {F : Type 0} where
  unfoldable pub new :
      ExecutionId
      → CommitteeId
      → CommitteeId
      → Committee F
      → Committee F
      → List (ShamirShare F)
      → HandoffMask F
      → List NodeId
      → NodeId
      → Stage (HandoffSession F)
  new execution_id from to src dst x_shares mask source_senders dealer =
      if not (length x_shares == size src)
        || (not (length mask.source == size src) || not (length source_senders == size src))
      then err share_count_mismatch
      else if not (length mask.destination == size dst)
      then err share_count_mismatch
      else ok (record {
        execution_id = execution_id;
        from_committee = from;
        to_committee = to;
        src = src;
        dst = dst;
        source_degree = mask.source_degree;
        dealer = dealer;
        source_senders = source_senders;
        phase = initialized x_shares mask;
      })

  -- The submissions of the shares and their senders, from an index on.
  unfoldable pub submissions_from :
      HandoffSession F → ℕ → List (ShamirShare F) → List NodeId → List (MaskedShareSubmission F)
  submissions_from s i [] senders = []
  submissions_from s i (d ∷ deltas) [] = []
  submissions_from s i (d ∷ deltas) (sender ∷ senders) =
      record {
        execution_id = s.execution_id;
        from_committee = s.from_committee;
        to_committee = s.to_committee;
        sender = sender;
        share_index = i;
        degree = s.source_degree;
        masked_share = d.value;
      }
      ∷ submissions_from s (i + 1) deltas senders

  -- The dealer's loop over the submissions, with the senders seen so far.
  unfoldable pub check_submissions :
      HandoffSession F → List NodeId → List (MaskedShareSubmission F) → Stage (Unit {0})
  check_submissions s seen [] = ok tt
  check_submissions s seen (m ∷ messages) =
      let rest = check_submissions s (m.sender ∷ seen) messages in
      if not (m.execution_id == s.execution_id)
      then err wrong_execution
      else if not (m.from_committee == s.from_committee) || not (m.to_committee == s.to_committee)
      then err wrong_committee
      else if not (m.degree == s.source_degree)
      then err wrong_degree
      else if leb (size s.src) m.share_index
      then err (invalid_share_index m.share_index)
      else if has_sender seen m.sender
      then err (duplicate_sender m.sender)
      else rest

  module _ (K : ShareField F) where
    -- Stage 1: each source member masks its share.
    unfoldable pub source_compute_masked_shares : HandoffSession F → Stage (HandoffSession F)
    unfolding submissions_from
    source_compute_masked_shares s = elim s.phase [
      | initialized x_shares mask ↦
          and_then (or_crypto (masked_difference_shares K x_shares mask.source)) λ deltas.
            ok (record s {
              phase = collecting (submissions_from s 0 deltas s.source_senders) mask.destination;
            })
      | collecting submissions dst_mask ↦ err invalid_state
      | reconstructed delta dst_mask ↦ err invalid_state
      | output_ready output ↦ err invalid_state
    ]

    -- `src.points[i]`. The index was checked, so that the list has it.
    abbrev pub point_at : List F → ℕ → F
    point_at points i = elim (get_elem? points i) [ none ↦ K.field_zero | some p ↦ p ]

    abbrev pub submitted_points : List F → List (MaskedShareSubmission F) → List F
    submitted_points points [] = []
    submitted_points points (m ∷ messages) =
        point_at points m.share_index ∷ submitted_points points messages

    abbrev pub submitted_values : List (MaskedShareSubmission F) → List F
    submitted_values [] = []
    submitted_values (m ∷ messages) = m.masked_share ∷ submitted_values messages

    -- Stage 2: the dealer checks the submissions and reconstructs the masked difference.
    unfoldable pub dealer_reconstruct : HandoffSession F → Stage (HandoffSession F)
    unfolding check_submissions
    dealer_reconstruct s = elim s.phase [
      | initialized x_shares mask ↦ err invalid_state
      | collecting submissions dst_mask ↦
          let required = s.src.threshold + 1 in
          if ltb (length submissions) required
          then err (insufficient_shares (length submissions) required)
          else and_then (check_submissions s [] submissions) λ _.
            and_then
              (or_crypto (
                reconstruct_from_parts K (submitted_points s.src.points submissions)
                  (submitted_values submissions) required))
              λ delta. ok (record s { phase = reconstructed delta dst_mask })
      | reconstructed delta dst_mask ↦ err invalid_state
      | output_ready output ↦ err invalid_state
    ]

    -- Stage 3: the broadcast, which leaves the session as it is.
    unfoldable pub dealer_broadcast : HandoffSession F → Stage (MaskedDeltaBroadcast F)
    dealer_broadcast s = elim s.phase [
      | initialized x_shares mask ↦ err invalid_state
      | collecting submissions dst_mask ↦ err invalid_state
      | reconstructed delta dst_mask ↦ ok (record {
        execution_id = s.execution_id;
        from_committee = s.from_committee;
        to_committee = s.to_committee;
        dealer = s.dealer;
        delta = delta;
      })
      | output_ready output ↦ err invalid_state
    ]

    -- Stage 4: the destination members add the difference to their masks.
    unfoldable pub destination_apply : HandoffSession F → Stage (HandoffSession F)
    destination_apply s = elim s.phase [
      | initialized x_shares mask ↦ err invalid_state
      | collecting submissions dst_mask ↦ err invalid_state
      | reconstructed delta dst_mask ↦
          ok (record s { phase = output_ready (apply_difference K delta dst_mask) })
      | output_ready output ↦ err invalid_state
    ]

    -- Stage 5: the new shares.
    unfoldable pub finalize : HandoffSession F → Stage (List (ShamirShare F))
    finalize s = elim s.phase [
      | initialized x_shares mask ↦ err invalid_state
      | collecting submissions dst_mask ↦ err invalid_state
      | reconstructed delta dst_mask ↦ err invalid_state
      | output_ready output ↦ ok output
    ]
