-- ===== src/Session/Dealer.antt =====
-- What the dealer of crates/protocol/src/handoff.rs accepts, whatever messages it was sent.
use ppsc.Base.{
  ◌+◌, ◌≤◌, ◌<◌, ◌≡◌, refl, inl, inr, true, List, [], ◌∷◌, arith, length, All, ok, Result-cases,
  nat_eq, pair_eq, bytes_eq, string_eq,
}
use ppsc.Core.{NodeId}
use ppsc.Sharing.{ShareField, ShamirShare, size, reconstruct_from_parts}
use ppsc.Session.{
  MaskedShareSubmission, HandoffSession, check_submissions, submitted_points, submitted_values,
  dealer_reconstruct, collecting, reconstructed,
}
use ppsc.Session.Refinement.{fresh}

-- A message that belongs to the session and names a share of its source committee.
abbrev pub Belongs : {F : Type 0} → HandoffSession F → MaskedShareSubmission F → Type 0
Belongs s m =
    (m.execution_id ≡ s.execution_id)
    × (m.from_committee ≡ s.from_committee)
    × (m.to_committee ≡ s.to_committee)
    × (m.degree ≡ s.source_degree)
    × (m.share_index < size s.src)

abbrev pub senders_of : {F : Type 0} → List (MaskedShareSubmission F) → List NodeId
senders_of [] = []
senders_of (m ∷ messages) = m.sender ∷ senders_of messages

module _ {F : Type 0} (K : ShareField F) (s : HandoffSession F) where
  check_submissions-Belongs :
      (seen : List NodeId) (messages : List (MaskedShareSubmission F))
      → check_submissions s seen messages ≡ ok tt
      → All (Belongs s) messages × (fresh seen (senders_of messages) ≡ true)
  unfolding check_submissions
  check_submissions-Belongs seen [] h = (tt, refl)
  check_submissions-Belongs seen (m ∷ messages) h =
      let later : check_submissions s (m.sender ∷ seen) messages ≡ ok tt = ground arith in
      let (belong, distinct) = check_submissions-Belongs (m.sender ∷ seen) messages later in
      (
        ((ground arith, ground arith, ground arith, ground arith, ground arith), belong),
        ground (arith, distinct),
      )

  -- Over any share field and whatever messages a session in its collecting phase holds: when the
  -- dealer's stage succeeds, there are at least the threshold plus one of them, each carries the
  -- session's execution, committees and degree and an index of the source committee, no sender
  -- comes twice, and the next session is the old one with the value that the named points and
  -- submitted shares reconstruct to.
  pub dealer_reconstruct_accepts :
      (messages : List (MaskedShareSubmission F)) (dst_mask : List (ShamirShare F))
      {next : HandoffSession F}
      → s.phase ≡ collecting messages dst_mask
      → dealer_reconstruct K s ≡ ok next
      → (s.src.threshold + 1 ≤ length messages)
        × All (Belongs s) messages
        × (fresh [] (senders_of messages) ≡ true)
        × ((delta : F) × (reconstruct_from_parts K
                (submitted_points K s.src.points messages)
                (submitted_values K messages)
                (s.src.threshold + 1)
              ≡ ok delta)
            × (next ≡ record s { phase = reconstructed delta dst_mask }))
  unfolding dealer_reconstruct
  dealer_reconstruct_accepts messages dst_mask {next} phase h =
      elim (Result-cases (
        reconstruct_from_parts K (submitted_points K s.src.points messages)
          (submitted_values K messages) (s.src.threshold + 1))) [
            | inr (e, failed) ↦ absurd (ground arith)
            | inl (delta, found) ↦
                let checked : check_submissions s [] messages ≡ ok tt = ground arith in
                let (belong, distinct) = check_submissions-Belongs [] messages checked in
                (ground arith, belong, distinct, (delta, found, ground arith))
          ]
