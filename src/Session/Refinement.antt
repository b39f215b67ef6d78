-- ===== src/Session/Refinement.antt =====
-- The session against the direct protocol `basic_handoff` of crates/crypto/src/mpc/handoff.rs.
use ppsc.Base.{
  ℕ, suc, ◌+◌, ◌≤◌, ◌≡◌, refl, sym, ap, ◌∙◌, inl, inr, Bool, true, ◌&&◌, not, Option, none, some,
  List, [], ◌∷◌, ◌++◌, arith, ltb, ◌==◌, if◌then◌else◌, ==_iff, ==_refl, Bool-cases, length,
  get_elem?, Result, ok, err, and_then, map_ok, Result-cases, nat_eq, pair_eq, bytes_eq, string_eq,
}
use ppsc.Core.{NodeId, ExecutionId}
use ppsc.Sharing.{
  ShareField, MpcError, ShamirShare, Committee, HandoffMask, Mpc, size, points_of, values_of,
  interpolate, reconstruct, reconstruct_from_parts, subtract_shares, masked_difference_shares,
  apply_difference, basic_handoff,
}
use ppsc.Session.{
  HandoffError, CommitteeId, HandoffPhase, HandoffSession, Stage, or_crypto, new, submissions_from,
  check_submissions, has_sender, source_compute_masked_shares, submitted_points, submitted_values,
  dealer_reconstruct, destination_apply, finalize, initialized, collecting, reconstructed,
}

-- No sender comes twice, nor is one of those seen before.
abbrev pub fresh : List NodeId → List NodeId → Bool
fresh seen [] = true
fresh seen (x ∷ xs) = not (has_sender seen x) && fresh (x ∷ seen) xs

-- The stages of a session, in order.
abbrev pub run_session :
    {F : Type 0} → ShareField F → HandoffSession F → Stage (List (ShamirShare F))
run_session K s =
    and_then (source_compute_masked_shares K s)
      λ s1. and_then (dealer_reconstruct K s1) λ s2. and_then (destination_apply K s2) (finalize K)

abbrev pub output_of : {E A : Type 0} → Result E A → Option A
output_of (ok a) = some a
output_of (err e) = none

get_elem-append :
    {A : Type 0} (xs ys : List A) (y : A) → get_elem? (xs ++ y ∷ ys) (length xs) ≡ some y
get_elem-append [] ys y = refl
get_elem-append (x ∷ xs) ys y = get_elem-append xs ys y

snoc_append : {A : Type 0} (xs ys : List A) (y : A) → (xs ++ y ∷ []) ++ ys ≡ xs ++ y ∷ ys
snoc_append [] ys y = refl
snoc_append (x ∷ xs) ys y = ap (λ l. x ∷ l) (snoc_append xs ys y)

length_snoc : {A : Type 0} (xs : List A) (y : A) → length (xs ++ y ∷ []) ≡ length xs + 1
length_snoc [] y = refl
length_snoc (x ∷ xs) y = omega (arith, length_snoc xs y)

module _ {F : Type 0} (K : ShareField F) where
  length-points_of : (xs : List (ShamirShare F)) → length (points_of xs) ≡ length xs
  length-points_of [] = refl
  length-points_of (x ∷ xs) = ap suc (length-points_of xs)

  length-values_of : (xs : List (ShamirShare F)) → length (values_of xs) ≡ length xs
  length-values_of [] = refl
  length-values_of (x ∷ xs) = ap suc (length-values_of xs)

  points_of-subtract_shares :
      (xs mask : List (ShamirShare F)) {deltas : List (ShamirShare F)}
      → length xs ≡ length mask
      → subtract_shares K xs mask ≡ ok deltas
      → points_of deltas ≡ points_of xs
  unfolding subtract_shares
  points_of-subtract_shares [] mask {deltas} same h =
      let made : deltas ≡ [] = ground arith in rw made refl
  points_of-subtract_shares (x ∷ xs) [] same h = ground arith
  points_of-subtract_shares (x ∷ xs) (r ∷ mask) {deltas} same h =
      elim (Result-cases (subtract_shares K xs mask)) [
        | inr (e, failed) ↦ absurd (ground arith)
        | inl (rest, later) ↦
            let made : deltas ≡ record { point = x.point; value = K.sub x.value r.value } ∷ rest =
              ground arith in
            rw made (
              ap (λ l. x.point ∷ l)
                (points_of-subtract_shares xs mask {deltas = rest} (omega (arith, same)) later))
      ]

  module _ (s : HandoffSession F) where
    check-submissions_from :
        (phase : HandoffPhase F) (seen : List NodeId) (i : ℕ) (deltas : List (ShamirShare F))
        (senders : List NodeId)
        → i + length deltas ≤ size s.src
        → fresh seen senders ≡ true
        → check_submissions (record s { phase = phase }) seen (submissions_from s i deltas senders)
          ≡ ok tt
    unfolding check_submissions submissions_from
    check-submissions_from phase seen i [] senders fits h = refl
    check-submissions_from phase seen i (d ∷ deltas) [] fits h = refl
    check-submissions_from phase seen i (d ∷ deltas) (k ∷ senders) fits h = ground (
      arith,
      check-submissions_from phase (k ∷ seen) (i + 1) deltas senders,
      ==_refl s.execution_id,
      ==_refl s.from_committee,
      ==_refl s.to_committee,
      ==_refl s.source_degree,
    )

    length-submissions_from :
        (i : ℕ) (deltas : List (ShamirShare F)) (senders : List NodeId)
        → length senders ≡ length deltas
        → length (submissions_from s i deltas senders) ≡ length deltas
    unfolding submissions_from
    length-submissions_from i [] senders same = refl
    length-submissions_from i (d ∷ deltas) [] same = omega (arith, same)
    length-submissions_from i (d ∷ deltas) (k ∷ senders) same =
        ap suc (length-submissions_from (i + 1) deltas senders (omega (arith, same)))

    values-submissions_from :
        (i : ℕ) (deltas : List (ShamirShare F)) (senders : List NodeId)
        → length senders ≡ length deltas
        → submitted_values K (submissions_from s i deltas senders) ≡ values_of deltas
    unfolding submissions_from
    values-submissions_from i [] senders same = refl
    values-submissions_from i (d ∷ deltas) [] same = ground arith
    values-submissions_from i (d ∷ deltas) (k ∷ senders) same =
        ap (λ l. d.value ∷ l) (values-submissions_from (i + 1) deltas senders (omega (arith, same)))

    points-submissions_from :
        (before rest : List F) (deltas : List (ShamirShare F)) (senders : List NodeId)
        → length rest ≡ length deltas
        → length senders ≡ length deltas
        → submitted_points K (before ++ rest) (submissions_from s (length before) deltas senders)
          ≡ rest
    unfolding submissions_from
    points-submissions_from before [] [] senders same sent = refl
    points-submissions_from before (p ∷ rest) [] senders same sent = ground arith
    points-submissions_from before [] (d ∷ deltas) senders same sent = ground arith
    points-submissions_from before (p ∷ rest) (d ∷ deltas) [] same sent = ground arith
    points-submissions_from before (p ∷ rest) (d ∷ deltas) (k ∷ senders) same sent =
        let later =
          points-submissions_from (before ++ p ∷ []) rest deltas senders (omega (arith, same))
            (omega (arith, sent)) in
        let later' = rw (snoc_append before rest p, length_snoc before p) at later in
        ground (arith, get_elem-append before rest p, later')

  module _ (s : HandoffSession F) (x : List (ShamirShare F)) (mask : HandoffMask F)
      (started : s.phase ≡ initialized x mask) (on_points : points_of x ≡ s.src.points)
      (masks : length x ≡ length mask.source) (senders : length s.source_senders ≡ length x)
      (distinct : fresh [] s.source_senders ≡ true) where
    abbrev collected : List (ShamirShare F) → HandoffSession F
    collected deltas = record s {
      phase = collecting (submissions_from s 0 deltas s.source_senders) mask.destination;
    }

    dealer_reconstruct-collected :
        (deltas : List (ShamirShare F))
        → subtract_shares K x mask.source ≡ ok deltas
        → dealer_reconstruct K (collected deltas) ≡ (
            if ltb (length deltas) (s.src.threshold + 1)
            then err (HandoffError.insufficient_shares (length deltas) (s.src.threshold + 1))
            else map_ok
                (λ delta. record s { phase = reconstructed delta mask.destination })
                (or_crypto (reconstruct K deltas (s.src.threshold + 1))))
    unfolding dealer_reconstruct reconstruct_from_parts reconstruct
    dealer_reconstruct-collected deltas made =
        let points : points_of deltas ≡ s.src.points =
          points_of-subtract_shares x mask.source masks made ∙ on_points in
        let count : length deltas ≡ length x =
          sym (length-points_of deltas)
          ∙ (ap length (points_of-subtract_shares x mask.source masks made) ∙ length-points_of x) in
        let sized : length s.src.points ≡ length x =
          ap length (sym on_points) ∙ length-points_of x in
        let sent : length s.source_senders ≡ length deltas = omega (arith, senders, count) in
        let same : length s.src.points ≡ length deltas = omega (arith, sized, count) in
        let values : length (values_of deltas) ≡ length deltas = length-values_of deltas in
        ground (
          arith,
          points,
          values,
          same,
          length-submissions_from s 0 deltas s.source_senders sent,
          check-submissions_from s (collected deltas).phase [] 0 deltas s.source_senders
              (omega (arith, same)) distinct,
          points-submissions_from s [] s.src.points deltas s.source_senders same sent,
          values-submissions_from s 0 deltas s.source_senders sent,
        )

    abbrev direct : Mpc (List (ShamirShare F))
    direct = and_then (masked_difference_shares K x mask.source) λ deltas.
        and_then (reconstruct K deltas (s.src.threshold + 1))
          λ delta. ok (apply_difference K delta mask.destination)

    source_compute-collected :
        source_compute_masked_shares K s
        ≡ map_ok collected (or_crypto (subtract_shares K x mask.source))
    unfolding source_compute_masked_shares masked_difference_shares
    source_compute-collected = elim (Result-cases (subtract_shares K x mask.source)) [
      | inl (deltas, made) ↦ ground arith
      | inr (e, failed) ↦ ground arith
    ]

    apply-reconstructed :
        (delta : F)
        → and_then
            (destination_apply K (record s { phase = reconstructed delta mask.destination }))
            (finalize K)
          ≡ ok (apply_difference K delta mask.destination)
    unfolding destination_apply finalize
    apply-reconstructed delta = refl

    too_few :
        (deltas : List (ShamirShare F))
        → ltb (length deltas) (s.src.threshold + 1) ≡ true
        → reconstruct K deltas (s.src.threshold + 1) ≡ err MpcError.insufficient_shares
    unfolding reconstruct interpolate
    too_few deltas few = ground (arith, length-points_of deltas)

    run_session-direct : output_of (run_session K s) ≡ output_of direct
    unfolding masked_difference_shares
    run_session-direct = elim (Result-cases (subtract_shares K x mask.source)) [
      | inr (e, failed) ↦ ground (arith, source_compute-collected)
      | inl (deltas, made) ↦ elim (Bool-cases (ltb (length deltas) (s.src.threshold + 1))) [
        | inl few ↦ ground (
          arith,
          source_compute-collected,
          dealer_reconstruct-collected deltas made,
          too_few deltas few,
        )
        | inr enough ↦ elim (Result-cases (reconstruct K deltas (s.src.threshold + 1))) [
          | inr (e, failed) ↦
              ground (arith, source_compute-collected, dealer_reconstruct-collected deltas made)
          | inl (delta, found) ↦ ground (
            arith,
            source_compute-collected,
            dealer_reconstruct-collected deltas made,
            apply-reconstructed delta,
          )
        ]
      ]
    ]

  -- Over any share field: for shares at the points of the source committee and as many distinct
  -- senders as it has points, opening a session and running its stages (masking, the dealer's
  -- reconstruction, the destination's step, the end) produces shares exactly when the direct
  -- protocol `basic_handoff` does, and the same ones.
  pub session_implements_handoff :
      (execution_id : ExecutionId) (from to : CommitteeId) (src dst : Committee F)
      (x : List (ShamirShare F)) (mask : HandoffMask F) (senders : List NodeId) (dealer : NodeId)
      → points_of x ≡ src.points
      → length senders ≡ size src
      → fresh [] senders ≡ true
      → output_of
          (and_then (new execution_id from to src dst x mask senders dealer) (run_session K))
        ≡ output_of (basic_handoff K x mask src dst)
  unfolding new basic_handoff
  session_implements_handoff execution_id from to src dst x mask senders dealer on_points sent
        distinct =
      let created : HandoffSession F = record {
        execution_id = execution_id;
        from_committee = from;
        to_committee = to;
        src = src;
        dst = dst;
        source_degree = mask.source_degree;
        dealer = dealer;
        source_senders = senders;
        phase = initialized x mask;
      } in
      elim (Bool-cases (length x == length mask.source)) [
        | inr uneven ↦ ground (arith)
        | inl even ↦ elim (Bool-cases (length x == size src)) [
          | inr outside ↦ ground arith
          | inl inside ↦
              let masks : length x ≡ length mask.source =
                omega (arith, (==_iff (length x) (length mask.source)).0 even) in
              let sized : length x ≡ size src =
                omega (arith, (==_iff (length x) (size src)).0 inside) in
              ground (
                arith,
                run_session-direct created x mask refl on_points masks (omega (arith, sent, sized))
                    distinct,
              )
        ]
      ]
