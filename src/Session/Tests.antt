-- ===== src/Session/Tests.antt =====
-- A session between two committees of two members over the field of three elements.
use ppsc.Base.{
  ℕ, ◌≤◌, ◌≡◌, refl, true, List, [], ◌∷◌, All, ok, and_then, nat_eq, pair_eq, bytes_eq, string_eq,
}
use ppsc.Core.{NodeId}
use ppsc.Sharing.{reconstruct_from_parts, basic_handoff}
use ppsc.Session.{new}
use ppsc.Session.{
  HandoffSession, MaskedShareSubmission, collecting, reconstructed, dealer_reconstruct,
  submitted_points, submitted_values,
}
use ppsc.Session.Dealer.{Belongs, senders_of, dealer_reconstruct_accepts}
use ppsc.Session.Refinement.{fresh, run_session, output_of, session_implements_handoff}
use ppsc.Sharing.Tests.{Trit, trits, two_members, secret_shares, mask, t0, t1, t2}

session_implements_handoff_example :
    output_of (
      and_then
        (new 1 2 3 two_members two_members secret_shares mask (7 ∷ 8 ∷ []) 9)
        (run_session trits))
    ≡ output_of (basic_handoff trits secret_shares mask two_members two_members)
session_implements_handoff_example =
    session_implements_handoff trits 1 2 3 two_members two_members secret_shares mask (7 ∷ 8 ∷ []) 9
      refl refl refl

abbrev message : NodeId → ℕ → Trit → MaskedShareSubmission Trit
message sender share_index masked_share = record {
  execution_id = 1;
  from_committee = 2;
  to_committee = 3;
  sender = sender;
  share_index = share_index;
  degree = 1;
  masked_share = masked_share;
}

abbrev messages : List (MaskedShareSubmission Trit)
messages = message 7 0 t0 ∷ message 8 1 t2 ∷ []

-- The session after its first stage.
abbrev submitted : HandoffSession Trit
submitted = record {
  execution_id = 1;
  from_committee = 2;
  to_committee = 3;
  src = two_members;
  dst = two_members;
  source_degree = 1;
  dealer = 9;
  source_senders = 7 ∷ 8 ∷ [];
  phase = collecting messages mask.destination;
}

abbrev decided : HandoffSession Trit
decided = record submitted { phase = reconstructed t1 mask.destination }

dealer_decides : dealer_reconstruct trits submitted ≡ ok decided
unfolding dealer_reconstruct reconstruct_from_parts
dealer_decides = refl

dealer_reconstruct_accepts_example :
    (2 ≤ 2)
    × All (Belongs submitted) messages
    × (fresh [] (senders_of messages) ≡ true)
    × ((delta : Trit) × (reconstruct_from_parts trits
            (submitted_points trits (t1 ∷ t2 ∷ []) messages)
            (submitted_values trits messages)
            2
          ≡ ok delta)
        × (decided ≡ record submitted { phase = reconstructed delta mask.destination }))
dealer_reconstruct_accepts_example =
    dealer_reconstruct_accepts trits submitted messages mask.destination refl dealer_decides
