-- ===== src/Core.antt =====
-- crates/core/src/lib.rs: the domain types that the crates share. A 32-byte identifier is the
-- number whose 32 big-endian base-256 digits its bytes are, so `==` and the derived order of the
-- byte arrays are those of the numbers.
use ppsc.Base.{ℕ, ◌^◌, ◌<◌, ◌≡◌, Bool, true, false}
use ppsc.Base.Bytes.{Bytes, to_be_bytes, from_be_bytes, from_be_bytes-to_be_bytes}

abbrev pub Identifier : Type 0
Identifier = ℕ

abbrev pub TaskId : Type 0
TaskId = Identifier

abbrev pub NodeId : Type 0
NodeId = Identifier

abbrev pub CommitteeId : Type 0
CommitteeId = Identifier

abbrev pub Commitment : Type 0
Commitment = Identifier

abbrev pub DataId : Type 0
DataId = Identifier

abbrev pub ExecutionId : Type 0
ExecutionId = Identifier

-- `from_bytes` and `as_bytes` of `id_type!`
unfoldable pub id_from_bytes : Bytes → Identifier
id_from_bytes bytes = from_be_bytes bytes

unfoldable pub id_as_bytes : Identifier → Bytes
id_as_bytes id = to_be_bytes 32 id

-- An identifier survives the way through its bytes.
pub id_from_bytes-id_as_bytes :
    (id : Identifier) → id < 256 ^ 32 → id_from_bytes (id_as_bytes id) ≡ id
unfolding id_from_bytes id_as_bytes
id_from_bytes-id_as_bytes id h = from_be_bytes-to_be_bytes 32 id h

pub data DataRepresentation : Type 0 where
  secret_sharing homomorphic : DataRepresentation

-- the derived `==`
abbrev pub representation_beq : DataRepresentation → DataRepresentation → Bool
representation_beq secret_sharing secret_sharing = true
representation_beq secret_sharing homomorphic = false
representation_beq homomorphic secret_sharing = false
representation_beq homomorphic homomorphic = true
