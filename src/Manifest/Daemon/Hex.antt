-- ===== src/Manifest/Daemon/Hex.antt =====
-- `decode_hex` of crates/runtime/src/manifest_daemon.rs, on ASCII texts.
use ppsc.Base.{
  ℕ, ◌+◌, ◌-◌, ◌*◌, Bool, ◌&&◌, ◌||◌, not, [], ◌∷◌, leb, ◌==◌, if◌then◌else◌, length, Result, ok,
  err, and_then, map_ok,
}
use ppsc.Base.Bytes.{Bytes}
use ppsc.Manifest.Outbox.{DaemonError, invalid_chain_response}

-- `u8::from_str_radix(.., 16)` on two characters, the first of which may be a plus sign.
abbrev pub hex_digit : ℕ → Result DaemonError ℕ
hex_digit c =
    if leb 48 c && leb c 57
    then ok (c - 48)
    else if leb 97 c && leb c 102
    then ok (c - 87)
    else if leb 65 c && leb c 70
    then ok (c - 55)
    else err invalid_chain_response

abbrev pub hex_byte : ℕ → ℕ → Result DaemonError ℕ
hex_byte a b =
    if a == 43
    then hex_digit b
    else and_then (hex_digit a) λ high. and_then (hex_digit b) λ low. ok (high * 16 + low)

unfoldable pub hex_bytes : Bytes → Result DaemonError Bytes
hex_bytes [] = ok []
hex_bytes (a ∷ []) = err invalid_chain_response
hex_bytes (a ∷ b ∷ rest) =
    let later = hex_bytes rest in
    and_then (hex_byte a b) λ byte. map_ok (λ bytes. byte ∷ bytes) later

-- `trim`
abbrev pub is_trimmed : ℕ → Bool
is_trimmed c = (leb 9 c && leb c 13) || c == 32

abbrev pub trim_start : Bytes → Bytes
trim_start [] = []
trim_start (c ∷ cs) = let rest = trim_start cs in if is_trimmed c then rest else c ∷ cs

abbrev pub trim_end : Bytes → Bytes
trim_end [] = []
trim_end (c ∷ cs) = elim (trim_end cs) [
  | [] ↦ (if is_trimmed c then [] else c ∷ [])
  | x ∷ xs ↦ c ∷ x ∷ xs
]

abbrev pub strip_0x : Bytes → Result DaemonError Bytes
strip_0x [] = err invalid_chain_response
strip_0x (a ∷ []) = err invalid_chain_response
strip_0x (a ∷ b ∷ rest) = if a == 48 && b == 120 then ok rest else err invalid_chain_response

unfoldable pub decode_hex : ℕ → Bytes → Result DaemonError Bytes
unfolding hex_bytes
decode_hex n value =
    and_then (strip_0x (trim_end (trim_start value)))
      λ raw. if not (length raw == n * 2) then err invalid_chain_response else hex_bytes raw
