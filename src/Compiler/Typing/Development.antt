-- ===== src/Compiler/Typing/Development.antt =====
-- The in-memory store and the plaintext backend of crates/runtime/src/manifest.rs report no unknown
-- reference.
use ppsc.Base.{ℕ, refl, true, false, List, [], ◌∷◌, String, pair_eq, bytes_eq, nat_eq, string_eq}
use ppsc.Base.Bytes.{Bytes}
use ppsc.Manifest.Types.{
  ValueType, type_beq, fhe_uint, fhe_bool, secret_bool, type_mismatch, unsupported_operator,
  ManifestValue, invalid_value, public_u128,
}
use ppsc.Manifest.Memory.{InMemoryManifestState, memory_store, load}
use ppsc.Manifest.Plaintext
use ppsc.Manifest.Plaintext.{
  plaintext_manifest_backend, fhe_uint_of, secret_uint_of, one, decode_u128, decode_bool, bool_of,
  two_u128, convert_h2s, secret_bool_of, pick, add_in, sub_in, ge_in, Fallible,
}
use ppsc.Compiler.Typing.Resolved.{
  IsResolving, Resolved, value, other, Any, Resolved-ok_or, Resolved-when, Resolved-then,
  Resolved-map,
}
use ppsc.Base.{◌==◌}
use ppsc.Base.{drop}
use ppsc.Base.{length}

one-Resolved : (arguments : List ManifestValue) → Resolved Any (one arguments)
one-Resolved [] = other refl
one-Resolved (x ∷ []) = value tt
one-Resolved (x ∷ y ∷ rest) = other refl

decode_u128-Resolved : (v : ManifestValue) (prefix : Bytes) → Resolved Any (decode_u128 v prefix)
unfolding decode_u128
decode_u128-Resolved v prefix = Resolved-when _ (other {e = invalid_value} refl) (value tt)

bool_of-Resolved : (bytes : Bytes) → Resolved Any (bool_of bytes)
bool_of-Resolved [] = other refl
bool_of-Resolved (b ∷ bs) =
    Resolved-when (b == 0) (value {a = false} tt)
      (Resolved-when (b == 1) (value {a = true} tt) (other {e = invalid_value} refl))

decode_bool-Resolved : (v : ManifestValue) (prefix : Bytes) → Resolved Any (decode_bool v prefix)
unfolding decode_bool
decode_bool-Resolved v prefix =
    Resolved-when _ (other {e = invalid_value} refl)
      (bool_of-Resolved (drop (length prefix) v.bytes))

two_u128-Resolved :
    (arguments : List ManifestValue) (prefix : Bytes) → Resolved Any (two_u128 arguments prefix)
unfolding two_u128
two_u128-Resolved [] prefix = other refl
two_u128-Resolved (a ∷ []) prefix = other refl
two_u128-Resolved (a ∷ b ∷ []) prefix =
    Resolved-then (decode_u128-Resolved a prefix)
      λ l _. Resolved-map _ (decode_u128-Resolved b prefix) λ _ _. tt
two_u128-Resolved (a ∷ b ∷ c ∷ rest) prefix = other refl

public_u128-Resolved : (v : ManifestValue) → Resolved Any (public_u128 v)
unfolding public_u128
public_u128-Resolved v = Resolved-when _ (other {e = invalid_value} refl) (value tt)

convert_h2s-Resolved : (v : ManifestValue) → Resolved Any (convert_h2s v)
unfolding convert_h2s
convert_h2s-Resolved v =
    Resolved-when (type_beq v.value_type fhe_uint)
      (Resolved-map _ (decode_u128-Resolved v Plaintext.fhe_uint_prefix) λ _ _. tt)
      (Resolved-when (type_beq v.value_type fhe_bool)
        (Resolved-map _ (decode_bool-Resolved v Plaintext.fhe_bool_prefix) λ _ _. tt)
        (other {e = type_mismatch} refl))

add_in-Resolved :
    (make : ℕ → ManifestValue) (prefix : Bytes) (arguments : List ManifestValue)
    → Resolved Any (add_in make prefix arguments)
add_in-Resolved make prefix arguments =
    Resolved-then (two_u128-Resolved arguments prefix)
      λ p _. Resolved-map _ (Resolved-ok_or _ _ refl) λ _ _. tt

sub_in-Resolved :
    (make : ℕ → ManifestValue) (prefix : Bytes) (arguments : List ManifestValue)
    → Resolved Any (sub_in make prefix arguments)
sub_in-Resolved make prefix arguments =
    Resolved-then (two_u128-Resolved arguments prefix)
      λ p _. Resolved-map _ (Resolved-ok_or _ _ refl) λ _ _. tt

ge_in-Resolved :
    (ty : ValueType) (tag prefix : Bytes) (arguments : List ManifestValue)
    → Resolved Any (ge_in ty tag prefix arguments)
ge_in-Resolved ty tag prefix arguments =
    Resolved-map _ (two_u128-Resolved arguments prefix) λ _ _. tt

evaluate-Resolved :
    (opcode : String) (arguments : List ManifestValue)
    → Resolved Any (Plaintext.evaluate opcode arguments)
unfolding Plaintext.evaluate
evaluate-Resolved opcode arguments =
    Resolved-when (string_eq.beq opcode "fhe.encrypt")
      (Resolved-map _ (Resolved-then (one-Resolved arguments) λ v _. public_u128-Resolved v)
        λ _ _. tt)
      (Resolved-when (string_eq.beq opcode "fhe.add")
        (add_in-Resolved fhe_uint_of Plaintext.fhe_uint_prefix arguments)
        (Resolved-when (string_eq.beq opcode "fhe.sub")
          (sub_in-Resolved fhe_uint_of Plaintext.fhe_uint_prefix arguments)
          (Resolved-when (string_eq.beq opcode "fhe.ge")
            (ge_in-Resolved fhe_bool Plaintext.fhe_bool_prefix Plaintext.fhe_uint_prefix arguments)
            (Resolved-when (string_eq.beq opcode "mpc.add")
              (add_in-Resolved secret_uint_of Plaintext.ss_uint_prefix arguments)
              (Resolved-when (string_eq.beq opcode "mpc.sub")
                (sub_in-Resolved secret_uint_of Plaintext.ss_uint_prefix arguments)
                (Resolved-when (string_eq.beq opcode "mpc.ge")
                  (ge_in-Resolved secret_bool Plaintext.ss_bool_prefix Plaintext.ss_uint_prefix
                    arguments)
                  (Resolved-when (string_eq.beq opcode "convert.h2s")
                    (Resolved-then (one-Resolved arguments) λ v _. convert_h2s-Resolved v)
                    (Resolved-when (string_eq.beq opcode "convert.s2h")
                      (Resolved-map fhe_uint_of
                        (Resolved-then (one-Resolved arguments)
                          λ v _. decode_u128-Resolved v Plaintext.ss_uint_prefix)
                        λ _ _. tt)
                      (other {e = unsupported_operator} refl)))))))))

load-Resolved :
    (name : String) (key : Bytes) (s : InMemoryManifestState) → Resolved Any (load name key s)
unfolding load
load-Resolved name key s = Resolved-when _ (other refl) (Resolved-ok_or _ _ refl)

secret_bool_of-Resolved : (v : ManifestValue) → Resolved Any (secret_bool_of v)
unfolding secret_bool_of
secret_bool_of-Resolved v = decode_bool-Resolved v Plaintext.ss_bool_prefix

pick-Resolved : (v : ManifestValue) → Resolved Any (pick v)
unfolding pick
pick-Resolved v = Resolved-map _ (decode_u128-Resolved v Plaintext.ss_uint_prefix) λ _ _. tt

pub development_resolves : IsResolving memory_store plaintext_manifest_backend
development_resolves = record {
  loads_resolve = load-Resolved;
  evaluate_resolves = evaluate-Resolved;
  secret_bool_resolves = secret_bool_of-Resolved;
  pick_resolves = pick-Resolved;
}
