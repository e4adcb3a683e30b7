-- ===== src/Zk.antt =====
-- gateway/src/services/zkProof.ts. `crypto` is Node's: a parameter, with the bytes that its
-- functions return. Times are `Date.now()`, one argument for each call of it; random bytes are an
-- argument too. The module's map is explicit state.
pub mod Layers
pub mod Redeem
pub mod Trace
mod Tests
use Prim.Native.Nat.{bit_or, bit_and}
use x402_health_oracle.Prelude.{
  ℕ, zero, suc, ◌+◌, ◌-◌, ◌*◌, ◌/◌, ◌%◌, ◌^◌, Bool, true, false, not, List, [], ◌∷◌, ◌++◌, ◌==◌,
  ltb, if◌then◌else◌, Text, codes, take, text_eq, text_Eq,
}
use x402_health_oracle.Prelude.Int.{ℤ, pos, sub_ℕ}
use x402_health_oracle.Prelude.Dict.{Dict, get, has, put, remove, retain}
use x402_health_oracle.Crypto.{Crypto}
use x402_health_oracle.Encoding.Hex.{Bytes, to_hex, from_hex}
use x402_health_oracle.Encoding.Decimal.{to_decimal}

pub record LayerResult : Type 0 where
  pub l0_pqc : Bool
  pub l1_gpu_ua : Bool
  pub l2_frankenstein : Bool
  pub l3_spearman : Bool
  pub l4_variance : Bool
  pub l5_argon2 : Bool
  pub l6_entropy : Bool
  pub l7_jitter : Bool

pub record ZkProof : Type 0 where
  pub commitment : Text
  pub salt : Text
  pub layers_bitmap : ℕ
  pub ts : ℕ
  pub ip_hash : Text
  pub version : ℕ

pub record VerifyResult : Type 0 where
  pub valid : Bool
  pub all_layers_passed : Bool
  pub layer_count : ℕ
  pub age_ms : ℤ

abbrev pub proof_version : ℕ
proof_version = 1

abbrev pub proof_ttl_ms : ℕ
proof_ttl_ms = 300000

-- commitment → the time of issue
abbrev pub Issued : Type 0
Issued = Dict Text ℕ

abbrev pub mask : Bool → ℕ → ℕ
mask passed bit = if passed then bit else 0

infixl 60 ◌∣◌
abbrev pub ◌∣◌ : ℕ → ℕ → ℕ
a ∣ b = bit_or a b

unfoldable pub layers_to_int : LayerResult → ℕ
layers_to_int l =
    mask l.l0_pqc 0b00000001
    ∣ mask l.l1_gpu_ua 0b00000010
    ∣ mask l.l2_frankenstein 0b00000100
    ∣ mask l.l3_spearman 0b00001000
    ∣ mask l.l4_variance 0b00010000
    ∣ mask l.l5_argon2 0b00100000
    ∣ mask l.l6_entropy 0b01000000
    ∣ mask l.l7_jitter 0b10000000

-- `while (n) { count += n & 1; n >>>= 1; }` on 32 bits, with fuel.
unfoldable pub count_bits_loop : ℕ → ℕ → ℕ → ℕ
count_bits_loop zero n count = count
count_bits_loop (suc fuel) n count = elim (n == 0) [
  | true ↦ count
  | false ↦ count_bits_loop fuel (n / 2) (count + n % 2)
]

unfoldable pub count_bits : ℕ → ℕ
unfolding count_bits_loop
count_bits n = count_bits_loop 32 (n % 2 ^ 32) 0

abbrev colon : Text
colon = b':' ∷ []

unfoldable pub build_payload : ℕ → Text → ℕ → Text → Text
build_payload bitmap salt ts ip_hash =
    to_decimal bitmap ++ (colon ++ (salt ++ (colon ++ (to_decimal ts ++ (colon ++ ip_hash)))))

-- `now - ts > PROOF_TTL_MS`
abbrev pub is_expired : ℕ → ℕ → Bool
is_expired now ts = ltb (ts + proof_ttl_ms) now

module _ (c : Crypto) where
  open c use {Secret, hmac_sha256, sha256}

  unfoldable pub generate_zk_proof : Secret → LayerResult → Text → Bytes → ℕ → ZkProof
  generate_zk_proof secret layers ip random now =
      let salt = to_hex random in
      let bitmap = layers_to_int layers in
      let ip_hash = take 16 (to_hex (sha256 ip)) in
      record {
        commitment = to_hex (hmac_sha256 secret (build_payload bitmap salt now ip_hash));
        salt = salt;
        layers_bitmap = bitmap;
        ts = now;
        ip_hash = ip_hash;
        version = proof_version;
      }

  -- `timingSafeEqual` throws on texts of different lengths, which the code reads as false.
  abbrev pub commitment_matches : Secret → ZkProof → Bool
  commitment_matches secret proof =
      let payload = build_payload proof.layers_bitmap proof.salt proof.ts proof.ip_hash in
      text_eq (from_hex (to_hex (hmac_sha256 secret payload))) (from_hex proof.commitment)

  unfoldable pub verify_zk_proof : Secret → ZkProof → ℕ → VerifyResult
  verify_zk_proof secret proof now =
      if is_expired now proof.ts
      then record {
        valid = false;
        all_layers_passed = false;
        layer_count = 0;
        age_ms = sub_ℕ now proof.ts;
      }
      else record {
        valid = commitment_matches secret proof;
        all_layers_passed = proof.layers_bitmap == 0xff;
        layer_count = count_bits proof.layers_bitmap;
        age_ms = sub_ℕ now proof.ts;
      }

  -- `now` is the time of the proof, `later` the time of the eviction.
  unfoldable pub issue_proof :
      Secret → LayerResult → Text → Bytes → ℕ → ℕ → Issued → Issued × ZkProof
  issue_proof secret layers ip random now later issued =
      let proof = generate_zk_proof secret layers ip random now in
      (retain (λ ts. not (is_expired later ts)) (put proof.commitment proof.ts issued), proof)

  -- The result, with `replay` last.
  unfoldable pub redeem_proof : Secret → ZkProof → ℕ → Issued → Issued × VerifyResult × Bool
  redeem_proof secret proof now issued =
      let result = verify_zk_proof secret proof now in
      if not (has proof.commitment issued)
      then (
        issued,
        record { valid = false; all_layers_passed = false; layer_count = 0; age_ms = pos 0 },
        true,
      )
      else (if result.valid then remove proof.commitment issued else issued, result, false)

unfoldable pub clear_proofs : Issued → Issued
clear_proofs issued = []
