-- ===== src/Zk/Layers.antt =====
-- The bitmap of the layers against the layers themselves.
use x402_health_oracle.Prelude.{
  ℕ, zero, not, ltb, suc, ◌+◌, ◌/◌, ◌%◌, ◌*◌, ◌^◌, ◌<◌, ◌≡◌, ◌↔◌, refl, Bool, true, false, ◌&&◌,
  arith, ◌==◌,
}
use Prim.Native.Nat.add
use native.Mathlib.Nat.{pow-suc, pow-zero, suc-add}
use x402_health_oracle.Zk.{LayerResult, layers_to_int, count_bits, count_bits_loop}

abbrev pub one_if : Bool → ℕ
one_if true = 1
one_if false = 0

abbrev pub layers_passed : LayerResult → ℕ
layers_passed l =
    one_if l.l0_pqc
    + one_if l.l1_gpu_ua
    + one_if l.l2_frankenstein
    + one_if l.l3_spearman
    + one_if l.l4_variance
    + one_if l.l5_argon2
    + one_if l.l6_entropy
    + one_if l.l7_jitter

-- A test that holds of both truth values.
both : (Bool → Bool) → Bool
both p = p true && p false

both_sound : (p : Bool → Bool) → both p ≡ true → (b : Bool) → p b ≡ true
unfolding both
both_sound p h true = ground arith
both_sound p h false = ground arith

abbrev layers : Bool → Bool → Bool → Bool → Bool → Bool → Bool → Bool → LayerResult
layers a b c d e f g h = record {
  l0_pqc = a;
  l1_gpu_ua = b;
  l2_frankenstein = c;
  l3_spearman = d;
  l4_variance = e;
  l5_argon2 = f;
  l6_entropy = g;
  l7_jitter = h;
}

abbrev same : Bool → Bool → Bool
same true b = b
same false b = not b

abbrev all_passed : LayerResult → Bool
all_passed l =
    l.l0_pqc && l.l1_gpu_ua && l.l2_frankenstein && l.l3_spearman && l.l4_variance && l.l5_argon2
    && l.l6_entropy && l.l7_jitter

abbrev is_right : LayerResult → Bool
is_right l =
    (count_bits (layers_to_int l) == layers_passed l)
    && same (layers_to_int l == 0xff) (all_passed l)
    && ltb (layers_to_int l) 256

table :
    both (λ a. both (λ b. both (λ c.
      both
        (λ d. both (λ e. both (λ f. both (λ g. both (λ h. is_right (layers a b c d e f g h)))))))))
    ≡ true
unfolding both count_bits layers_to_int
table = refl

is_right_all : (l : LayerResult) → is_right l ≡ true
is_right_all l =
    let s1 = both_sound _ table l.l0_pqc in
    let s2 = both_sound _ s1 l.l1_gpu_ua in
    let s3 = both_sound _ s2 l.l2_frankenstein in
    let s4 = both_sound _ s3 l.l3_spearman in
    let s5 = both_sound _ s4 l.l4_variance in
    let s6 = both_sound _ s5 l.l5_argon2 in
    let s7 = both_sound _ s6 l.l6_entropy in both_sound _ s7 l.l7_jitter

-- The bitmap of the layers fits a byte; its bits are counted as the layers that passed; and it is
-- 255, the value that `verifyZkProof` reads as "all passed", exactly when all eight passed.
pub layers_to_int_lem :
    (l : LayerResult)
    → (layers_to_int l < 256)
      × (count_bits (layers_to_int l) ≡ layers_passed l)
      × ((layers_to_int l ≡ 255) ↔ (layers_passed l ≡ 8))
layers_to_int_lem l = let r = is_right_all l in ground arith

loop_at_zero : (g n count : ℕ) → n < 1 → count_bits_loop g n count ≡ count
unfolding count_bits_loop
loop_at_zero zero n count h = refl
loop_at_zero (suc g) n count h = ground arith

-- The loop of `countBits` ends within as many rounds as the number has binary digits: more fuel
-- changes nothing, so 32 rounds do for every number of 32 bits.
pub count_bits_loop_fuel :
    (f g n count : ℕ) → n < 2 ^ f → count_bits_loop (f + g) n count ≡ count_bits_loop f n count
unfolding count_bits_loop
count_bits_loop_fuel zero g n count h =
    rw add.zero (loop_at_zero g n count (omega (arith, pow-zero 2)))
count_bits_loop_fuel (suc f) g n count h =
    let below : n < 2 ^ f * 2 = omega (arith, pow-suc 2 f) in
    let ih = count_bits_loop_fuel f g (n / 2) (count + n % 2) (omega arith) in
    rw suc-add (ground arith)
