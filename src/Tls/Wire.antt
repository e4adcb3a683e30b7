-- ===== src/Tls/Wire.antt =====
-- JA4 does not see the order on the wire, nor GREASE.
use mathlib.Core.List.{Permᴰ}
use x402_health_oracle.Prelude.{ℕ, ◌≡◌, refl, ◌∙◌, Bool, List, [], ◌∷◌, keep, length, arith}
use x402_health_oracle.Crypto.{Crypto}
use x402_health_oracle.Tls.{ClientHelloInfo, without_grease}
use x402_health_oracle.Tls.Ja4.{
  Transport, insert, sort, is_hashed, ja4_a, ja4_b, ja4_c, compute_ja4,
}

insert_comm : (a b : ℕ) (l : List ℕ) → insert a (insert b l) ≡ insert b (insert a l)
unfolding insert
insert_comm a b [] = ground arith
insert_comm a b (c ∷ l) = ground (arith, insert_comm a b l)

sort_perm : {xs ys : List ℕ} → Permᴰ xs ys → sort xs ≡ sort ys
unfolding sort
sort_perm Permᴰ.nil = refl
sort_perm (Permᴰ.cons e p) = ground (arith, sort_perm p)
sort_perm (Permᴰ.swap {a = a} {b = b} {l = l} e f) = ground (arith, insert_comm a b (sort l))
sort_perm (Permᴰ.trans p q) = sort_perm p ∙ sort_perm q

length_perm : {xs ys : List ℕ} → Permᴰ xs ys → length xs ≡ length ys
length_perm Permᴰ.nil = refl
length_perm (Permᴰ.cons e p) = omega (arith, length_perm p)
length_perm (Permᴰ.swap e f) = omega arith
length_perm (Permᴰ.trans p q) = length_perm p ∙ length_perm q

sort-keep_perm : (p : ℕ → Bool) {xs ys : List ℕ} → Permᴰ xs ys → sort (keep p xs) ≡ sort (keep p ys)
unfolding sort
sort-keep_perm p Permᴰ.nil = refl
sort-keep_perm p (Permᴰ.cons e q) = ground (arith, sort-keep_perm p q)
sort-keep_perm p (Permᴰ.swap {a = a} {b = b} {l = l} e f) =
    ground (arith, insert_comm a b (sort (keep p l)))
sort-keep_perm p (Permᴰ.trans q r) = sort-keep_perm p q ∙ sort-keep_perm p r

-- Two hellos of one version, name flag, protocol list and signature algorithms that offer, apart
-- from GREASE, the same ciphers and extensions in whatever order, have the same JA4.
pub compute_ja4_perm :
    (c : Crypto) (i j : ClientHelloInfo) (transport : Transport)
    → i.tls_version ≡ j.tls_version
    → i.sni ≡ j.sni
    → i.alpn ≡ j.alpn
    → without_grease i.sig_algs ≡ without_grease j.sig_algs
    → Permᴰ (without_grease i.ciphers) (without_grease j.ciphers)
    → Permᴰ (without_grease i.extensions) (without_grease j.extensions)
    → compute_ja4 c i transport ≡ compute_ja4 c j transport
unfolding compute_ja4 ja4_a ja4_b ja4_c
compute_ja4_perm c i j transport version sni alpn algs ciphers extensions =
    let hashed = sort-keep_perm is_hashed extensions in
    let n = length_perm ciphers in
    let m = length_perm extensions in let sorted = sort_perm ciphers in ground arith
