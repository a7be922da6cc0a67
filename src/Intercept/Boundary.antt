-- ===== src/Intercept/Boundary.antt =====
-- Which names a DNS suffix covers: proofs about `HostMatch::matches`.
use eggreplay.Intercept.Hosts.{IpAddresses, dns}
use eggreplay.Prelude.{
  Bool-cases, [], ap, arith, inl, inr, refl, sym, true, ◌++◌, ◌==◌, ◌↔◌, ◌∷◌, ◌≡◌, ◌⊎◌, nat_eq,
  list_eq, option_eq, pair_eq, ==_iff, ==_intro, ==_refl,
}
use eggreplay.Bytes.{Bytes, ends_with}
use eggreplay.Intercept.Rules.{host_matches, suffix_dns}

-- Bytes that end in others are those after some prefix.
ends_with_sound : (p s : Bytes) → ends_with p s ≡ true → (q : Bytes) × (s ≡ q ++ p)
unfolding ends_with
ends_with_sound [] [] h = ([], refl)
ends_with_sound (b ∷ p) [] h = absurd (cc h)
ends_with_sound p (c ∷ s) h = elim (Bool-cases (p == c ∷ s)) [
  | inl same ↦ ([], sym ((==_iff p (c ∷ s)).0 same))
  | inr other ↦ let (q, e) = ends_with_sound p s (ground arith) in (c ∷ q, ap (◌∷◌ c) e)
]

ends_with-append : (p q : Bytes) → ends_with p (q ++ p) ≡ true
unfolding ends_with
ends_with-append [] [] = refl
ends_with-append (b ∷ p) [] = ground (arith, ==_refl (b ∷ p))
ends_with-append p (c ∷ q) = ground (arith, ends_with-append p q)

-- A suffix rule matches a name exactly if the name is the suffix itself or ends in it behind a dot:
-- it never matches in the middle of a label.
pub host_matches-suffix_dns :
    (ips : IpAddresses) (parent name : Bytes)
    → (host_matches ips (suffix_dns parent) (dns name) ≡ true)
      ↔ ((name ≡ parent) ⊎ ((q : Bytes) × (name ≡ q ++ b'.' ∷ parent)))
unfolding host_matches
host_matches-suffix_dns ips parent name = (
  λ h. elim (Bool-cases (name == parent)) [
    | inl same ↦ inl ((==_iff name parent).0 same)
    | inr other ↦ inr (ends_with_sound (b'.' ∷ parent) name (ground arith))
  ],
  λ either. elim either [
    | inl same ↦ rw (==_intro same) refl
    | inr (q, same) ↦ rw same (ground (arith, ends_with-append (b'.' ∷ parent) q))
  ],
)
