-- ===== src/Intercept/Nomination.antt =====
-- Which names `classify` never forwards, and the names that `Connection` nominates.
use eggreplay.Prelude.{
  ==_intro, Any, Bool, Bool-cases, List, [], arith, contains, contains-All, contains-append, false,
  if◌then◌else◌, inl, inr, is_empty, list_beq, refl, subst, true, ◌++◌, ◌∷◌, ◌≡◌, ◌⊎◌, nat_eq,
  list_eq, option_eq, pair_eq,
}
use eggreplay.Bytes.{Bytes, codes, lowercase, trim, split_byte}
use eggreplay.Intercept.Headers.{
  HeaderMaps, classify, Nominated, proxy_only, nominate_token, nominate_tokens, nominate,
  header_text,
}

-- Headers of one connection.
abbrev pub hop_by_hop : List Bytes
hop_by_hop = codes "connection" ∷ codes "upgrade" ∷ proxy_only

pub classify-hop_by_hop :
    (lower : Bytes) (te : Bool) (names : List Bytes)
    → contains hop_by_hop lower ≡ true
    → classify lower te names ≡ false
unfolding classify contains list_beq
classify-hop_by_hop lower te names h =
    contains-All (λ l. classify l te names ≡ false) hop_by_hop lower h
      (refl, (refl, (refl, (refl, (refl, (refl, tt))))))

pub classify-contains :
    (lower : Bytes) (te : Bool) (names : List Bytes)
    → contains names lower ≡ true
    → classify lower te names ≡ false
unfolding classify
classify-contains lower te names h = rw h (ground arith)

contains-added :
    (names : List Bytes) (token key : Bytes)
    → (contains names key ≡ true) ⊎ (token ≡ key)
    → contains (if contains names token then names else names ++ token ∷ []) key ≡ true
unfolding contains
contains-added names token key either = elim (Bool-cases (contains names token)) [
  | inl known ↦
      rw known
        (elim either [ inl h ↦ h | inr same ↦ subst (λ k. contains names k ≡ true) same known ])
  | inr new ↦ rw new (
      rw (contains-append names (token ∷ []) key)
        (elim either [ inl h ↦ rw h refl | inr same ↦ ground (arith, ==_intro same) ]))
]

contains-nominate_token :
    (key t : Bytes) (s : Nominated)
    → is_empty key ≡ false
    → (contains s.nominated key ≡ true) ⊎ (lowercase (trim t) ≡ key)
    → contains (nominate_token t s).nominated key ≡ true
unfolding nominate_token
contains-nominate_token key t s given either = elim (Bool-cases (is_empty (lowercase (trim t)))) [
  | inr full ↦ rw full (contains-added s.nominated (lowercase (trim t)) key either)
  | inl empty ↦ rw empty (elim either [
    | inl h ↦ h
    | inr same ↦ absurd (cc (subst (λ k. is_empty k ≡ true) same empty, given))
  ])
]

contains-nominate_tokens :
    (key : Bytes) (ts : List Bytes) (s : Nominated)
    → is_empty key ≡ false
    → (contains s.nominated key ≡ true) ⊎ Any (λ t. lowercase (trim t) ≡ key) ts
    → contains (nominate_tokens ts s).nominated key ≡ true
unfolding nominate_tokens
contains-nominate_tokens key [] s given (inl h) = h
contains-nominate_tokens key [] s given (inr h) = absurd h
contains-nominate_tokens key (t ∷ ts) s given (inl h) =
    contains-nominate_tokens key ts _ given (inl (contains-nominate_token key t s given (inl h)))
contains-nominate_tokens key (t ∷ ts) s given (inr (inl h)) =
    contains-nominate_tokens key ts _ given (inl (contains-nominate_token key t s given (inr h)))
contains-nominate_tokens key (t ∷ ts) s given (inr (inr h)) =
    contains-nominate_tokens key ts _ given (inr h)

module _ (maps : HeaderMaps) where
  open maps use {HeaderValue}

  pub contains-nominate :
      (key : Bytes)
      → is_empty key ≡ false
      → (vs : List HeaderValue) (s : Nominated)
      → (contains s.nominated key ≡ true)
        ⊎ Any (λ v. Any (λ t. lowercase (trim t) ≡ key) (split_byte b',' (header_text maps v))) vs
      → contains (nominate maps vs s).nominated key ≡ true
  unfolding nominate
  contains-nominate key given [] s (inl h) = h
  contains-nominate key given [] s (inr h) = absurd h
  contains-nominate key given (v ∷ vs) s (inl h) =
      contains-nominate key given vs _ (inl (contains-nominate_tokens key _ s given (inl h)))
  contains-nominate key given (v ∷ vs) s (inr (inl h)) =
      contains-nominate key given vs _ (inl (contains-nominate_tokens key _ s given (inr h)))
  contains-nominate key given (v ∷ vs) s (inr (inr h)) = contains-nominate key given vs _ (inr h)
