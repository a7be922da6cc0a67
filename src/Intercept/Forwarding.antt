-- ===== src/Intercept/Forwarding.antt =====
-- Which headers the proxy forwards: proofs about `filter_proxy_headers`.
use eggreplay.Intercept.Nomination.{
  hop_by_hop, classify-contains, classify-hop_by_hop, contains-nominate,
}
use eggreplay.Prelude.{
  Bool, List, Option, [], contains, false, if◌then◌else◌, none, some, true, ◌++◌, ◌==◌, ◌∙◌, ◌∷◌,
  ◌≡◌, nat_eq, list_eq, option_eq, pair_eq, ==_iff, Bool-cases, ap, inl, inr, refl, sym, Any,
  is_empty, ◌⊎◌,
}
use mathlib.Core.List.{append-nil, append_assoc}
use eggreplay.Bytes.{Bytes, codes, lowercase, trim, split_byte}
use eggreplay.Intercept.Headers.{
  HeaderMaps, filter_items, filter_proxy_headers, is_forwarded, ProxyFilterOutcome, header_text,
  te_forward, nominations,
}

-- The values that the items of an iteration give a key: those behind its name, up to the next name.
abbrev pub values_of : {V : Type 0} → Bytes → Bool → List (Option Bytes × V) → List V
values_of key here [] = []
values_of key here ((none, value) ∷ items) =
    let rest = values_of key here items in if here then value ∷ rest else rest
values_of key here ((some name, value) ∷ items) =
    let rest = values_of key (name == key) items in if name == key then value ∷ rest else rest

-- The documented behaviour of a header map: `append` adds a value behind those of its key, and
-- the iteration gives every key its values in order.
pub record HeaderMapLaws (maps : HeaderMaps) : Type 0 where
  pub get_all_new : (key : Bytes) → maps.get_all maps.new_map key ≡ []
  pub get_all_append :
      (m : maps.HeaderMap) (name key : Bytes) (value : maps.HeaderValue)
      → maps.get_all (maps.append m name value) key
        ≡ (if name == key then maps.get_all m key ++ value ∷ [] else maps.get_all m key)
  pub get_all_items :
      (m : maps.HeaderMap) (key : Bytes)
      → values_of key false (maps.into_iter m) ≡ maps.get_all m key

-- Whether the name in force is a key.
abbrev is_here : Bytes → Option (Bytes × Bool) → Bool
is_here key none = false
is_here key (some (name, forward)) = name == key

-- The name in force comes with the decision on it.
abbrev IsDecided : (Bytes → Bool) → Option (Bytes × Bool) → Type 0
IsDecided keeps none = Unit
IsDecided keeps (some (name, forward)) = keeps (lowercase name) ≡ forward

module _ (maps : HeaderMaps) (laws : HeaderMapLaws maps) where
  open maps use {HeaderMap, HeaderValue, get_all, to_str}
  open laws use {get_all_new, get_all_append, get_all_items}

  -- One value more behind a name on which the decision is `forward`.
  get_all-step :
      (keeps : Bytes → Bool) (key name : Bytes) (value : HeaderValue) (m : HeaderMap)
      (rest : List HeaderValue) (forward : Bool)
      → keeps (lowercase name) ≡ forward
      → get_all (if forward then maps.append m name value else m) key
          ++ (if keeps (lowercase key) then rest else [])
        ≡ get_all m key
          ++ (if keeps (lowercase key) then (if name == key then value ∷ rest else rest) else [])
  get_all-step keeps key name value m rest forward decided = elim (Bool-cases (name == key)) [
    | inr other ↦ rw other (skipped forward other)
    | inl same ↦ rw same (
        kept forward same
          (ap (λ n. keeps (lowercase n)) (sym ((==_iff name key).0 same)) ∙ decided))
  ]
    where
      skipped :
          (f : Bool)
          → (name == key) ≡ false
          → get_all (if f then maps.append m name value else m) key
              ++ (if keeps (lowercase key) then rest else [])
            ≡ get_all m key ++ (if keeps (lowercase key) then rest else [])
      skipped true other = rw (get_all_append m name key value) (rw other refl)
      skipped false other = refl

      kept :
          (f : Bool)
          → (name == key) ≡ true
          → keeps (lowercase key) ≡ f
          → get_all (if f then maps.append m name value else m) key
              ++ (if keeps (lowercase key) then rest else [])
            ≡ get_all m key ++ (if keeps (lowercase key) then value ∷ rest else [])
      kept true same h = rw h (
          rw (get_all_append m name key value)
            (rw same (append_assoc (get_all m key) (value ∷ []) rest)))
      kept false same h = rw h refl

  -- What a loop adds to the values of a key.
  forwarded-filter_items :
      (keeps : Bytes → Bool) (key : Bytes) (items : List (Option Bytes × HeaderValue))
      (current : Option (Bytes × Bool)) (out : ProxyFilterOutcome maps)
      → IsDecided keeps current
      → get_all (filter_items maps keeps items current out).forwarded key
        ≡ get_all out.forwarded key
          ++ (if keeps (lowercase key) then values_of key (is_here key current) items else [])
  unfolding filter_items
  forwarded-filter_items keeps key [] current out h = elim (Bool-cases (keeps (lowercase key))) [
    | inl kept ↦ rw kept (sym (append-nil _))
    | inr dropped ↦ rw dropped (sym (append-nil _))
  ]
  forwarded-filter_items keeps key ((some name, value) ∷ items) current out h =
      elim (Bool-cases (keeps (lowercase name))) [
        | inl kept ↦
            rw (filter_items, kept)
              (forwarded-filter_items keeps key items (some (name, true)) _ kept
                ∙ get_all-step keeps key name value out.forwarded _ true kept)
        | inr dropped ↦
            rw (filter_items, dropped)
              (forwarded-filter_items keeps key items (some (name, false)) _ dropped
                ∙ get_all-step keeps key name value out.forwarded _ false dropped)
      ]
  forwarded-filter_items keeps key ((none, value) ∷ items) none out h =
      forwarded-filter_items keeps key items none out tt
  forwarded-filter_items keeps key ((none, value) ∷ items) (some (name, true)) out h =
      forwarded-filter_items keeps key items (some (name, true)) _ h
      ∙ get_all-step keeps key name value out.forwarded _ true h
  forwarded-filter_items keeps key ((none, value) ∷ items) (some (name, false)) out h =
      forwarded-filter_items keeps key items (some (name, false)) _ h
      ∙ get_all-step keeps key name value out.forwarded _ false h

  -- A key keeps all its values in their order, or none of them.
  pub get_all-filter_proxy_headers :
      (headers : HeaderMap) (key : Bytes)
      → get_all (filter_proxy_headers maps headers).forwarded key
        ≡ (if is_forwarded maps headers (lowercase key) then get_all headers key else [])
  unfolding filter_proxy_headers
  get_all-filter_proxy_headers headers key =
      forwarded-filter_items (is_forwarded maps headers) key (maps.into_iter headers) none _ tt
      ∙ rw (get_all_new key) (rw (get_all_items headers key) refl)

  -- No header that concerns the connection is forwarded.
  get_all-hop_by_hop :
      (headers : HeaderMap) (key : Bytes)
      → contains hop_by_hop (lowercase key) ≡ true
      → get_all (filter_proxy_headers maps headers).forwarded key ≡ []
  unfolding is_forwarded
  get_all-hop_by_hop headers key hop =
      get_all-filter_proxy_headers headers key
      ∙ rw
          (classify-hop_by_hop (lowercase key) (te_forward maps headers)
            (nominations maps headers).nominated hop)
          refl

  -- Nor is one that a token of a `Connection` header names.
  get_all-nominated :
      (headers : HeaderMap) (key : Bytes)
      → Any
          (λ v.
            Any (λ t. lowercase (trim t) ≡ lowercase key) (split_byte b',' (header_text maps v)))
          (get_all headers (codes "connection"))
      → is_empty (lowercase key) ≡ false
      → get_all (filter_proxy_headers maps headers).forwarded key ≡ []
  unfolding is_forwarded nominations
  get_all-nominated headers key named given =
      get_all-filter_proxy_headers headers key
      ∙ rw
          (classify-contains (lowercase key) (te_forward maps headers)
            (nominations maps headers).nominated
            (contains-nominate maps (lowercase key) given _ _ (inr named)))
          refl

  -- A name that is of the connection itself, or that a token of one of its `Connection` headers names.
  abbrev pub Concerns : HeaderMap → Bytes → Type 0
  Concerns headers lower =
      (contains hop_by_hop lower ≡ true)
      ⊎ ((is_empty lower ≡ false)
          × Any (λ v. Any (λ t. lowercase (trim t) ≡ lower) (split_byte b',' (header_text maps v)))
              (get_all headers (codes "connection")))

  -- No header that concerns the connection is forwarded: neither those that always do nor one that a
  -- token of a `Connection` header names.
  pub get_all-Concerns :
      (headers : HeaderMap) (key : Bytes)
      → Concerns headers (lowercase key)
      → get_all (filter_proxy_headers maps headers).forwarded key ≡ []
  get_all-Concerns headers key (inl hop) = get_all-hop_by_hop headers key hop
  get_all-Concerns headers key (inr (given, named)) = get_all-nominated headers key named given
