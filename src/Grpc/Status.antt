-- ===== src/Grpc/Status.antt =====
-- What status is read from trailers: proofs about `grpc_status_from_trailers`.
use eggreplay.Prelude.{
  All, Bool-cases, Option, Option-cases, [], ap, arith, false, inl, inr, none, refl, some, true,
  ◌∙◌, ◌∷◌, ◌≡◌, ◌≤◌, nat_eq, list_eq, option_eq, pair_eq, ==_iff, subst, sym, ◌++◌, ◌↔◌, ◌≢◌,
}
use eggreplay.Bytes.{Bytes, codes, eq_ignore_case, trim, parse_unsigned, lowercase}
use eggreplay.Flow.{HeaderEntry, Trailers}
use eggreplay.Grpc.Trailers.{
  GrpcStatus, grpc_status_from_trailers, rfind, message_text, decode_percent,
}

-- The last field of a name, whatever the case: none after it has the name.
pub record IsLast (name : Bytes) (trailers : Trailers) (h : HeaderEntry) : Type 0 where
  pub earlier : Trailers
  pub later : Trailers
  pub among : trailers ≡ earlier ++ h ∷ later
  pub named : lowercase h.name ≡ lowercase name
  pub none_later : All (λ g. lowercase g.name ≢ lowercase name) later

-- What is shown of a message: nothing if there is no such field, and else the decoded value of the
-- last.
pub data IsMessage (lossy : Bytes → Bytes) (trailers : Trailers) : Bytes → Type 0 where
  no_message :
      All (λ g. lowercase g.name ≢ codes "grpc-message") trailers → IsMessage lossy trailers []
  last_message :
      {h : HeaderEntry}
      → IsLast (codes "grpc-message") trailers h
      → IsMessage lossy trailers (lossy (decode_percent h.value))

eq_ignore_case_iff : (a b : Bytes) → (eq_ignore_case a b ≡ true) ↔ (lowercase a ≡ lowercase b)
unfolding eq_ignore_case
eq_ignore_case_iff a b = ==_iff (lowercase a) (lowercase b)

eq_ignore_case-apart : (a b : Bytes) → eq_ignore_case a b ≡ false → lowercase a ≢ lowercase b
eq_ignore_case-apart a b h g = cc (h, (eq_ignore_case_iff a b).1 g)

rfind-none :
    (name : Bytes) (trailers : Trailers)
    → rfind name trailers ≡ none
    → All (λ g. lowercase g.name ≢ lowercase name) trailers
unfolding rfind
rfind-none name [] e = tt
rfind-none name (g ∷ gs) e = elim (Option-cases (rfind name gs)) [
  | inl missing ↦
      (eq_ignore_case-apart g.name name (ground (arith, missing)), rfind-none name gs missing)
  | inr (k, found) ↦ absurd (ground arith)
]

rfind-IsLast :
    (name : Bytes) (trailers : Trailers) (h : HeaderEntry)
    → rfind name trailers ≡ some h
    → IsLast name trailers h
unfolding rfind
rfind-IsLast name [] h e = absurd (cc e)
rfind-IsLast name (g ∷ gs) h e = elim (Option-cases (rfind name gs)) [
  | inr (k, found) ↦
      let last : rfind name gs ≡ some h = ground arith in
      let ih = rfind-IsLast name gs h last in
      record {
        earlier = g ∷ ih.earlier;
        later = ih.later;
        among = cc (ih.among);
        named = ih.named;
        none_later = ih.none_later;
      }
  | inl missing ↦ elim (Bool-cases (eq_ignore_case g.name name)) [
    | inr apart ↦ absurd (ground arith)
    | inl same ↦
        let is : g ≡ h = ground arith in
        subst (IsLast name (g ∷ gs)) is (record {
          earlier = [];
          later = gs;
          among = refl;
          named = (eq_ignore_case_iff g.name name).0 same;
          none_later = rfind-none name gs missing;
        })
  ]
]

message_text-IsMessage :
    (lossy : Bytes → Bytes) (trailers : Trailers) (o : Option HeaderEntry)
    → rfind (codes "grpc-message") trailers ≡ o
    → IsMessage lossy trailers (message_text lossy o)
unfolding message_text lowercase
message_text-IsMessage lossy trailers none e =
    no_message (rfind-none (codes "grpc-message") trailers e)
message_text-IsMessage lossy trailers (some h) e =
    last_message (rfind-IsLast (codes "grpc-message") trailers h e)

All-rfind :
    (name : Bytes) (trailers : Trailers)
    → All (λ g. lowercase g.name ≢ lowercase name) trailers
    → rfind name trailers ≡ none
unfolding rfind
All-rfind name [] h = refl
All-rfind name (g ∷ gs) h = elim (Bool-cases (eq_ignore_case g.name name)) [
  | inl same ↦ absurd (h.0 ((eq_ignore_case_iff g.name name).0 same))
  | inr apart ↦ rw (All-rfind name gs h.1, apart) refl
]

rfind-append :
    (name : Bytes) (earlier later : Trailers) (h : HeaderEntry)
    → lowercase h.name ≡ lowercase name
    → All (λ g. lowercase g.name ≢ lowercase name) later
    → rfind name (earlier ++ h ∷ later) ≡ some h
unfolding rfind
rfind-append name [] later h named none_later =
    rw (All-rfind name later none_later, (eq_ignore_case_iff h.name name).1 named) refl
rfind-append name (g ∷ earlier) later h named none_later =
    rw (rfind-append name earlier later h named none_later) refl

IsLast-rfind :
    (name : Bytes) (trailers : Trailers) (h : HeaderEntry)
    → IsLast name trailers h
    → rfind name trailers ≡ some h
IsLast-rfind name trailers h last =
    ap (rfind name) last.among
    ∙ rfind-append name last.earlier last.later h last.named last.none_later

IsMessage-message_text :
    (lossy : Bytes → Bytes) (trailers : Trailers) (message : Bytes)
    → IsMessage lossy trailers message
    → message_text lossy (rfind (codes "grpc-message") trailers) ≡ message
unfolding message_text lowercase
IsMessage-message_text lossy trailers message (no_message missing) =
    rw (All-rfind (codes "grpc-message") trailers missing) refl
IsMessage-message_text lossy trailers message (last_message {h} last) =
    rw (IsLast-rfind (codes "grpc-message") trailers h last) refl

-- What a status is read from.
pub record IsStatus (lossy : Bytes → Bytes) (trailers : Trailers) (st : GrpcStatus) : Type 0 where
  pub field : HeaderEntry
  pub last : IsLast (codes "grpc-status") trailers field
  pub spelled : parse_unsigned 32 (trim field.value) ≡ some st.code
  pub known : st.code ≤ 16
  pub shown : IsMessage lossy trailers st.message

grpc_status-IsStatus :
    (lossy : Bytes → Bytes) (trailers : Trailers) (st : GrpcStatus)
    → grpc_status_from_trailers lossy trailers ≡ some st
    → IsStatus lossy trailers st
unfolding grpc_status_from_trailers
grpc_status-IsStatus lossy trailers st e =
    elim (Option-cases (rfind (codes "grpc-status") trailers)) [
      | inl missing ↦ absurd (ground arith)
      | inr (h, found) ↦
          let shown : st.message ≡ message_text lossy (rfind (codes "grpc-message") trailers) =
            ground arith in
          record {
            field = h;
            last = rfind-IsLast (codes "grpc-status") trailers h found;
            spelled = ground arith;
            known = ground arith;
            shown = subst (IsMessage lossy trailers) (sym shown) (
                message_text-IsMessage lossy trailers (rfind (codes "grpc-message") trailers) refl);
          }
    ]

IsStatus-grpc_status :
    (lossy : Bytes → Bytes) (trailers : Trailers) (st : GrpcStatus)
    → IsStatus lossy trailers st
    → grpc_status_from_trailers lossy trailers ≡ some st
unfolding grpc_status_from_trailers
IsStatus-grpc_status lossy trailers st is =
    let found = IsLast-rfind (codes "grpc-status") trailers is.field is.last in
    let message = IsMessage-message_text lossy trailers st.message is.shown in
    rw (grpc_status_from_trailers, found, is.spelled) (grind (arith, is.known, message))

-- A status is reported exactly if the last `grpc-status` field, whatever the case of its name, spells
-- its code, which is one of 0 to 16, and its message is the decoded value of the last `grpc-message`
-- field, or empty without one.
pub grpc_status_from_trailers_iff :
    (lossy : Bytes → Bytes) (trailers : Trailers) (st : GrpcStatus)
    → (grpc_status_from_trailers lossy trailers ≡ some st) ↔ IsStatus lossy trailers st
grpc_status_from_trailers_iff lossy trailers st =
    (grpc_status-IsStatus lossy trailers st, IsStatus-grpc_status lossy trailers st)
