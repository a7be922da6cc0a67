-- ===== src/Store/Conversed.antt =====
-- What an accumulation of WebSocket conversations holds.
use eggreplay.Bytes.{Bytes}
use eggreplay.Flow.{BodyRef, body_len}
use eggreplay.Store.Types.{as_store_error, invalid, json, as_store_error-eq-ok}
use eggreplay.Prelude.{
  ==_iff, All, All-append, Bool, List, [], any, ap, arith, bind-eq-ok, false, leb, length,
  length-append, ltb, ltb→le, ok, ok-inj, ok_or, refl, reject_if-eq-ok, saturating_add, subst, sym,
  then-eq-ok, ℕ, ◌++◌, ◌+◌, ◌<◌, ◌^◌, ◌||◌, ◌∙◌, ◌∷◌, ◌≡◌, ◌≤◌, nat_eq, list_eq, option_eq, pair_eq,
  Option, Option-cases, inl, inr, none, ok_or-eq-ok, some,
}
use eggreplay.Store.Conversations.{
  WebSocketAccumulation, add_payloads, ConversationEncoding, append_conversations,
  append_websocket_conversation, is_same_conversation, no_conversations, transcript_of,
  max_extension_bytes, payload_size,
}
use eggreplay.WebSocket.Validate
use eggreplay.WebSocket.Types.{WebSocketConversation, default_limits, WebSocketMessage}

abbrev pub count_messages : List WebSocketConversation → ℕ
count_messages [] = 0
count_messages (c ∷ cs) = length c.messages + count_messages cs

-- The bytes of a message's payload, and those of all messages.
abbrev pub payload_bytes_of : Option BodyRef → ℕ
payload_bytes_of none = 0
payload_bytes_of (some BodyRef.absent) = 0
payload_bytes_of (some BodyRef.empty) = 0
payload_bytes_of (some (BodyRef.blob b)) = b.length

abbrev pub sum_payloads : List WebSocketMessage → ℕ
sum_payloads [] = 0
sum_payloads (m ∷ ms) = payload_bytes_of m.payload + sum_payloads ms

abbrev pub sum_all_payloads : List WebSocketConversation → ℕ
sum_all_payloads [] = 0
sum_all_payloads (c ∷ cs) = sum_payloads c.messages + sum_all_payloads cs

-- The bytes of the encodings, with a byte for each separator.
abbrev pub encoded_size : Option Bytes → ℕ
encoded_size none = 0
encoded_size (some encoded) = length encoded + 1

abbrev pub sum_encoded : ConversationEncoding → List WebSocketConversation → ℕ
sum_encoded encoding [] = 0
sum_encoded encoding (c ∷ cs) =
    encoded_size (encoding.conversation_to_vec c) + sum_encoded encoding cs

sum_all_payloads-append :
    (cs : List WebSocketConversation) (c : WebSocketConversation)
    → sum_all_payloads (cs ++ c ∷ []) ≡ sum_all_payloads cs + sum_payloads c.messages
sum_all_payloads-append [] c = omega arith
sum_all_payloads-append (x ∷ cs) c = omega (arith, sum_all_payloads-append cs c)

sum_encoded-append :
    (encoding : ConversationEncoding) (cs : List WebSocketConversation) (c : WebSocketConversation)
    → sum_encoded encoding (cs ++ c ∷ [])
      ≡ sum_encoded encoding cs + encoded_size (encoding.conversation_to_vec c)
sum_encoded-append encoding [] c = omega arith
sum_encoded-append encoding (x ∷ cs) c = omega (arith, sum_encoded-append encoding cs c)

payload_size_lem :
    (m : WebSocketMessage)
    → payload_bytes_of m.payload ≡ elim (payload_size m) as (λ x. ℕ) [ none ↦ 0 | some n ↦ n ]
unfolding payload_size body_len
payload_size_lem m = go m.payload
  where
    go :
        (p : Option BodyRef)
        → payload_bytes_of p
          ≡ elim (elim p as (λ x. Option ℕ) [ none ↦ none | some body ↦ body_len body ])
              as (λ x. ℕ) [ none ↦ 0 | some n ↦ n ]
    go none = refl
    go (some BodyRef.absent) = refl
    go (some BodyRef.empty) = refl
    go (some (BodyRef.blob b)) = refl

-- What `add_payloads` adds up.
add_payloads-sum :
    (ms : List WebSocketMessage) (total n : ℕ)
    → add_payloads total ms ≡ some n
    → n ≡ total + sum_payloads ms
unfolding add_payloads
add_payloads-sum [] total n h = ground arith
add_payloads-sum (m ∷ ms) total n h = elim (Option-cases (payload_size m)) [
  | inl missing ↦
      let size : payload_bytes_of m.payload ≡ 0 = payload_size_lem m ∙ rw missing refl in
      let rest : add_payloads total ms ≡ some n = ground arith in
      omega (arith, size, add_payloads-sum ms total n rest)
  | inr (k, found) ↦
      let size : payload_bytes_of m.payload ≡ k = payload_size_lem m ∙ rw found refl in
      let rest : add_payloads (total + k) ms ≡ some n = ground arith in
      omega (arith, size, add_payloads-sum ms (total + k) n rest)
]

-- No two conversations share an id or a flow.
abbrev pub Separate : List WebSocketConversation → Type 0
Separate [] = Unit
Separate (c ∷ cs) = (any (is_same_conversation c) cs ≡ false) × Separate cs

-- The counters are those of the conversations, all within the limits.
pub record IsAccumulation (encoding : ConversationEncoding) (acc : WebSocketAccumulation)
    : Type 0 where
  pub separate : Separate acc.conversations
  pub valid :
      All (λ c. Validate.validate (transcript_of (c ∷ [])) default_limits ≡ ok tt) acc.conversations
  pub counted : acc.messages ≡ count_messages acc.conversations
  pub few : length acc.conversations ≤ default_limits.max_conversations
  pub few_messages : acc.messages ≤ default_limits.max_messages_per_session
  pub summed : acc.payload_bytes ≡ sum_all_payloads acc.conversations
  pub small : acc.payload_bytes ≤ default_limits.max_total_payload_bytes
  pub encoded : acc.encoded_bytes ≡ sum_encoded encoding acc.conversations
  pub short : acc.encoded_bytes + 64 ≤ max_extension_bytes

count_messages-append :
    (cs : List WebSocketConversation) (c : WebSocketConversation)
    → count_messages (cs ++ c ∷ []) ≡ count_messages cs + length c.messages
count_messages-append [] c = omega arith
count_messages-append (x ∷ cs) c = omega (arith, count_messages-append cs c)

is_same_conversation-sym :
    (c x : WebSocketConversation) → is_same_conversation c x ≡ is_same_conversation x c
unfolding is_same_conversation
is_same_conversation-sym c x = ground (
  arith,
  ==_iff c.id x.id,
  ==_iff x.id c.id,
  ==_iff c.flow_id x.flow_id,
  ==_iff x.flow_id c.flow_id,
)

any-append :
    (p : WebSocketConversation → Bool) (cs : List WebSocketConversation) (c : WebSocketConversation)
    → any p (cs ++ c ∷ []) ≡ any p cs || p c
any-append p [] c = ground arith
any-append p (x ∷ cs) c = ground (arith, any-append p cs c)

Separate-append :
    (cs : List WebSocketConversation) (c : WebSocketConversation)
    → any (is_same_conversation c) cs ≡ false
    → Separate cs
    → Separate (cs ++ c ∷ [])
Separate-append [] c new h = (refl, tt)
Separate-append (x ∷ cs) c new (apart, h) = (
  any-append (is_same_conversation x) cs c ∙ ground (arith, is_same_conversation-sym c x),
  Separate-append cs c (ground arith) h,
)

module _ (encoding : ConversationEncoding) where
  open encoding use {conversation_to_vec}

  append_websocket_conversation-IsAccumulation :
      (acc next : WebSocketAccumulation) (c : WebSocketConversation)
      → append_websocket_conversation encoding acc c ≡ ok next
      → IsAccumulation encoding acc
      → IsAccumulation encoding next
  unfolding append_websocket_conversation
  append_websocket_conversation-IsAccumulation acc next c h was =
      let (room, h1) =
        reject_if-eq-ok (leb default_limits.max_conversations (length acc.conversations)) _ _ h in
      let (new, h2) = reject_if-eq-ok (any (is_same_conversation c) acc.conversations) _ _ h1 in
      let (single, h3) =
        then-eq-ok
          (as_store_error invalid (Validate.validate (transcript_of (c ∷ [])) default_limits)) _
          h2 in
      let (fits, h4) = reject_if-eq-ok (leb (2 ^ 64) (acc.messages + length c.messages)) _ _ h3 in
      let (few, h5) =
        reject_if-eq-ok
          (ltb default_limits.max_messages_per_session (acc.messages + length c.messages)) _ _ h4 in
      let (payload, added, h6) = bind-eq-ok (ok_or (add_payloads 0 c.messages) _) _ h5 in
      let (fits_too, h7) = reject_if-eq-ok (leb (2 ^ 64) (acc.payload_bytes + payload)) _ _ h6 in
      let (small, h8) =
        reject_if-eq-ok (ltb default_limits.max_total_payload_bytes (acc.payload_bytes + payload)) _
          _ h7 in
      let (encoded, found, h9) = bind-eq-ok (ok_or (conversation_to_vec c) json) _ h8 in
      let (fits_still, h10) =
        reject_if-eq-ok (leb (2 ^ 64) (acc.encoded_bytes + (length encoded + 1))) _ _ h9 in
      let (short, same) =
        reject_if-eq-ok
          (ltb max_extension_bytes (saturating_add (acc.encoded_bytes + (length encoded + 1)) 64)) _
          _ h10 in
      subst (IsAccumulation encoding) (ok-inj same) (record {
        separate = Separate-append acc.conversations c new was.separate;
        valid =
            All-append _ acc.conversations (c ∷ []) was.valid
              (as_store_error-eq-ok invalid _ single, tt);
        counted =
            ap (λ n. n + length c.messages) was.counted
            ∙ sym (count_messages-append acc.conversations c);
        few = one_more acc.conversations c (ground arith);
        few_messages =
            ltb→le default_limits.max_messages_per_session (acc.messages + length c.messages) few;
        small = ltb→le default_limits.max_total_payload_bytes (acc.payload_bytes + payload) small;
        summed = omega (
          arith,
          was.summed,
          add_payloads-sum c.messages 0 payload (ok_or-eq-ok _ _ added),
          sum_all_payloads-append acc.conversations c,
        );
        encoded = omega (
          arith,
          was.encoded,
          ap encoded_size (ok_or-eq-ok _ _ found),
          sum_encoded-append encoding acc.conversations c,
        );
        short = ground (arith, short);
      })
    where
      one_more :
          (cs : List WebSocketConversation) (c : WebSocketConversation)
          → length cs < default_limits.max_conversations
          → length (cs ++ c ∷ []) ≤ default_limits.max_conversations
      one_more cs c lt = omega (arith, length-append cs (c ∷ []), lt)

  -- Of the conversations that a session accepts one by one, no two share an id or a flow, each is valid
  -- on its own, and their number stays within its limit. The counters are the number of the messages,
  -- the sum of the lengths of their payloads, and the sum of the lengths of the encodings with one byte
  -- more for each, and stay within their limits, the last with 64 bytes to spare.
  pub append_conversations-IsAccumulation :
      (cs : List WebSocketConversation) (acc : WebSocketAccumulation)
      → append_conversations encoding no_conversations cs ≡ ok acc
      → IsAccumulation encoding acc
  unfolding append_conversations
  append_conversations-IsAccumulation cs acc h = go cs no_conversations h (record {
    separate = tt;
    valid = tt;
    counted = refl;
    few = omega arith;
    few_messages = omega arith;
    summed = refl;
    small = omega arith;
    encoded = refl;
    short = omega arith;
  })
    where
      go :
          (cs : List WebSocketConversation) (start : WebSocketAccumulation)
          → append_conversations encoding start cs ≡ ok acc
          → IsAccumulation encoding start
          → IsAccumulation encoding acc
      go [] start h was = subst (IsAccumulation encoding) (ok-inj h) was
      go (c ∷ cs) start h was =
          let (mid, added, rest) =
            bind-eq-ok (append_websocket_conversation encoding start c) _ h in
          go cs mid rest (append_websocket_conversation-IsAccumulation start mid c added was)
