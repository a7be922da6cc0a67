-- ===== src/Stream/Sse.antt =====
-- `parse_sse` and `compare_sse`.
use eggreplay.Prelude.{
  Bool, List, Message, Option, [], all, contains, false, if◌then◌else◌, is_empty, leb, length, ltb,
  map, none, not, some, text, true, ℕ, ◌&&◌, ◌*◌, ◌++◌, ◌==◌, ◌||◌, ◌∷◌, nat_eq, list_eq, option_eq,
  pair_eq,
}
use eggreplay.Bytes.{
  split_byte, Bytes, is_utf8, strip_prefix, codes, contains_byte, is_digit, parse_unsigned,
}

abbrev pub max_sse_line_bytes : ℕ
max_sse_line_bytes = 64 * 1024

abbrev pub max_sse_events : ℕ
max_sse_events = 100000

abbrev pub max_sse_body_bytes : ℕ
max_sse_body_bytes = 16 * 1024 * 1024

pub record SseEvent : Type 0 where
  pub payload : Bytes
  pub event : Option Bytes
  pub id : Option Bytes
  pub retry : Option ℕ
  pub comments : List Bytes

pub record SseParseResult : Type 0 where
  pub events : List SseEvent
  pub error : Option Message

-- What the loop over the lines carries: `result`, and the fields of the event that is being read.
pub record SseState : Type 0 where
  pub result : SseParseResult
  pub parts : List Bytes
  pub event : Option Bytes
  pub id : Option Bytes
  pub retry : Option ℕ
  pub comments : List Bytes

unfoldable pub is_some {ℓ} : {A : Type ℓ} → Option A → Bool
is_some none = false
is_some (some a) = true

-- `Vec::pop` for its effect, and `concat`.
pop {ℓ} : {A : Type ℓ} → List A → List A
pop [] = []
pop (x ∷ []) = []
pop (x ∷ y ∷ l) = x ∷ pop (y ∷ l)

concat : List Bytes → Bytes
concat [] = []
concat (s ∷ l) = s ++ concat l

-- `strip_suffix('\r').unwrap_or(raw)`
unfoldable pub strip_return : Bytes → Bytes
strip_return [] = []
strip_return (c ∷ []) = if c == 0x0d then [] else c ∷ []
strip_return (c ∷ d ∷ s) = c ∷ strip_return (d ∷ s)

-- `strip_prefix(' ').unwrap_or(value)`
strip_space : Bytes → Bytes
strip_space [] = []
strip_space (c ∷ s) = if c == b' ' then s else c ∷ s

-- `split_once(':').unwrap_or((line, ""))`
split_field : Bytes → Bytes × Bytes
split_field [] = ([], [])
split_field (c ∷ s) =
    let (field, value) = split_field s in if c == b':' then ([], s) else (c ∷ field, value)

unfoldable pub is_pending : SseState → Bool
unfolding is_some
is_pending st =
    not (is_empty st.parts)
    || is_some st.event
    || is_some st.id
    || is_some st.retry
    || not (is_empty st.comments)

unfoldable pub fail : SseState → Message → SseState
fail st message = record st { result = record st.result { error = some message } }

-- The event that was read is added to the result, and its fields are taken.
unfoldable pub flush : SseState → SseState
unfolding pop concat
flush st = record {
  result = record st.result {
    events =
        st.result.events
        ++ (record {
          payload = concat (pop st.parts);
          event = st.event;
          id = st.id;
          retry = st.retry;
          comments = st.comments;
        }
            ∷ []);
  };
  parts = [];
  event = none;
  id = none;
  retry = none;
  comments = [];
}

unfoldable pub set_retry : Option ℕ → SseState → SseState
unfolding fail
set_retry none st = fail st (text "invalid SSE field value")
set_retry (some n) st = record st { retry = some n }

-- The branch on the name of a field.
unfoldable pub set_field : Bytes → Bytes → SseState → SseState
unfolding set_retry fail
set_field field value st =
    if field == codes "data"
    then record st { parts = st.parts ++ value ∷ (0x0a ∷ []) ∷ [] }
    else if field == codes "event"
    then record st { event = some value }
    else if field == codes "id"
    then (if contains_byte 0 value
        then fail st (text "invalid SSE field value")
        else record st { id = some value })
    else if field == codes "retry"
    then (if not (is_empty value) && all is_digit value
        then set_retry (parse_unsigned 64 value) st
        else fail st (text "invalid SSE field value"))
    else st

unfoldable pub take_line : Bool → Bytes → SseState → SseState
unfolding set_field strip_space split_field
take_line include_comments line st = elim (strip_prefix (codes ":") line) [
  | some comment ↦
      if include_comments
      then record st { comments = st.comments ++ strip_space comment ∷ [] }
      else st
  | none ↦ set_field (split_field line).0 (strip_space (split_field line).1) st
]

-- The loop over the lines; where it breaks, the lines that are left are not read.
unfoldable pub read_lines : Bool → List Bytes → SseState → SseState
unfolding is_pending flush fail take_line
read_lines include_comments [] st = st
read_lines include_comments (line ∷ lines) st =
    let flushed = read_lines include_comments lines (flush st) in
    let skipped = read_lines include_comments lines st in
    let taken = read_lines include_comments lines (take_line include_comments line st) in
    if ltb max_sse_line_bytes (length line)
    then fail st (text "SSE line exceeds configured byte limit")
    else if not (is_empty line)
    then taken
    else if not (is_pending st)
    then skipped
    else if leb max_sse_events (length st.result.events)
    then fail st (text "SSE event count exceeds configured limit")
    else flushed

-- What follows the loop: an event that no empty line ended.
unfoldable pub end_of_body : SseState → SseParseResult
unfolding is_pending flush fail is_some
end_of_body st =
    if not (is_some st.result.error) && is_pending st
    then (if leb max_sse_events (length st.result.events)
        then (fail st (text "SSE event count exceeds configured limit")).result
        else (flush st).result)
    else st.result

abbrev pub start_sse : SseState
start_sse = record {
  result = record { events = []; error = none };
  parts = [];
  event = none;
  id = none;
  retry = none;
  comments = [];
}

-- `parse_sse`
unfoldable pub parse_sse : Bytes → Bool → SseParseResult
unfolding read_lines end_of_body strip_return
parse_sse body include_comments =
    if ltb max_sse_body_bytes (length body)
    then record { events = []; error = some (text "SSE body exceeds configured byte limit") }
    else if not (is_utf8 body)
    then record { events = []; error = some (text "SSE body is not valid UTF-8") }
    else end_of_body
        (read_lines include_comments (map strip_return (split_byte 0x0a body)) start_sse)

-- The comparison of two events.
unfoldable pub same_event : List Bytes → SseEvent → SseEvent → Bool
same_event ignored left right =
    (contains ignored (codes "data") || left.payload == right.payload)
    && (contains ignored (codes "event") || left.event == right.event)
    && (contains ignored (codes "id") || left.id == right.id)
    && (contains ignored (codes "retry") || left.retry == right.retry)
    && (contains ignored (codes "comments") || left.comments == right.comments)

-- `zip` and `all`
unfoldable pub all_same : List Bytes → List SseEvent → List SseEvent → Bool
unfolding same_event
all_same ignored (l ∷ ls) (r ∷ rs) = same_event ignored l r && all_same ignored ls rs
all_same ignored _ _ = true

-- `compare_sse`
unfoldable pub compare_sse : List SseEvent → List SseEvent → List Bytes → Bool
unfolding all_same
compare_sse expected actual ignored =
    length expected == length actual && all_same ignored expected actual
