-- ===== src/Tests/Fixtures.antt =====
-- Concrete inputs: the crates' operations, requests, flows and candidates.
use eggreplay.Matching.Types.{MatchCandidate, new_candidate}
use eggreplay.Flow.{HeaderEntry, HttpRequest, Flow, BodyRef, response}
use eggreplay.Bytes.{Bytes, codes}
use eggreplay.Prelude.{
  List, [], if◌then◌else◌, is_empty, none, some, ◌==◌, ◌∷◌, nat_eq, list_eq, option_eq, pair_eq,
}
use eggreplay.External.{External, Kind}

-- A value of JSON is its own text here, and a digest is the text itself.
abbrev pub crates : External
crates = record {
  Value = Bytes;
  value_beq = λ a b. a == b;
  from_slice = λ b. some b;
  to_text = λ v. v;
  pointer = λ v p. if is_empty p then some v else none;
  modify = λ v p f. if is_empty p then some (f v) else none;
  of_string = λ s. s;
  as_string = λ v. some v;
  kind = λ v. Kind.other;
  remove_key = λ k v. v;
  remove_index = λ i v. v;
  sha256_hex = λ b. b;
  parse_form = λ b. [];
}

abbrev pub secret_header : HeaderEntry
secret_header = record { name = codes "Authorization"; value = codes "Bearer abc" }

abbrev pub plain_header : HeaderEntry
plain_header = record { name = codes "Accept"; value = codes "text/plain" }

abbrev pub get_request : Bytes → HttpRequest
get_request path = record {
  method = codes "GET";
  scheme = codes "https";
  authority = codes "example.test";
  path = path;
  query = record { key = codes "page"; value = codes "2" } ∷ [];
  headers = secret_header ∷ plain_header ∷ [];
  body = BodyRef.empty;
  trailers = [];
}

abbrev pub users : HttpRequest
users = get_request (codes "/users")

abbrev pub orders : HttpRequest
orders = get_request (codes "/orders")

abbrev pub flow_of : HttpRequest → Flow
flow_of request = record {
  schema_version = 1;
  id = codes "flow-1";
  started_at_ms = 1000;
  completed_at_ms = some 1010;
  request = request;
  outcome = response (record {
    status = 200;
    headers = record { name = codes "Set-Cookie"; value = codes "id=1" } ∷ [];
    body = BodyRef.empty;
    trailers = [];
  });
  physical_route = none;
  provenance = record { mode = codes "record"; observer = codes "proxy" };
  annotations = [];
  redactions = [];
}

-- Two recordings of one request, and one of another.
abbrev pub recorded : List MatchCandidate
recorded =
    new_candidate (flow_of users) []
    ∷ new_candidate (flow_of users) []
    ∷ new_candidate (flow_of orders) []
    ∷ []
