-- ===== src/Matching/Types.antt =====
-- The data of the matcher.
use eggreplay.Prelude.{List, Option, [], length, none, some, ℕ, ◌∷◌}
use eggreplay.Bytes.{Bytes, codes, lowercase}
use eggreplay.BTree
use eggreplay.BTree.{BTreeMap, BTreeSet}
use eggreplay.Config.{MatcherProfile, strict, practical}
use eggreplay.Flow.{Flow, BodyRef, QueryPair}

pub data BodyMatchMode : Type 0 where
  exact_bytes exact_text semantic_json : BodyMatchMode

pub data ConsumptionMode : Type 0 where
  once repeat_last unlimited : ConsumptionMode

pub record NormalizedRequest : Type 0 where
  pub scheme : Bytes
  pub authority : Bytes
  pub path : Bytes
  pub query : List QueryPair
  pub headers : BTreeMap (List Bytes)

pub data CandidateBody : Type 0 where
  absent empty : CandidateBody
  digest : Bytes → ℕ → CandidateBody
  inline : Bytes → CandidateBody

-- `CandidateBody::from_body_ref`
unfoldable pub from_body_ref : BodyRef → CandidateBody
from_body_ref BodyRef.absent = absent
from_body_ref BodyRef.empty = empty
from_body_ref (BodyRef.blob b) = digest b.sha256 b.length

-- `CandidateBody::len`
unfoldable pub candidate_len : CandidateBody → Option ℕ
candidate_len absent = none
candidate_len empty = some 0
candidate_len (digest sha256 size) = some size
candidate_len (inline bytes) = some (length bytes)

pub record MatchCandidate : Type 0 where
  pub flow : Flow
  pub body : CandidateBody
  pub request_body : Bytes

-- `MatchCandidate::new`
unfoldable pub new_candidate : Flow → Bytes → MatchCandidate
new_candidate flow bytes = record { flow = flow; body = inline bytes; request_body = bytes }

-- `MatchCandidate::from_flow`
unfoldable pub from_flow : Flow → MatchCandidate
unfolding from_body_ref
from_flow flow = record { flow = flow; body = from_body_ref flow.request.body; request_body = [] }

pub data MatchDimension : Type 0 where
  method authority path query headers body : MatchDimension

pub record NearMiss : Type 0 where
  pub candidate_index : ℕ
  pub cost : ℕ
  pub dimensions : List MatchDimension
  pub summary : Bytes

pub data MatchResult : Type 0 where
  matched : ℕ → MatchResult
  no_match exhausted : List NearMiss → MatchResult

pub record Matcher : Type 0 where
  pub profile : MatcherProfile
  pub body_mode : BodyMatchMode
  pub ignored_headers : BTreeSet
  pub ignored_json_paths : BTreeSet
  pub max_near_misses : ℕ

-- `Matcher::new`, `strict`, `practical`
unfoldable pub new_matcher : MatcherProfile → BodyMatchMode → ℕ → Matcher
new_matcher profile body_mode max_near_misses = record {
  profile = profile;
  body_mode = body_mode;
  ignored_headers = [];
  ignored_json_paths = [];
  max_near_misses = max_near_misses;
}

unfoldable pub strict_matcher : ℕ → Matcher
unfolding new_matcher
strict_matcher = new_matcher strict exact_bytes

unfoldable pub practical_matcher : ℕ → Matcher
unfolding new_matcher
practical_matcher n = record (new_matcher practical exact_bytes n) {
  ignored_headers = BTree.extend [] (codes "date" ∷ codes "user-agent" ∷ codes "x-request-id" ∷ []);
}

-- `Matcher::ignore_header`, `ignore_json_path`
unfoldable pub ignore_header : Matcher → Bytes → Matcher
ignore_header m name = record m { ignored_headers = BTree.add (lowercase name) m.ignored_headers }

unfoldable pub ignore_json_path : Matcher → Bytes → Matcher
ignore_json_path m pointer = record m {
  ignored_json_paths = BTree.add pointer m.ignored_json_paths;
}
