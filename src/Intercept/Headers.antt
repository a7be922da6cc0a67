-- ===== src/Intercept/Headers.antt =====
-- Header filtering of the proxy: `filter_proxy_headers` (headers.rs).
use eggreplay.Bytes.{Bytes, codes, lowercase, trim, split_byte, eq_ignore_case}
use eggreplay.Prelude.{
  Bool, List, Option, [], all, contains, false, if◌then◌else◌, is_empty, none, not, some, true,
  ◌&&◌, ◌++◌, ◌==◌, ◌||◌, ◌∷◌, nat_eq, list_eq, option_eq, pair_eq,
}

-- `http::HeaderMap`: `get_all`, the items of `into_iter` and `append`, with `HeaderValue::to_str`.
-- `into_iter` names the first value of a key only.
pub record HeaderMaps : Type 1 where
  pub HeaderMap : Type 0
  pub HeaderValue : Type 0
  pub new_map : HeaderMap
  pub get_all : HeaderMap → Bytes → List HeaderValue
  pub into_iter : HeaderMap → List (Option Bytes × HeaderValue)
  pub append : HeaderMap → Bytes → HeaderValue → HeaderMap
  pub to_str : HeaderValue → Option Bytes

-- `PROXY_ONLY`
abbrev pub proxy_only : List Bytes
proxy_only =
    codes "proxy-connection"
    ∷ codes "proxy-authorization"
    ∷ codes "proxy-authenticate"
    ∷ codes "keep-alive"
    ∷ []

-- The names that `Connection` nominates, and whether `upgrade` is one.
pub record Nominated : Type 0 where
  pub nominated : List Bytes
  pub upgrade_requested : Bool

-- The body of the loop over the tokens of a value.
unfoldable pub nominate_token : Bytes → Nominated → Nominated
nominate_token raw s =
    let token = lowercase (trim raw) in
    if is_empty token then s else record {
      nominated = if contains s.nominated token then s.nominated else s.nominated ++ token ∷ [];
      upgrade_requested = s.upgrade_requested || token == codes "upgrade";
    }

unfoldable pub nominate_tokens : List Bytes → Nominated → Nominated
nominate_tokens [] s = s
nominate_tokens (t ∷ ts) s = nominate_tokens ts (nominate_token t s)

-- `classify`
unfoldable pub classify : Bytes → Bool → List Bytes → Bool
classify lower te_forward names =
    if lower == codes "connection"
    then false
    else if contains proxy_only lower
    then false
    else if lower == codes "upgrade"
    then false
    else if contains names lower
    then false
    else if lower == codes "te"
    then te_forward
    else true

-- `push_removed`
unfoldable pub push_removed : List Bytes → Bytes → List Bytes
push_removed removed name = if contains removed name then removed else removed ++ name ∷ []

-- What is reported besides the headers that are forwarded.
pub record Stripped : Type 0 where
  pub removed : List Bytes
  pub upgrade_requested : Bool
  pub had_proxy_authorization : Bool

-- `apply_side_effects`
unfoldable pub apply_side_effects : Bytes → Stripped → Stripped
unfolding push_removed
apply_side_effects lower s = record {
  removed = push_removed s.removed lower;
  upgrade_requested = lower == codes "upgrade" || s.upgrade_requested;
  had_proxy_authorization = lower == codes "proxy-authorization" || s.had_proxy_authorization;
}

-- The non-empty tokens of the values of `TE`.
unfoldable pub te_tokens : List Bytes → List Bytes
te_tokens [] = []
te_tokens (t ∷ ts) = let rest = te_tokens ts in if is_empty (trim t) then rest else trim t ∷ rest

module _ (maps : HeaderMaps) where
  open maps use {HeaderMap, HeaderValue, new_map, get_all, into_iter, append, to_str}

  -- `ProxyFilterOutcome`
  pub record ProxyFilterOutcome : Type 0 where
    pub forwarded : HeaderMap
    pub stripped : Stripped

  -- `to_str().unwrap_or("")`
  unfoldable pub header_text : HeaderValue → Bytes
  header_text v = elim (to_str v) [ none ↦ [] | some s ↦ s ]

  -- The loop over the values of `Connection`.
  unfoldable pub nominate : List HeaderValue → Nominated → Nominated
  nominate [] s = s
  nominate (v ∷ vs) s = nominate vs (nominate_tokens (split_byte b',' (header_text v)) s)

  -- The texts that `filter_map` keeps, split at commas.
  unfoldable pub te_pieces : List HeaderValue → List Bytes
  te_pieces [] = []
  te_pieces (v ∷ vs) = elim (to_str v) [
    | none ↦ te_pieces vs
    | some s ↦ split_byte b',' s ++ te_pieces vs
  ]

  unfoldable pub te_forward : HeaderMap → Bool
  te_forward headers =
      let tokens = te_tokens (te_pieces (get_all headers (codes "te"))) in
      not (is_empty tokens) && all (λ t. eq_ignore_case t (codes "trailers")) tokens

  -- One item of the loop: a name decides for the values that follow it.
  unfoldable pub filter_items :
      (Bytes → Bool)
      → List (Option Bytes × HeaderValue)
      → Option (Bytes × Bool)
      → ProxyFilterOutcome
      → ProxyFilterOutcome
  filter_items keeps [] current out = out
  filter_items keeps ((some name, value) ∷ items) current out =
      let lower = lowercase name in
      filter_items keeps items (some (name, keeps lower)) (
        if keeps lower
        then record { forwarded = append out.forwarded name value; stripped = out.stripped }
        else record { forwarded = out.forwarded; stripped = apply_side_effects lower out.stripped })
  filter_items keeps ((none, value) ∷ items) (some (name, true)) out =
      filter_items keeps items (some (name, true))
        (record { forwarded = append out.forwarded name value; stripped = out.stripped })
  filter_items keeps ((none, value) ∷ items) current out = filter_items keeps items current out

  -- The names nominated by the values of `Connection`.
  unfoldable pub nominations : HeaderMap → Nominated
  nominations headers =
      nominate (get_all headers (codes "connection"))
        (record { nominated = []; upgrade_requested = false })

  -- Whether a name may be forwarded.
  unfoldable pub is_forwarded : HeaderMap → Bytes → Bool
  is_forwarded headers lower = classify lower (te_forward headers) (nominations headers).nominated

  -- `filter_proxy_headers`
  unfoldable pub filter_proxy_headers : HeaderMap → ProxyFilterOutcome
  filter_proxy_headers headers =
      filter_items (is_forwarded headers) (into_iter headers) none (record {
        forwarded = new_map;
        stripped = record {
          removed = [];
          upgrade_requested = (nominations headers).upgrade_requested;
          had_proxy_authorization = false;
        };
      })
