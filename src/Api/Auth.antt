-- ===== src/Api/Auth.antt =====
-- api/auth.py: `APIKeyMiddleware`, around a handler with a state of its own.
use Prim.Native.String.{String}
use axon_search.Base.{Bool, true, false, ◌||◌, Option, none, some, List, [], ◌∷◌, if◌then◌else◌}
use axon_search.Base.Dict.{text_key, contains}
use axon_search.Api.{Request, Answer, is_exempt}

abbrev pub is_empty : List String → Bool
is_empty [] = true
is_empty (k ∷ ks) = false

unfoldable pub is_accepted : List String → Option String → Bool
is_accepted keys none = false
is_accepted keys (some key) = contains key keys

unfoldable pub dispatch :
    {S : Type 0} → List String → (Request → S → Answer × S) → Request → S → Answer × S
dispatch keys call_next request s =
    if is_empty keys || is_exempt request
    then call_next request s
    else if is_accepted keys request.api_key
    then call_next request s
    else (
      some (record {
        status = 401;
        detail = "Missing or invalid API key. Send it via the X-API-Key header.";
        retry_after = none;
      }),
      s,
    )
