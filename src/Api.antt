-- ===== src/Api.antt =====
-- api/: the middleware around the route handlers. A request is the parts that they read, a
-- response the parts that they write.
pub mod RateLimit
pub mod Auth
pub mod Metrics
pub mod Stack
pub mod IndexRoutes
pub mod SearchRoute
pub mod Server
pub mod Schemas
mod Tests
use Prim.Native.String.{String}
use axon_search.Base.{ℕ, Bool, Option, List, [], ◌∷◌}
use axon_search.Base.Dict.{text_key, contains}

pub record Request : Type 0 where
  pub method : String
  pub path : String
  pub route : Option String
  pub api_key : Option String
  pub host : Option String

pub record Response : Type 0 where
  pub status : ℕ
  pub detail : String
  pub retry_after : Option ℕ

-- What a handler or a middleware gives: a response, or `none` where it raises.
abbrev pub Answer : Type 0
Answer = Option Response

-- `EXEMPT_PATHS` of api/auth.py.
abbrev pub exempt_paths : List String
exempt_paths = "/health" ∷ "/metrics" ∷ "/docs" ∷ "/redoc" ∷ "/openapi.json" ∷ []

unfoldable pub is_exempt : Request → Bool
is_exempt r = contains r.path exempt_paths
