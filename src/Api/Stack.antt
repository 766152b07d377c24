-- ===== src/Api/Stack.antt =====
-- api/server.py, `create_app`: the middleware around the handlers, metrics outermost, then the
-- rate limiter, then the key check. The clock readings of a request are arguments. Without
-- `CORS_ALLOW_ORIGINS`, which is the default, there is no other middleware.
pub mod Safety
pub mod Flood
use Prim.Native.String.{String}
use axon_search.Base.{ℕ, List, [], ◌∷◌}
use axon_search.Config.{Settings}
use axon_search.Api.{Request, Answer}
use axon_search.Api.Auth
use axon_search.Api.Metrics
use axon_search.Api.Metrics.{Registry}
use axon_search.Api.RateLimit
use axon_search.Api.RateLimit.{Hits}

-- The readings of the performance counter around a request, and of the monotonic clock in it.
pub record Times : Type 0 where
  pub t0 : ℕ
  pub now : ℕ
  pub t1 : ℕ

module _ {S : Type 0} (settings : Settings) (handler : Request → S → Answer × S) where
  unfoldable pub serve : Times → Request → Registry × (Hits × S) → Answer × (Registry × (Hits × S))
  unfolding Metrics.dispatch RateLimit.dispatch Auth.dispatch
  serve t request =
      Metrics.dispatch
        (RateLimit.dispatch settings.rate_limit_per_minute (Auth.dispatch settings.api_keys handler)
          t.now)
        t.t0 t.t1 request

  unfoldable pub serve_all : List (Times × Request) → Registry × (Hits × S) → Registry × (Hits × S)
  serve_all [] state = state
  serve_all ((t, request) ∷ rest) state = serve_all rest (serve t request state).1
