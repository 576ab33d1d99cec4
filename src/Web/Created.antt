-- ===== src/Web/Created.antt =====
-- How tasks that come over HTTP are run.
use ework_runner.Prelude.{Option, none, some, ◌≡◌, refl}
use ework_runner.Domain.Task.{Task, GrpcConfig, HttpConfig, RetryConfig}
use ework_runner.Action.{ok}
use ework_runner.Web.{CreateTaskReq, with_configs, to_domain}

-- A request is translated only if it has all three configurations, and the task has both a gRPC
-- and an HTTP configuration, so that it is never one for HTTP or for a local function alone.
pub to_domain-ok :
    (req : CreateTaskReq) (t : Task)
    → to_domain req ≡ ok t
    → (g : GrpcConfig) × (h : HttpConfig) × (r : RetryConfig) × (req.grpc_config ≡ some g)
      × (req.http_config ≡ some h)
      × (req.retry_config ≡ some r)
      × (t.grpc_config ≡ some g)
      × (t.http_config ≡ some h)
unfolding to_domain
to_domain-ok req t = configs req.grpc_config req.http_config req.retry_config
  where
    configs :
        (grpc : Option GrpcConfig) (http : Option HttpConfig) (retry : Option RetryConfig)
        → with_configs req grpc http retry ≡ ok t
        → (g : GrpcConfig) × (h : HttpConfig) × (r : RetryConfig) × (grpc ≡ some g)
          × (http ≡ some h)
          × (retry ≡ some r)
          × (t.grpc_config ≡ some g)
          × (t.http_config ≡ some h)
    configs (some g) (some h) (some r) e = (g, h, r, refl, refl, refl, cc, cc)
    configs (some g) (some h) none e = absurd (cc e)
    configs (some g) none retry e = absurd (cc e)
    configs none http retry e = absurd (cc e)
