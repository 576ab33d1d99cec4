-- ===== src/Reporter.antt =====
-- internal/grpc/reporter.go: the reports that executors send.
use ework_runner.Prelude.{ℤ, Option, none, some, List, [], ◌∷◌, map}
use ework_runner.Domain.Errors.{Error, call_failed}
use ework_runner.Domain.Execution.{ProtoState, Report, execution_state_from_proto}
use ework_runner.Action.{pure, raise, ◌>>=◌}
use ework_runner.Env.{Env, Act}
use ework_runner.Service.Execution.{handle_reports}

unfoldable pub to_domain_reports : List (Option ProtoState) → List Report
to_domain_reports = map (λ state. record { execution_state = execution_state_from_proto state })

-- codes.Internal, if there is an error
abbrev replied : List (ℤ × ℤ × Error) → Act (Unit {0})
replied [] = pure tt
replied (e ∷ errors) = raise call_failed

module _ (env : Env) where
  unfoldable pub report : Option ProtoState → Act (Unit {0})
  report none = pure tt
  report (some state) = do
    errors ← handle_reports env (to_domain_reports (some state ∷ []))
    replied errors

  unfoldable pub batch_report : List (Option ProtoState) → Act (Unit {0})
  batch_report [] = pure tt
  batch_report (s ∷ states) = do
    errors ← handle_reports env (to_domain_reports (s ∷ states))
    replied errors
