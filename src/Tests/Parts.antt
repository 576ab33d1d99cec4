-- ===== src/Tests/Parts.antt =====
-- Parts that stand on their own, at small inputs.
use ework_runner.Prelude.{
  ℕ, pos, String, Bool, true, false, ◌≡◌, refl, sym, ap, arith, ◌⊎◌, ◌==ˢ◌, Option, none, some,
  List, [], ◌∷◌, if◌then◌else◌,
}
use ework_runner.Prelude.Table.{get, put}
use ework_runner.Domain.Errors.{json_failed}
use ework_runner.Action.{ok, err}
use ework_runner.Rows.{JsonColumn}
use ework_runner.Env.{ExecuteRequest}
use ework_runner.Sdk.{Executor}
use ework_runner.Sdk.Tasks.{Handlers}
use ework_runner.Registry.{
  EtcdEvent, WatchResponse, put_event, delete_event, canceled, watch_error, changes, types_map,
  forwarded,
}
use ework_runner.Registry.Watch.{
  Signal, takes_answer, context_done, receives, selecting, steps, Delivers, steps-forwarded,
}
use ework_runner.Clients.{loads, stores, answer, access, access_all, load_or_store}
use ework_runner.Clients.Sharing.{answer_same}
use ework_runner.Column.{Source, text, bytes, value, scan}
use ework_runner.Column.RoundTrip.{Stored, as_bytes, scan-value}

abbrev idle_executor : Executor
idle_executor = record {
  service_id = "executor";
  states = λ eid. none;
  cancels = λ eid. none;
  cancelled = λ context. false;
  jobs = [];
  reported = [];
}

abbrev handlers : Handlers
handlers = ("backup", λ req. false) ∷ []

abbrev call : ExecuteRequest
call = record {
  service_name = "executor";
  eid = pos 4;
  task_id = pos 1;
  task_name = "nightly";
  task_handler_name = "backup";
  params = [];
}

-- Two goroutines find no client and make one each; the second gets the client of the first.
both_stored : answer {T = ℕ} (stores "executor" 1) [] ≡ some 1
unfolding answer load_or_store get put
both_stored = refl

answer_same_example :
    answer {T = ℕ}
      (stores "executor" 2)
      (access_all (loads "scheduler" ∷ stores "scheduler" 3 ∷ []) (access (stores "executor" 1) []))
    ≡ some 1
answer_same_example =
    answer_same (stores "executor" 1) (stores "executor" 2)
      (loads "scheduler" ∷ stores "scheduler" 3 ∷ []) [] 1 refl both_stored

-- An encoding of the Booleans.
abbrev encode : Bool → Option String
encode b = some (if b then "true" else "false")

abbrev decode : String → Bool → Bool × Bool
decode s b = (true, s ==ˢ "true")

decodes : (v : Bool) (s : String) → encode v ≡ some s → decode s false ≡ (true, v)
decodes v s h = from v s (cc h)
  where
    from :
        (v : Bool) (s : String) → (if v then "true" else "false") ≡ s → decode s false ≡ (true, v)
    from true s e = ap (λ t. (true, t ==ˢ "true")) (sym e)
    from false s e = ap (λ t. (true, t ==ˢ "true")) (sym e)

abbrev full : JsonColumn Bool
full = record { val = true; valid = true }

written : (source : Source) → value encode decode full ≡ ok source → Stored source (bytes "true")
unfolding value
written source h = stored source (ground (arith, h))
  where
    stored : (source : Source) → source ≡ text "true" → Stored source (bytes "true")
    stored source e = rw e (as_bytes "true")

scan-value_example :
    let empty : JsonColumn Bool = record { val = false; valid = false } in
    ((true ≡ false) × (scan encode decode (bytes "true") empty ≡ (ok tt, empty)))
    ⊎ ((encode true ≡ none) × (value encode decode full ≡ err json_failed))
    ⊎ (scan encode decode (bytes "true") empty ≡ (ok tt, full))
scan-value_example = scan-value encode decode false decodes full (bytes "true") written

-- The subscriber takes the first of two events; an error and a deletion follow, and the context ends
-- while the goroutine sends.
abbrev responses : List (WatchResponse EtcdEvent)
responses =
    changes (put_event ∷ put_event ∷ []) ∷ watch_error ∷ changes (delete_event ∷ []) ∷ canceled ∷ []

abbrev signals : List Signal
signals =
    takes_answer ∷ receives ∷ takes_answer ∷ receives ∷ takes_answer ∷ takes_answer ∷ context_done
    ∷ receives ∷ []

steps-forwarded_example :
    Delivers types_map signals
      (forwarded types_map responses)
      (steps types_map signals (record { inbox = responses; forwarder = selecting }))
steps-forwarded_example = steps-forwarded types_map signals responses
