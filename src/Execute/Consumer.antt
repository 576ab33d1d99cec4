-- ===== src/Execute/Consumer.antt =====
-- internal/execute/internal/event/consumer.go: one message, from the queue to its result event.
use ework_runner.Prelude.{
  ℤ, String, arith, Bool, true, false, ◌≡◌, ◌==ˢ◌, Option, none, some, List, [], ◌∷◌, ◌++◌,
  if◌then◌else◌,
}
use ework_runner.Domain.Errors.{json_failed, broker_failed}
use ework_runner.Action.{Action, Result, ok, err, panic}
use ework_runner.Prelude.Text.{trim_space}
use ework_runner.Files.{Os}
use ework_runner.Execute.{Status, Outcome, receive}
use ework_runner.Execute.Output
use ework_runner.Execute.Output.{split_lines, last_valid}
use ework_runner.Execute.Output.LastLine.{want_result-last_line}

-- event.ExecuteReceive; `args` is the map as it is decoded.
pub record Message (Args : Type 0) : Type 0 where
  pub task_id : ℤ
  pub language : String
  pub code : String
  pub args : Args
  pub variables : String

pub record ExecuteResultEvent : Type 0 where
  pub task_id : ℤ
  pub result : String
  pub want_result : String
  pub status : Status

-- The machine, and the result events that were sent, oldest first.
pub record Worker (S : Type 0) : Type 0 where
  pub machine : S
  pub sent : List ExecuteResultEvent

module _ {Args S : Type 0} (os : Os S) (marshal_args : Args → Option String)
    (delivers : ExecuteResultEvent → Bool) where
  abbrev pub result_event : ℤ → Outcome → ExecuteResultEvent
  result_event task_id o = record {
    task_id = task_id;
    result = o.output;
    want_result = Output.want_result o.output;
    status = o.status;
  }

  abbrev pub produce : ExecuteResultEvent → Action (Worker S) (Unit {0})
  produce e w =
      if delivers e then (ok tt, record w { sent = w.sent ++ e ∷ [] }) else (err broker_failed, w)

  -- An error of Receive is logged only.
  abbrev pub report : ℤ → Result Outcome × S → Worker S → Result (Unit {0}) × Worker S
  report task_id (ok o, s) w = produce (result_event task_id o) (record w { machine = s })
  report task_id (err e, s) w = (err e, record w { machine = s })
  report task_id (panic, s) w = (panic, record w { machine = s })

  report-ok :
      (task_id : ℤ) (o : Outcome) (r : Result Outcome × S) (w : Worker S)
      → r.0 ≡ ok o
      → report task_id r w ≡ produce (result_event task_id o) (record w { machine = r.1 })
  report-ok task_id o (ok o', s) w h = ground (arith, h)
  report-ok task_id o (err e, s) w h = cc
  report-ok task_id o (panic, s) w h = cc

  abbrev pub consume_args : Option String → Message Args → Action (Worker S) (Unit {0})
  consume_args none m w = (err json_failed, w)
  consume_args (some args) m w =
      report m.task_id
        (receive os
          (record {
            task_id = m.task_id;
            language = m.language;
            code = m.code;
            args = args;
            variables = m.variables;
          })
          w.machine)
        w

  -- Consume, from the message that the queue hands over, as it is decoded; `none` is text that is no JSON
  -- of a message.
  unfoldable pub consume : Option (Message Args) → Action (Worker S) (Unit {0})
  consume none w = (err json_failed, w)
  consume (some m) w = consume_args (marshal_args m.args) m w

  -- A script that was run sends exactly one event while the broker takes events: it has the task, the
  -- status, and the output with the last line of the trimmed output, if that is not blank.
  pub consume-sent :
      (m : Message Args) (args : String) (o : Outcome) (w : Worker S)
      → marshal_args m.args ≡ some args
      → (receive os
          (record {
            task_id = m.task_id;
            language = m.language;
            code = m.code;
            args = args;
            variables = m.variables;
          })
          w.machine).0
        ≡ ok o
      → (trim_space o.output ==ˢ "") ≡ false
      → ((e : ExecuteResultEvent) → delivers e ≡ true)
      → (consume (some m) w).1.sent
        ≡ w.sent
          ++ record {
            task_id = m.task_id;
            result = o.output;
            want_result = last_valid (split_lines (trim_space o.output));
            status = o.status;
          }
            ∷ []
  unfolding consume
  consume-sent m args o w marshals ran inked takes =
      let answer =
        receive os
          (record {
            task_id = m.task_id;
            language = m.language;
            code = m.code;
            args = args;
            variables = m.variables;
          })
          w.machine in
      simp
        (marshals, report-ok m.task_id o answer w ran, takes, want_result-last_line o.output inked)
