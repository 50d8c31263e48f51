-- ===== src/Store/Open.antt =====
-- `openPodRunStore` of src/pod-store.mjs, on files whose bytes are JSON texts of the values given;
-- the tests on modes, sizes and changing files are not modelled. Whether a text is a Date in ISO form
-- is the parameter `is_iso`.
use bimo.Base.{
  ℕ, ◌+◌, String, Bool, false, not, List, [], ◌∷◌, length, any, leb, mem_text, Option, none, some,
  ◌&&◌, ◌||◌, Result, ok, check, ◌>>◌, get_last?, if◌then◌else◌,
}
use bimo.Js.{Value, str, get, is_nat, is_text, is_null, is_string, in_range, strict_equal, to_text}
use bimo.Store.{max_events, terminal_statuses}
use bimo.Store.Records.{Checked, matches_run_id, matches_event_type, plain_object, validate_json}

-- the store that `openPodRunStore` returns: only `appendEvent` and `finish` work on it
pub record Opened : Type 0 where
  pub run_id : String
  pub run : Value
  pub events : List Value
  pub sequence : ℕ
  pub finished : Bool

module _ (is_iso : String → Bool) where
  -- `validStoredTimestamp`
  abbrev valid_stored_timestamp : Value → Bool
  valid_stored_timestamp (str s) = is_iso s
  valid_stored_timestamp _ = false

  -- `TERMINAL_STATUSES.has(run.status)`
  abbrev pub is_terminal : Value → Bool
  is_terminal (str s) = mem_text s terminal_statuses
  is_terminal _ = false

  unfoldable pub valid_run : String → Value → Bool
  valid_run run_id run =
      is_nat (get run "version") 1
      && is_text (get run "runId") run_id
      && (is_terminal (get run "status") || is_text (get run "status") "running")
      && is_string (get run "phase")
      && in_range (get run "currentAttempt") 0 10
      && valid_stored_timestamp (get run "startedAt")
      && (is_null (get run "finishedAt") || valid_stored_timestamp (get run "finishedAt"))

  -- the test on the event at an index
  unfoldable pub valid_event : String → ℕ → Value → Bool
  valid_event run_id i e =
      is_nat (get e "version") 1
      && is_text (get e "runId") run_id
      && is_nat (get e "sequence") (i + 1)
      && valid_stored_timestamp (get e "timestamp")
      && matches_event_type (to_text (get e "type"))

  unfoldable pub check_events : String → ℕ → List Value → Checked
  check_events run_id i [] = ok tt
  check_events run_id i (e ∷ es) = do
    plain_object e "event"
    validate_json "event" 0 e
    check (valid_event run_id i e) "event record is invalid"
    check_events run_id (i + 1) es

  -- the last event is `run.finished` with the status of the run
  abbrev is_final : Value → Option Value → Bool
  is_final run none = false
  is_final run (some e) =
      is_text (get e "type") "run.finished" && strict_equal (get e "status") (get run "status")

  unfoldable pub check_ending : Value → List Value → Checked
  check_ending run events =
      if not (is_text (get run "status") "running")
      then check (not (is_null (get run "finishedAt")) && is_final run (get_last? events))
          "terminal run record is inconsistent"
      else check
          (is_null (get run "finishedAt")
            && not (any (λ e. is_text (get e "type") "run.finished") events))
          "active run record is inconsistent"

  unfoldable pub open_store : String → Value → List Value → Result Opened
  open_store run_id run events = do
    check (matches_run_id run_id) "invalid run ID"
    plain_object run "run record"
    validate_json "run record" 0 run
    check (valid_run run_id run) "run record is invalid"
    plain_object (get run "assignment") "run assignment"
    check_events run_id 0 events
    check (leb (length events) max_events) "event record exceeds the entry limit"
    check_ending run events
    ok (record {
      run_id = run_id;
      run = run;
      events = events;
      sequence = length events;
      finished = not (is_text (get run "status") "running");
    })
