-- ===== src/Store/Invariant.antt =====
-- What holds of a run's record after every operation.
use bimo.Base.{
  ℕ, ◌+◌, ◌≤◌, ◌<◌, String, true, false, List, [], ◌∷◌, ◌++◌, length, ◌≡◌, arith, ok, subst,
  length-append, from_ok, Result-cases, Bool-cases, inl, inr, mem_text, ap,
}
use bimo.Js.{Value, nat, str, obj, get, Fields, spread, fields_of}
use bimo.Store.{
  Store, Io, left_over, prepare_event, append_event, write_attempt_plan, write_work_result,
  write_gate_receipt, enqueue_inbox, prepare_finish, finish, event_fields, terminal_event,
  terminal_run, terminal_statuses,
}
use bimo.Store.Records.{
  serialize_record, serialize_pretty, clone_json, timestamp, matches_event_type,
}
use bimo.Store.Lookup.{find_field-set_field}

-- an event of run r with number n
pub record IsNumbered (r : String) (n : ℕ) (e : Value) : Type 0 where
  pub version : get e "version" ≡ nat 1
  pub sequence : get e "sequence" ≡ nat n
  pub run_id : get e "runId" ≡ str r

-- events numbered from n + 1 on
abbrev pub Numbered : String → ℕ → List Value → Type 0
Numbered r n [] = Unit
Numbered r n (e ∷ es) = IsNumbered r (n + 1) e × Numbered r (n + 1) es

Numbered-concat :
    (r : String) (n : ℕ) (es : List Value) (e : Value)
    → Numbered r n es
    → IsNumbered r (n + length es + 1) e
    → Numbered r n (es ++ e ∷ [])
Numbered-concat r n [] e h k = (subst (λ m. IsNumbered r m e) (omega arith) k, tt)
Numbered-concat r n (d ∷ es) e (p, h) k =
    (p, Numbered-concat r (n + 1) es e h (subst (λ m. IsNumbered r m e) (omega arith) k))

pub record IsValid (s : Store) : Type 0 where
  pub counted : length s.events ≡ s.sequence
  pub bounded : s.sequence ≤ 1000
  pub numbered : Numbered s.run_id 0 s.events
  pub stored : s.run_file ≡ obj s.run

serialize_record-eq :
    (v : Value) (label : String) (w : Value) → serialize_record v label ≡ ok w → w ≡ v
unfolding serialize_record clone_json
serialize_record-eq v label w h = ground arith

pub event_fields-IsNumbered :
    (fs : Fields) (r : String) (n : ℕ) (now type : String)
    → IsNumbered r n (obj (spread fs (event_fields r n now type)))
event_fields-IsNumbered fs r n now type = record {
  version = simp find_field-set_field;
  sequence = simp find_field-set_field;
  run_id = simp find_field-set_field;
}

pub prepare_event-eq :
    (s : Store) (io : Io) (type : String) (details e : Value)
    → prepare_event s io type details ≡ ok e
    → (now : String) × (timestamp io.now ≡ ok now)
      × (s.sequence < 999)
      × (matches_event_type type ≡ true)
      × (e ≡ obj (spread (fields_of details) (event_fields s.run_id (s.sequence + 1) now type)))
unfolding prepare_event serialize_record clone_json
prepare_event-eq s io type details e h =
    (from_ok "" (timestamp io.now), ground arith, ground arith, ground arith, ground arith)

prepare_event-IsNumbered :
    (s : Store) (io : Io) (type : String) (details e : Value)
    → prepare_event s io type details ≡ ok e
    → IsNumbered s.run_id (s.sequence + 1) e × (s.sequence < 999)
prepare_event-IsNumbered s io type details e h =
    let (now, _, room, _, same) = prepare_event-eq s io type details e h in
    (rw same (event_fields-IsNumbered (fields_of details) s.run_id (s.sequence + 1) now type), room)

-- one more numbered event
abbrev add_event : Store → Value → Store
add_event s e = record s { events = s.events ++ e ∷ []; sequence = s.sequence + 1 }

add_event-IsValid :
    (s : Store) (e : Value)
    → IsValid s
    → IsNumbered s.run_id (s.sequence + 1) e
    → s.sequence < 1000
    → IsValid (add_event s e)
add_event-IsValid s e v n room = record {
  counted = omega (arith, v.counted, length-append s.events (e ∷ []));
  bounded = omega (arith, room);
  numbered =
      Numbered-concat s.run_id 0 s.events e v.numbered
        (subst (λ m. IsNumbered s.run_id m e) (omega (arith, v.counted)) n);
  stored = v.stored;
}

-- what a failed append leaves touches nothing else
left_over-IsValid :
    (s : Store) (io : Io) (e : Value)
    → IsValid s
    → IsValid (left_over s io "events.jsonl" s.sequence e)
left_over-IsValid s io e v = record {
  counted = v.counted;
  bounded = v.bounded;
  numbered = v.numbered;
  stored = v.stored;
}

pub append_event-IsValid :
    (s : Store) (io : Io) (type : String) (details : Value)
    → IsValid s
    → IsValid (append_event s io type details).0
unfolding append_event
append_event-IsValid s io type details v = elim (Result-cases (prepare_event s io type details)) [
  | inr (m, e) ↦ rw (e, append_event) v
  | inl (written, e) ↦
      let (n, room) = prepare_event-IsNumbered s io type details written e in
      rw (e, append_event)
        (elim (Bool-cases io.appends) [
          | inl done ↦ rw done (add_event-IsValid s written v n (omega (arith, room)))
          | inr failed ↦ rw failed (left_over-IsValid s io written v)
        ])
]

pub write_attempt_plan-IsValid :
    (s : Store) (io : Io) (attempt value : Value)
    → IsValid s
    → IsValid (write_attempt_plan s io attempt value).0
unfolding write_attempt_plan
write_attempt_plan-IsValid s io attempt value v = ground arith

pub write_work_result-IsValid :
    (s : Store) (io : Io) (attempt value : Value)
    → IsValid s
    → IsValid (write_work_result s io attempt value).0
unfolding write_work_result
write_work_result-IsValid s io attempt value v = ground arith

pub write_gate_receipt-IsValid :
    (s : Store) (io : Io) (attempt value : Value)
    → IsValid s
    → IsValid (write_gate_receipt s io attempt value).0
unfolding write_gate_receipt
write_gate_receipt-IsValid s io attempt value v = ground arith

pub enqueue_inbox-IsValid :
    (s : Store) (io : Io) (attempt : Value) (owner : String) (value : Value)
    → IsValid s
    → IsValid (enqueue_inbox s io attempt owner value).0
unfolding enqueue_inbox
enqueue_inbox-IsValid s io attempt owner value v = ground arith

pub terminal_event-IsNumbered :
    (s : Store) (fs : Fields) (status now : String)
    → IsNumbered s.run_id (s.sequence + 1) (obj (terminal_event s fs status now))
terminal_event-IsNumbered s fs status now = record {
  version = simp find_field-set_field;
  sequence = simp find_field-set_field;
  run_id = simp find_field-set_field;
}

pub prepare_finish-eq :
    (s : Store) (io : Io) (status : String) (details : Value) (w : Value × Value)
    → prepare_finish s io status details ≡ ok w
    → (now : String) × (timestamp io.now ≡ ok now)
      × (s.sequence < 1000)
      × (s.finished ≡ false)
      × (mem_text status terminal_statuses ≡ true)
      × (w.0 ≡ obj (terminal_run s (fields_of details) status now))
      × (w.1 ≡ obj (terminal_event s (fields_of details) status now))
unfolding prepare_finish serialize_record serialize_pretty clone_json
prepare_finish-eq s io status details w h = (
  from_ok "" (timestamp io.now),
  ground arith,
  ground arith,
  ground arith,
  ground arith,
  ground arith,
  ground arith,
)

pub finish-IsValid :
    (s : Store) (io : Io) (status : String) (details : Value)
    → IsValid s
    → IsValid (finish s io status details).0
unfolding finish
finish-IsValid s io status details v = elim (Result-cases (prepare_finish s io status details)) [
  | inr (m, e) ↦ rw (e, finish) v
  | inl (w, e) ↦
      let (now, _, room, _, _, record_eq, event_eq) = prepare_finish-eq s io status details w e in
      let n = terminal_event-IsNumbered s (fields_of details) status now in
      let grown = add_event-IsValid s w.1 v (rw event_eq n) room in
      rw (e, finish) (ground (arith, ap fields_of record_eq))
]
