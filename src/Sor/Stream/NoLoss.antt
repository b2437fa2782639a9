-- ===== src/Sor/Stream/NoLoss.antt =====
-- lambda_handlers.py: what `consume_sqs_batch` reports as failed, and what it has stored.
use mathlib.Core.Path.{subst}
use fde_agent_platform.Prelude.{
  String, true, false, Option, none, some, List, [], ◌∷◌, ◌++◌, ◌≡◌, refl, sym, ◌∙◌, ap, ◌⊎◌, inl,
  inr, Bool-cases, Option-cases,
}
use mathlib.Core.List.{append-nil}
use fde_agent_platform.Python.Text.{is_empty}
use fde_agent_platform.Python.Value.{Fields}
use fde_agent_platform.Sor.Errors.{ok, Result-cases}
use fde_agent_platform.Sor.Stdlib.{Stdlib}
use fde_agent_platform.Sor.Mapping.Spec.{MappingSpec, parse}
use fde_agent_platform.Sor.Mapping.Normalize.{Hasher, NormalizedObservation, normalize}
use fde_agent_platform.Sor.Mapping.Normalize.Raises.{
  IsOneOf, IsOneOf-append_left, IsOneOf-append_right,
}
use fde_agent_platform.Sor.State.{AdapterRow, RawRecord, Fetch, StoredObservation, State}
use fde_agent_platform.Sor.Hashing.{SaltCache, resolve_actor_hasher}
use fde_agent_platform.Sor.Ingest.{Job, Run, Outcome, going, raised, pump}
use fde_agent_platform.Sor.Ingest.Entry.{World, job_of, returned}
use fde_agent_platform.Sor.Ingest.Table.{has_key, insert_rows}
use fde_agent_platform.Sor.Ingest.Table.Keys.{AllKnown, insert_rows-AllKnown}
use fde_agent_platform.Sor.Ingest.Follows.{observed, kept, run_of}
use fde_agent_platform.Sor.Ingest.Committed.{pump-Committed}
use fde_agent_platform.Sor.Ingest.Whole.{ingest-pump}
use fde_agent_platform.Sor.Stream.{
  sort_message, decode_sqs_record, decode_sqs_records, message_id, identified, all_ids,
  static_records, ingest_defaults, batch_reply, consume_sqs_batch_with,
}
use fde_agent_platform.Sor.Stream.Failures.{failures, ref_if_failed, failed_refs-eq-failures}

-- The message is one of the batch.
abbrev pub Among : Fields → List Fields → Type 0
Among r [] = ⊥
Among r (x ∷ xs) = (r ≡ x) ⊎ Among r xs

-- Some record has that payload and that message's id.
abbrev Carries : Fields → String → List RawRecord → Type 0
Carries payload id [] = ⊥
Carries payload id (x ∷ xs) = ((x.payload ≡ payload) × (x.ref ≡ some id)) ⊎ Carries payload id xs

IsOneOf-identified :
    (id : String) (ids : List String)
    → is_empty id ≡ false
    → IsOneOf id ids
    → IsOneOf id (identified ids)
IsOneOf-identified id [] there h = h
IsOneOf-identified id (x ∷ ids) there (inl e) = rw (← e) (simp there (inl refl))
IsOneOf-identified id (x ∷ ids) there (inr h) = elim (Bool-cases (is_empty x)) [
  | inl blank ↦ simp blank (IsOneOf-identified id ids there h)
  | inr full ↦ simp full (inr (IsOneOf-identified id ids there h))
]

IsOneOf-all_ids :
    (py : Stdlib) (r : Fields) (rs : List Fields)
    → Among r rs
    → IsOneOf (message_id py r) (all_ids py rs)
IsOneOf-all_ids py r [] h = h
IsOneOf-all_ids py r (x ∷ rs) (inl e) = inl (ap (message_id py) e)
IsOneOf-all_ids py r (x ∷ rs) (inr h) = inr (IsOneOf-all_ids py r rs h)

-- A message that decodes is among the records, and one that does not among the failures.
abbrev Sorted : String → Option Fields → List RawRecord × List String → Type 0
Sorted id none out = IsOneOf id out.1
Sorted id (some payload) out = Carries payload id out.0

Sorted-sort_message_self :
    (id : String) (d : Option Fields) (out : List RawRecord × List String)
    → Sorted id d (sort_message id d out)
Sorted-sort_message_self id none out = inl refl
Sorted-sort_message_self id (some payload) out = inl (refl, refl)

Sorted-sort_message :
    (id other : String) (d e : Option Fields) (out : List RawRecord × List String)
    → Sorted id d out
    → Sorted id d (sort_message other e out)
Sorted-sort_message id other none none out h = inr h
Sorted-sort_message id other none (some p) out h = h
Sorted-sort_message id other (some q) none out h = h
Sorted-sort_message id other (some q) (some p) out h = inr h

decode_sqs_records-Sorted :
    (py : Stdlib) (config : Fields) (r : Fields) (rs : List Fields)
    → Among r rs
    → Sorted (message_id py r) (decode_sqs_record py config r) (decode_sqs_records py config rs)
unfolding decode_sqs_records
decode_sqs_records-Sorted py config r [] h = absurd h
decode_sqs_records-Sorted py config r (x ∷ rs) (inl e) = rw e (
    Sorted-sort_message_self (message_id py x) (decode_sqs_record py config x)
      (decode_sqs_records py config rs))
decode_sqs_records-Sorted py config r (x ∷ rs) (inr h) =
    Sorted-sort_message (message_id py r) (message_id py x) (decode_sqs_record py config r)
      (decode_sqs_record py config x) (decode_sqs_records py config rs)
      (decode_sqs_records-Sorted py config r rs h)

module _ (j : Job) where
  -- The payload's observation is in the table.
  abbrev pub IsStored : List StoredObservation → Fields → Type 0
  IsStored t payload =
      (o : NormalizedObservation) × (normalize j.py j.spec payload j.hasher ≡ ok o)
      × (has_key j.adapter_id o.dedup_key t ≡ true)

  AllKnown-append :
      (t : List StoredObservation) (xs ys : List NormalizedObservation)
      → AllKnown j.engagement_id j.adapter_id t (xs ++ ys)
      → AllKnown j.engagement_id j.adapter_id t ys
  AllKnown-append t [] ys h = h
  AllKnown-append t (x ∷ xs) ys h = AllKnown-append t xs ys h.1

  carried :
      (t : List StoredObservation) (payload : Fields) (id : String) (rs : List RawRecord)
      → AllKnown j.engagement_id j.adapter_id t (observed j rs)
      → Carries payload id rs
      → IsOneOf id (failures j rs) ⊎ IsStored t payload
  carried t payload id [] known h = absurd h
  carried t payload id (x ∷ rs) known (inl (e, f)) =
      elim (Result-cases (normalize j.py j.spec x.payload j.hasher)) [
        | inl (o, n) ↦ inr (
          o,
          ap (λ p. normalize j.py j.spec p j.hasher) (sym e) ∙ n,
          (subst (λ res. AllKnown j.engagement_id j.adapter_id t (kept res ++ observed j rs)) n
              known).0,
        )
        | inr (e', n) ↦ inl (rw (n, f) (inl refl))
      ]
  carried t payload id (x ∷ rs) known (inr h) =
      elim (carried t payload id rs
        (AllKnown-append t (kept (normalize j.py j.spec x.payload j.hasher)) (observed j rs) known)
        h) [
          | inl failed ↦ inl (
              IsOneOf-append_right id
                (ref_if_failed (normalize j.py j.spec x.payload j.hasher) x.ref) (failures j rs)
                failed)
          | inr there ↦ inr there
        ]

  -- The table after a run that no exception ended holds every observation.
  going-AllKnown :
      (source : Fetch) (c : Option String) (state : State) (s : Run)
      → j.dry_run ≡ false
      → pump j source c state ≡ going s
      → AllKnown j.engagement_id j.adapter_id s.state.observations (observed j source.records)
  going-AllKnown source c state s wet e =
      let done = pump-Committed j source c state wet in
      let all_done : observed j source.records ≡ done.done =
        done.parts ∙ ap (λ l. done.done ++ l) (done.complete s e) ∙ append-nil done.done in
      let table : s.state.observations
          ≡ insert_rows j.engagement_id j.adapter_id state.observations done.done =
        ap (λ o. (run_of o).state.observations) (sym e) ∙ done.table in
      rw table (
        rw all_done
          (insert_rows-AllKnown j.engagement_id j.adapter_id state.observations done.done))

module _ (w : World) (row : AdapterRow) (spec : MappingSpec) (hasher : Option Hasher)
    (sqs_records : List Fields) (r : Fields) where
  abbrev the_job : Job
  the_job =
      job_of w (static_records (decode_sqs_records w.py spec.stream sqs_records).0) row
        ingest_defaults spec hasher

  -- What the batch's reply and table say of the message.
  abbrev pub Accounted : List String × State → Type 0
  Accounted (reply, after) =
      IsOneOf (message_id w.py r) reply
      ⊎ ((payload : Fields) × (decode_sqs_record w.py spec.stream r ≡ some payload)
          × IsStored the_job after.observations payload)

  accounted :
      (state : State) (c : Option String) (out : Outcome)
      → Among r sqs_records
      → is_empty (message_id w.py r) ≡ false
      → pump the_job
          (record { records = (decode_sqs_records w.py spec.stream sqs_records).0; fails = false })
          c
          state
        ≡ out
      → Accounted (
          batch_reply w.py sqs_records
            (decode_sqs_records w.py spec.stream sqs_records).1
            (returned row ingest_defaults out))
  accounted state c (raised e s) among there h = inl (
      IsOneOf-identified (message_id w.py r) (all_ids w.py sqs_records) there
        (IsOneOf-all_ids w.py r sqs_records among))
  accounted state c (going s) among there h =
      let id = message_id w.py r in
      let decoded = decode_sqs_records w.py spec.stream sqs_records in
      let sorted = decode_sqs_records-Sorted w.py spec.stream r sqs_records among in
      let source : Fetch = record { records = decoded.0; fails = false } in
      let known = going-AllKnown the_job source c state s (unfold job_of in refl) h in
      elim (Option-cases (decode_sqs_record w.py spec.stream r)) [
        | inl bad ↦ inl (
            IsOneOf-identified id (decoded.1 ++ s.acc.failed_refs) there (
              IsOneOf-append_left id decoded.1 s.acc.failed_refs
                (subst (λ d. Sorted id d decoded) bad sorted)))
        | inr (payload, good) ↦
            elim (carried the_job s.state.observations payload id decoded.0 known
              (subst (λ d. Sorted id d decoded) good sorted)) [
                | inl failed ↦ inl (
                    IsOneOf-identified id (decoded.1 ++ s.acc.failed_refs) there (
                      IsOneOf-append_right id decoded.1 s.acc.failed_refs (
                        subst (IsOneOf id)
                          (sym (failed_refs-eq-failures the_job source c state s h)) failed)))
                | inr there' ↦ inr (payload, good, there')
              ]
      ]

-- Each message of an SQS batch that has an id is reported as failed, or it decodes and normalises and the
-- table holds a row with the dedup key of its observation, for the adapter, when the call
-- returns: also where `ingest` raises half-way. The row may be that of another observation with the
-- same key.
pub consume_sqs_batch_no_loss :
    (w : World) (row : AdapterRow) (spec : MappingSpec) (hasher : Option Hasher) (cache : SaltCache)
    (sqs_records : List Fields) (r : Fields) (state : State)
    → parse row.mapping ≡ ok spec
    → resolve_actor_hasher w.py w.settings w.secrets spec row.engagement_id state.salt_cache
      ≡ (ok hasher, cache)
    → Among r sqs_records
    → is_empty (message_id w.py r) ≡ false
    → Accounted w row spec hasher sqs_records r
        (consume_sqs_batch_with w row spec sqs_records state)
unfolding consume_sqs_batch_with
consume_sqs_batch_no_loss w row spec hasher cache sqs_records r state parsed resolved among there =
    let decoded = decode_sqs_records w.py spec.stream sqs_records in
    let source : Fetch = record { records = decoded.0; fails = false } in
    let state' : State = record state { salt_cache = cache } in
    rw
      (ingest-pump w (static_records decoded.0) row ingest_defaults state spec hasher cache parsed
        resolved)
      (accounted w row spec hasher sqs_records r state' row.last_cursor
        (pump (the_job w row spec hasher sqs_records r) source row.last_cursor state') among there
        refl)
