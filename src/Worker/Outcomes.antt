-- ===== src/Worker/Outcomes.antt =====
-- backend/ingestion/worker_flow.py and tasks.py: runs that fail, and the deliveries of a task.
use keel_be.Prelude.{
  ℕ, zero, suc, String, ◌≡◌, ◌≢◌, ◌∙◌, refl, ◌≤◌, ◌+◌, ◌<◌, ◌⊎◌, inl, inr, ltb, Bool-cases, true,
  false, List, arith, eq_iff,
}
use keel_be.Models.Enums.{IngestionStatus}
use keel_be.Core.Errors.{Exc, parse_error, stale_data}
use keel_be.Core.Session.{Result, ok, err, Run}
use keel_be.Worker.{
  Work, Services, State, VectorPoint, start_state, run_loaded, pipeline, handled, handle,
  dead_letter, dead_letter_rows, commit, permanent, transient, Retry, planned, max_retries_exceeded,
  reraised, Ended, finished, rescheduled, raised, ingest_document, ended, after_transient, deliver,
  is_type, text_of,
}

module _ (sv : Services) (w : Work) (index : List (VectorPoint sv.Vector)) where
  abbrev pub failed_at : State sv.Vector
  failed_at = (pipeline sv (start_state w index)).1

  -- A document that cannot be parsed is given up at once: its run raises `PermanentIngestionError`, the
  -- document and its job are committed as failed, with one more dead letter, which names the document,
  -- its workspace and the step. (The rows are still there when this is committed.)
  pub parse_error_dead_letters :
      {m : String}
      → (pipeline sv (start_state w index)).0 ≡ err (parse_error m)
      → sv.present failed_at.commits ≡ true
      → let (r, st) = run_loaded sv (start_state w index) in
        (r ≡ err (permanent m))
        × (st.session.committed
            ≡ dead_letter_rows failed_at.current (parse_error m) failed_at.session.working)
        × (st.session.committed.doc.ingestion_status ≡ IngestionStatus.failed)
        × (st.session.committed.job.status ≡ IngestionStatus.failed)
  unfolding run_loaded handled handle dead_letter commit dead_letter_rows
  parse_error_dead_letters e here = ground arith

  -- A run whose rows another session has deleted ends without an error, and nothing of it that was not
  -- committed before remains.
  pub stale_ends :
      (pipeline sv (start_state w index)).0 ≡ err stale_data
      → let (r, st) = run_loaded sv (start_state w index) in
        (r ≡ ok tt)
        × (st.session.committed ≡ failed_at.session.committed)
        × (st.session.working ≡ failed_at.session.committed)
  unfolding run_loaded handled handle
  stale_ends e = ground arith

-- The number of retries after which the library stops to plan another one.
abbrev pub max_retries : ℕ
max_retries = 3

-- What the library documents of `retry`: it plans another delivery up to `max_retries` retries, and
-- then it raises `MaxRetriesExceededError` or the exception that it was given.
abbrev pub PlansRetries : (ℕ → Retry) → Type 0
PlansRetries retry =
    ((n : ℕ) → n < max_retries → retry n ≡ planned)
    × ((n : ℕ) → max_retries ≤ n → (retry n ≡ max_retries_exceeded) ⊎ (retry n ≡ reraised))

-- How the deliveries of a task go from the n-th retry on, and what they leave.
pub data Delivered {S : Type 0} (retry : ℕ → Retry) (attempt : ℕ → Run S Unit)
    (give_up : String → S → S) : ℕ → S → Ended → S → Type 0 where
  succeeds :
      (n : ℕ) (s s' : S)
      → attempt n s ≡ (ok tt, s')
      → Delivered retry attempt give_up n s finished s'
  cannot :
      (n : ℕ) (s s' : S) (e : Exc)
      → attempt n s ≡ (err e, s')
      → is_type "PermanentIngestionError" e ≡ true
      → Delivered retry attempt give_up n s finished s'
  breaks :
      (n : ℕ) (s s' : S) (e : Exc)
      → attempt n s ≡ (err e, s')
      → is_type "PermanentIngestionError" e ≡ false
      → is_type "TransientIngestionError" e ≡ false
      → Delivered retry attempt give_up n s (raised e) s'
  again :
      (n : ℕ) (s s' s'' : S) (e : Exc) (r : Ended)
      → attempt n s ≡ (err e, s')
      → is_type "TransientIngestionError" e ≡ true
      → n < max_retries
      → Delivered retry attempt give_up (n + 1) s' r s''
      → Delivered retry attempt give_up n s r s''
  given_up :
      (n : ℕ) (s s' : S) (e : Exc)
      → attempt n s ≡ (err e, s')
      → is_type "TransientIngestionError" e ≡ true
      → max_retries ≤ n
      → retry n ≡ max_retries_exceeded
      → Delivered retry attempt give_up n s finished (give_up (text_of e) s')
  left :
      (n : ℕ) (s s' : S) (e : Exc)
      → attempt n s ≡ (err e, s')
      → is_type "TransientIngestionError" e ≡ true
      → max_retries ≤ n
      → retry n ≡ reraised
      → Delivered retry attempt give_up n s (raised e) s'

module _ {S : Type 0} (retry : ℕ → Retry) (attempt : ℕ → Run S Unit)
    (give_up : String → S → S) where
  -- The deliveries with fuel for some of them follow the runs from the n-th retry on.
  abbrev Follows : ℕ → ℕ → S → Type 0
  Follows fuel n s =
      Delivered retry attempt give_up n s (deliver retry attempt give_up fuel n s).0
        (deliver retry attempt give_up fuel n s).1

  -- A delivery with which the task ends, and one after which another is planned.
  deliver_last :
      (fuel n : ℕ) (s s' : S) {r : Ended}
      → ingest_document retry attempt give_up n s ≡ (r, s')
      → r ≢ rescheduled
      → deliver retry attempt give_up (suc fuel) n s ≡ (r, s')
  unfolding deliver
  deliver_last fuel n s s' {r = finished} h ne = ground (arith, h)
  deliver_last fuel n s s' {r = rescheduled} h ne = absurd (ne refl)
  deliver_last fuel n s s' {r = raised e} h ne = ground (arith, h)

  deliver_next :
      (fuel n : ℕ) (s s' : S)
      → ingest_document retry attempt give_up n s ≡ (rescheduled, s')
      → deliver retry attempt give_up (suc fuel) n s ≡ deliver retry attempt give_up fuel (n + 1) s'
  unfolding deliver
  deliver_next fuel n s s' h = ground (arith, h)

  ingest_transient :
      (n : ℕ) (s s' : S) (e : Exc)
      → attempt n s ≡ (err e, s')
      → is_type "PermanentIngestionError" e ≡ false
      → is_type "TransientIngestionError" e ≡ true
      → ingest_document retry attempt give_up n s
        ≡ after_transient retry attempt give_up (retry n) e s'
  unfolding ingest_document ended
  ingest_transient n s s' e h p t = rw (h, p, t) refl

  last-Follows :
      (fuel n : ℕ) (s s' : S) {r : Ended}
      → ingest_document retry attempt give_up n s ≡ (r, s')
      → r ≢ rescheduled
      → Delivered retry attempt give_up n s r s'
      → Follows (suc fuel) n s
  last-Follows fuel n s s' h ne d = rw (deliver_last fuel n s s' h ne) d

  module _ (plans : PlansRetries retry) (fuel n : ℕ) (s : S)
      (more : (s' : S) → n < max_retries → Follows fuel (n + 1) s') where
    -- A run that fails for now.
    transient-Follows :
        (e : Exc) (s' : S)
        → attempt n s ≡ (err e, s')
        → is_type "PermanentIngestionError" e ≡ false
        → is_type "TransientIngestionError" e ≡ true
        → Follows (suc fuel) n s
    unfolding after_transient
    transient-Follows e s' a p t = elim (Bool-cases (ltb n max_retries)) [
      | inl early ↦
          let next =
            deliver_next fuel n s s'
              (ingest_transient n s s' e a p t ∙ rw (plans.0 n (ground arith)) refl) in
          rw next (again n s s' _ e _ a t (ground arith) (more s' (ground arith)))
      | inr late ↦ elim (plans.1 n (ground arith)) [
        | inl over ↦
            last-Follows fuel n s (give_up (text_of e) s')
              (ingest_transient n s s' e a p t ∙ rw over refl) (λ q. ground arith)
              (given_up n s s' e a t (ground arith) over)
        | inr given ↦
            last-Follows fuel n s s' (ingest_transient n s s' e a p t ∙ rw given refl)
              (λ q. ground arith) (left n s s' e a t (ground arith) given)
      ]
    ]

    run-Follows : (a : Result Unit × S) → attempt n s ≡ a → Follows (suc fuel) n s
    unfolding ingest_document ended
    run-Follows (ok tt, s') a =
        last-Follows fuel n s s' (rw a refl) (λ q. ground arith) (succeeds n s s' a)
    run-Follows (err e, s') a = elim (Bool-cases (is_type "PermanentIngestionError" e)) [
      | inl p ↦ last-Follows fuel n s s' (rw (a, p) refl) (λ q. ground arith) (cannot n s s' e a p)
      | inr p ↦ elim (Bool-cases (is_type "TransientIngestionError" e)) [
        | inl t ↦ transient-Follows e s' a p t
        | inr t ↦
            last-Follows fuel n s s' (rw (a, p, t) refl) (λ q. ground arith) (breaks n s s' e a p t)
      ]
    ]

  deliver-Delivered :
      PlansRetries retry
      → (fuel n : ℕ) (s : S) → n ≤ max_retries
      → max_retries < fuel + n
      → Follows fuel n s
  deliver-Delivered plans zero n s h k = absurd (omega arith)
  deliver-Delivered plans (suc fuel) n s h k =
      run-Follows plans fuel n s
        (λ s' early. deliver-Delivered plans fuel (n + 1) s' (omega arith) (omega arith))
        (attempt n s) refl

  -- A task is delivered at most four times, and then it has ended. It finishes with the first run that
  -- returns or raises `PermanentIngestionError`, and is neither run again nor marked as given up then;
  -- a run that raises another exception ends it with that exception; after one that raises
  -- `TransientIngestionError` it runs again, on what that run left, unless it was the third retry, and
  -- then it is given up with the text of the exception or ends with the exception, whichever the
  -- library does. (The library plans three retries and no more.)
  pub deliver_lem :
      PlansRetries retry
      → (s : S)
      → Delivered retry attempt give_up 0 s
          (deliver retry attempt give_up 4 0 s).0
          (deliver retry attempt give_up 4 0 s).1
  deliver_lem plans s = deliver-Delivered plans 4 0 s (ground arith) (ground arith)

  -- The state after so many runs of the task.
  abbrev pub runs : ℕ → S → S
  runs zero s = s
  runs (suc n) s = (attempt n (runs n s)).1

  exhausted :
      (n : ℕ) (s : S) {m : String}
      → (attempt n s).0 ≡ err (transient m)
      → ingest_document retry attempt give_up n s
        ≡ after_transient retry attempt give_up (retry n) (transient m) (attempt n s).1
  unfolding ingest_document ended
  exhausted n s failed = ground (
    arith,
    eq_iff "TransientIngestionError" "PermanentIngestionError",
    eq_iff "TransientIngestionError" "TransientIngestionError",
  )

  module _ {m : String} (n : ℕ) (t : S) (failed : (attempt n t).0 ≡ err (transient m)) where
    delivered_again :
        (fuel : ℕ)
        → retry n ≡ planned
        → deliver retry attempt give_up (suc fuel) n t
          ≡ deliver retry attempt give_up fuel (n + 1) (attempt n t).1
    unfolding deliver after_transient
    delivered_again fuel p = ground (arith, exhausted n t failed)

    delivered_last :
        (fuel : ℕ)
        → retry n ≡ reraised
        → deliver retry attempt give_up (suc fuel) n t ≡ (raised (transient m), (attempt n t).1)
    unfolding deliver after_transient
    delivered_last fuel p = ground (arith, exhausted n t failed)

  -- Where the library plans three retries and answers the next by raising the exception that it was
  -- given, a task whose every run fails for now runs four times and ends with that exception: its
  -- document is never marked failed, and the state is just what the four runs left.
  pub exhausted_unmarked :
      (s : S) (m : String)
      → retry 0 ≡ planned
      → retry 1 ≡ planned
      → retry 2 ≡ planned
      → retry 3 ≡ reraised
      → ((n : ℕ) (t : S) → (attempt n t).0 ≡ err (transient m))
      → deliver retry attempt give_up 4 0 s ≡ (raised (transient m), runs 4 s)
  exhausted_unmarked s m p0 p1 p2 p3 fails =
      delivered_again 0 s (fails 0 s) 3 p0
      ∙ (delivered_again 1 (runs 1 s) (fails 1 (runs 1 s)) 2 p1
          ∙ (delivered_again 2 (runs 2 s) (fails 2 (runs 2 s)) 1 p2
              ∙ delivered_last 3 (runs 3 s) (fails 3 (runs 3 s)) 0 p3))
