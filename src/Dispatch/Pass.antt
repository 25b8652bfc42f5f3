-- ===== src/Dispatch/Pass.antt =====
-- `_read_queues`, `run_pass`, `DispatcherStatus` and `check_stopped` of
-- packages/core/docflow_core/dispatch.py. The functions of the database and the queue of the worker are
-- called, and their answers during one pass are a `PassCalls`.
use doc_flow.Prelude.{
  ℕ, ◌+◌, ◌-◌, ◌*◌, String, Bool, true, false, not, ◌&&◌, ◌||◌, Option, none, some, List, [], ◌∷◌,
  ◌++◌, map, max, ltb, leb, ◌==◌, if◌then◌else◌,
}
use text.Mathlib.Text.{◌==◌ as str_eq}
use doc_flow.Prelude.Sort.{sort}
use doc_flow.Dispatch.Choose.{Ready, TenantQueue, choose}

abbrev pub tenant_in_flight_cap : ℕ
tenant_in_flight_cap = 2

-- A row of `dispatch_candidates`: a tenant that has something in flight or ready, with one of its
-- ready documents (`document_id`, `lane` and `arrived_at`) or none.
pub record Candidate : Type 0 where
  pub tenant_id : ℕ
  pub in_flight : ℕ
  pub last_dispatched_at : Option ℕ
  pub document : Option (ℕ × (String × ℕ))

abbrev pub Queues : Type 0
Queues = List (ℕ × TenantQueue)

-- `if row["document_id"] is not None: queue.ready.append(...)`
abbrev pub append_ready : ℕ → Option (ℕ × (String × ℕ)) → List Ready → List Ready
append_ready tenant_id none ready = ready
append_ready tenant_id (some (document_id, (lane, arrived_at))) ready =
    ready
    ++ record {
      tenant_id = tenant_id;
      document_id = document_id;
      lane = lane;
      arrived_at = arrived_at;
    }
      ∷ []

-- the queue of a tenant, after one row of it
abbrev pub with_row : Candidate → List Ready → TenantQueue
with_row row ready = record {
  in_flight = row.in_flight;
  ready = append_ready row.tenant_id row.document ready;
  last_dispatched_at = row.last_dispatched_at;
}

-- `tenants.setdefault(tenant_id, TenantQueue())` and its updates
unfoldable pub file_row : Candidate → Queues → Queues
file_row row [] = (row.tenant_id, with_row row []) ∷ []
file_row row ((tenant, queue) ∷ tenants) =
    let rest = file_row row tenants in
    if tenant == row.tenant_id
    then (tenant, with_row row queue.ready) ∷ tenants
    else (tenant, queue) ∷ rest

unfoldable pub file_rows : List Candidate → Queues → Queues
file_rows [] tenants = tenants
file_rows (row ∷ rows) tenants = file_rows rows (file_row row tenants)

-- `order.get(r.lane, 1)`
abbrev pub lane_order : String → ℕ
lane_order lane = if str_eq lane "interactive" then 0 else 1

-- `(order.get(r.lane, 1), r.arrived_at, str(r.document_id))` of the first is not above the second's
abbrev pub ready_leb : Ready → Ready → Bool
ready_leb r s =
    if ltb (lane_order r.lane) (lane_order s.lane)
    then true
    else (if lane_order r.lane == lane_order s.lane
        then (if ltb r.arrived_at s.arrived_at
            then true
            else (if r.arrived_at == s.arrived_at then leb r.document_id s.document_id else false))
        else false)

abbrev pub sorted_queue : ℕ × TenantQueue → ℕ × TenantQueue
sorted_queue (tenant, queue) = (tenant, record queue { ready = sort ready_leb queue.ready })

unfoldable pub read_queues : List Candidate → Queues
read_queues rows = map sorted_queue (file_rows rows [])

-- What the calls of one pass answer. `mark` and `send` are of a document, and `clears` says whether
-- the transaction that clears a mark goes through.
pub record PassCalls : Type 0 where
  pub takes_lock : Bool
  pub provider_down : Bool
  pub takes_probe : Bool
  pub probe_candidate : Option (ℕ × ℕ)
  pub candidates : ℕ → List Candidate
  pub mark : ℕ → Bool
  pub send : ℕ → ℕ → Bool
  pub clears : ℕ → Bool

pub record PassResult : Type 0 where
  pub ran : Bool
  pub holding : Bool
  pub probe : Bool
  pub sent : List (ℕ × ℕ)
  pub send_failed : List ℕ

abbrev pub no_pass : PassResult
no_pass = record { ran = false; holding = false; probe = false; sent = []; send_failed = [] }

-- `sum(q.in_flight for q in tenants.values())`
abbrev pub total_in_flight : Queues → ℕ
total_in_flight [] = 0
total_in_flight ((tenant, queue) ∷ tenants) = queue.in_flight + total_in_flight tenants

-- the loop that marks: those that the compare-and-set took
unfoldable pub mark_each : PassCalls → List Ready → List Ready
mark_each calls [] = []
mark_each calls (item ∷ items) =
    let rest = mark_each calls items in if calls.mark item.document_id then item ∷ rest else rest

-- The loop that sends. Beside the result it gives the marks that were cleared.
unfoldable pub send_each : PassCalls → List Ready → List (ℕ × ℕ) × (List ℕ × List ℕ)
send_each calls [] = ([], ([], []))
send_each calls (item ∷ items) =
    let (sent, (send_failed, cleared)) = send_each calls items in
    if calls.send item.tenant_id item.document_id
    then ((item.tenant_id, item.document_id) ∷ sent, (send_failed, cleared))
    else (
      sent,
      (
        item.document_id ∷ send_failed,
        if calls.clears item.document_id then item.document_id ∷ cleared else cleared,
      ),
    )

-- the one document that is tried while the provider is down
abbrev pub probe_of : Option (ℕ × ℕ) → List Ready
probe_of none = []
probe_of (some (tenant, document)) =
    record { tenant_id = tenant; document_id = document; lane = "interactive"; arrived_at = 0 } ∷ []

abbrev pub probes : PassCalls → List Ready
probes calls = if calls.takes_probe then probe_of calls.probe_candidate else []

abbrev pub is_filled : List Ready → Bool
is_filled [] = false
is_filled (r ∷ rs) = true

unfoldable pub to_send : PassCalls → ℕ → ℕ → List Ready
to_send calls target cap =
    let tenants = read_queues (calls.candidates (max target 1)) in
    if calls.provider_down
    then probes calls
    else choose tenants (target - total_in_flight tenants) cap

-- A pass: its result, the documents that it marked and the marks that it cleared again.
abbrev pub pass_result :
    PassCalls → List Ready → List (ℕ × ℕ) × (List ℕ × List ℕ) → PassResult × (List Ready × List ℕ)
pass_result calls marked (sent, (send_failed, cleared)) = (
  record {
    ran = true;
    holding = calls.provider_down;
    probe = calls.provider_down && is_filled (probes calls);
    sent = sent;
    send_failed = send_failed;
  },
  (marked, cleared),
)

unfoldable pub run_pass : PassCalls → ℕ → ℕ → PassResult × (List Ready × List ℕ)
run_pass calls target cap =
    let marked = mark_each calls (to_send calls target cap) in
    if calls.takes_lock
    then pass_result calls marked (send_each calls marked)
    else (no_pass, ([], []))

pub record DispatcherStatus : Type 0 where
  pub age_seconds : Option ℕ
  pub waiting : ℕ

abbrev pub dispatcher_stale_min : ℕ
dispatcher_stale_min = 10

abbrev pub stale_age : Option ℕ → Bool
stale_age none = true
stale_age (some age) = ltb (dispatcher_stale_min * 60) age

unfoldable pub stale : DispatcherStatus → Bool
stale s = stale_age s.age_seconds

-- The answer, and whether the alert was asked for. `raises` is what `raise_alert` answers; where a
-- call fails, `false` is answered.
unfoldable pub check_stopped : Option DispatcherStatus → Option Bool → Bool × Bool
check_stopped none raises = (false, false)
check_stopped (some current) raises =
    if current.waiting == 0 || not (stale current)
    then (false, false)
    else (elim raises [ none ↦ false | some b ↦ b ], true)
