-- ===== src/Dispatch/Tests.antt =====
-- Runs of `choose` (packages/core/docflow_core/dispatch.py), and its theorems at such runs.
use doc_flow.Prelude.{
  ℕ, ◌+◌, ◌≤◌, ◌<◌, ◌≡◌, ◌≢◌, refl, String, true, false, not, Option, some, none, List, [], ◌∷◌,
  arith, length, map, filter, max, All, ◌==◌,
}
use doc_flow.Prelude.Sort.{sort, Ordered}
use doc_flow.Dispatch.Choose.{Ready, TenantQueue, winner, first_min, goes_before, serve, choose}
use doc_flow.Dispatch.Pass.{
  Candidate, PassCalls, read_queues, file_rows, file_row, to_send, mark_each, send_each,
  total_in_flight, run_pass,
}
use doc_flow.Dispatch.Reading.{how_many, documents_of, last_in_flight, read_queues-reads}
use doc_flow.Dispatch.Order.{GoesBefore, is_interactive}
use doc_flow.Dispatch.Sends.{queues_read, marked_by, run_pass-target, IsSettled, run_pass-sends}
use doc_flow.Dispatch.Cap.{choose-cap}
use doc_flow.Dispatch.Slots.{chosen_of}
use doc_flow.Dispatch.Promise.{HasKeys, ready_of, in_flight_of, choose_fair}

abbrev doc : ℕ → ℕ → ℕ → Ready
doc tenant document arrived = record {
  tenant_id = tenant;
  document_id = document;
  lane = "bulk";
  arrived_at = arrived;
}

-- A backfill of four documents, and a newcomer with one.
abbrev queues : List (ℕ × TenantQueue)
queues =
    (
      5,
      record {
        in_flight = 0;
        ready = doc 5 51 1 ∷ doc 5 52 2 ∷ doc 5 53 3 ∷ doc 5 54 4 ∷ [];
        last_dispatched_at = some 100;
      },
    )
    ∷ (6, record { in_flight = 0; ready = doc 6 61 9 ∷ []; last_dispatched_at = none })
    ∷ (8, record { in_flight = 1; ready = []; last_dispatched_at = some 50 })
    ∷ []

abbrev ids : List Ready → List ℕ
ids rs = map (λ r. r.document_id) rs

-- The newcomer was never served, so it goes first.
newcomer_first : ids (choose queues 3 2) ≡ 61 ∷ 51 ∷ 52 ∷ []
unfolding choose winner first_min goes_before serve
newcomer_first = refl

queues-HasKeys : HasKeys queues
queues-HasKeys = omega arith

served_newcomer : chosen_of 6 (choose queues 3 2) ≢ []
unfolding choose winner first_min goes_before serve
served_newcomer e = cc

backfill_waits : length (chosen_of 5 (choose queues 3 2)) < length (ready_of 5 queues)
unfolding choose winner first_min goes_before serve
backfill_waits = omega arith

choose_fair_example :
    in_flight_of 6 queues + length (chosen_of 6 (choose queues 3 2))
    ≤ in_flight_of 5 queues + length (chosen_of 5 (choose queues 3 2)) + 1
choose_fair_example = choose_fair queues 3 2 6 5 queues-HasKeys served_newcomer backfill_waits

choose-cap_example : choose queues 3 2 ≡ choose queues 3 9
choose-cap_example = choose-cap queues 3 2 9

-- one document in flight; two tenants wait, and the send of 61 fails
abbrev candidate : ℕ → ℕ → Option (ℕ × (String × ℕ)) → Candidate
candidate tenant in_flight document = record {
  tenant_id = tenant;
  in_flight = in_flight;
  last_dispatched_at = none;
  document = document;
}

abbrev rows : List Candidate
rows =
    candidate 5 1 (some (52, ("bulk", 2)))
    ∷ candidate 6 0 (some (61, ("interactive", 9)))
    ∷ candidate 5 1 (some (51, ("interactive", 7)))
    ∷ []

abbrev calls : PassCalls
calls = record {
  takes_lock = true;
  provider_down = false;
  takes_probe = false;
  probe_candidate = none;
  candidates = λ n. rows;
  mark = λ i. true;
  send = λ tenant i. not (i == 61);
  clears = λ i. true;
}

interactive_first : map (λ e. ids e.1.ready) (read_queues rows) ≡ (51 ∷ 52 ∷ []) ∷ (61 ∷ []) ∷ []
unfolding read_queues file_rows file_row sort
interactive_first = refl

two_go : (run_pass calls 3 2).0.sent ≡ (5, 51) ∷ []
unfolding run_pass to_send mark_each send_each read_queues file_rows file_row sort choose winner
    first_min goes_before serve
two_go = refl

read_queues-reads_example :
    HasKeys (read_queues rows)
    × All (λ e. Ordered GoesBefore e.1.ready) (read_queues rows)
    × (how_many is_interactive (ready_of 5 (read_queues rows))
        ≡ how_many is_interactive (documents_of 5 rows))
    × (in_flight_of 5 (read_queues rows) ≡ last_in_flight 5 0 rows)
read_queues-reads_example = read_queues-reads rows 5 is_interactive

run_pass-target_example :
    total_in_flight (queues_read calls 3) + length (marked_by calls 3 2)
    ≤ max 3 (total_in_flight (queues_read calls 3))
run_pass-target_example = run_pass-target calls 3 2 refl

run_pass-sends_example :
    let (result, (marked, cleared)) = run_pass calls 3 2 in
    (marked ≡ filter (λ r. calls.mark r.document_id) (to_send calls 3 2))
    × IsSettled calls marked (result.sent, (result.send_failed, cleared))
run_pass-sends_example = run_pass-sends calls 3 2
