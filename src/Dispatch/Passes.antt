-- ===== src/Dispatch/Passes.antt =====
-- What one pass of the dispatcher, `run_pass` of packages/core/docflow_core/dispatch.py, reads, marks and
-- sends.
use doc_flow.Prelude.{
  ℕ, String, Option, none, some, List, [], ◌∷◌, map, ◌≡◌, ◌≢◌, refl, sym, inl, inr, arith, All,
  ◌==◌, Bool-cases, subst,
}
use doc_flow.Prelude.Sort.{sort-All}
use doc_flow.Dispatch.Choose.{Ready}
use doc_flow.Dispatch.Promise.{HasKeys}
use doc_flow.Dispatch.Pass.{
  Candidate, Queues, append_ready, file_row, file_rows, ready_leb, sorted_queue, read_queues,
}

module _ (row : Candidate) where
  append_ready-All :
      (document : Option (ℕ × (String × ℕ))) (ready : List Ready)
      → All (λ r. r.tenant_id ≡ row.tenant_id) ready
      → All (λ r. r.tenant_id ≡ row.tenant_id) (append_ready row.tenant_id document ready)
  append_ready-All none ready h = h
  append_ready-All (some (i, (lane, t))) [] h = (refl, tt)
  append_ready-All (some (i, (lane, t))) (r ∷ ready) (h, hs) =
      (h, append_ready-All (some (i, (lane, t))) ready hs)

  file_row-fresh :
      (k : ℕ) (tenants : Queues)
      → row.tenant_id ≢ k
      → All (λ e. e.0 ≢ k) tenants
      → All (λ e. e.0 ≢ k) (file_row row tenants)
  unfolding file_row
  file_row-fresh k [] apart h = (apart, tt)
  file_row-fresh k ((tenant, queue) ∷ tenants) apart (h, hs) =
      elim (Bool-cases (tenant == row.tenant_id)) [
        | inl e ↦ rw e (h, hs)
        | inr e ↦ rw e (h, file_row-fresh k tenants apart hs)
      ]

  file_row-HasKeys : (tenants : Queues) → HasKeys tenants → HasKeys (file_row row tenants)
  unfolding file_row
  file_row-HasKeys [] h = (tt, append_ready-All row.document [] tt, tt)
  file_row-HasKeys ((tenant, queue) ∷ tenants) (fresh, own, h) =
      elim (Bool-cases (tenant == row.tenant_id)) [
        | inl e ↦
            let same_tenant : tenant ≡ row.tenant_id = ground arith in
            rw e (
              fresh,
              subst
                  (λ k.
                    All (λ r. r.tenant_id ≡ k)
                      (append_ready row.tenant_id row.document queue.ready))
                  (sym same_tenant)
                  (append_ready-All row.document queue.ready
                    (subst (λ k. All (λ r. r.tenant_id ≡ k) queue.ready) same_tenant own)),
              h,
            )
        | inr e ↦
            let apart : row.tenant_id ≢ tenant = ground arith in
            rw e (file_row-fresh tenant tenants apart fresh, own, file_row-HasKeys tenants h)
      ]

file_rows-HasKeys :
    (rows : List Candidate) (tenants : Queues) → HasKeys tenants → HasKeys (file_rows rows tenants)
unfolding file_rows
file_rows-HasKeys [] tenants h = h
file_rows-HasKeys (row ∷ rows) tenants h =
    file_rows-HasKeys rows (file_row row tenants) (file_row-HasKeys row tenants h)

sorted_keys :
    (k : ℕ) (tenants : Queues)
    → All (λ e. e.0 ≢ k) tenants
    → All (λ e. e.0 ≢ k) (map sorted_queue tenants)
sorted_keys k [] h = tt
sorted_keys k ((tenant, queue) ∷ tenants) (h, hs) = (h, sorted_keys k tenants hs)

sorted_queues-HasKeys : (tenants : Queues) → HasKeys tenants → HasKeys (map sorted_queue tenants)
sorted_queues-HasKeys [] h = tt
sorted_queues-HasKeys ((tenant, queue) ∷ tenants) (fresh, own, h) = (
  sorted_keys tenant tenants fresh,
  sort-All ready_leb (λ r. r.tenant_id ≡ tenant) queue.ready own,
  sorted_queues-HasKeys tenants h,
)

-- The queues that are read have every tenant once and every document under its own tenant, which is
-- what the turn-taking of `choose` asks for.
pub read_queues-HasKeys : (rows : List Candidate) → HasKeys (read_queues rows)
unfolding read_queues
read_queues-HasKeys rows = sorted_queues-HasKeys (file_rows rows []) (file_rows-HasKeys rows [] tt)
