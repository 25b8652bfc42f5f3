-- ===== src/Dispatch/Reading.antt =====
-- The queues that `_read_queues` of packages/core/docflow_core/dispatch.py makes of the rows that it gets,
-- in the words of the rule: which documents a tenant has waiting, and in what order they go.
use mathlib.Core.List.{append-nil, append_assoc}
use doc_flow.Dispatch.Passes.{read_queues-HasKeys}
use doc_flow.Prelude.{
  ℕ, suc, String, Bool, false, Option, none, some, List, [], ◌∷◌, ◌++◌, map, filter, length, ◌≡◌,
  refl, sym, ap, ◌∙◌, inl, inr, arith, All, ◌==◌, Bool-cases, if◌then◌else◌,
}
use doc_flow.Prelude.Sort.{Ordered, sort, insert}
use doc_flow.Dispatch.Choose.{Ready}
use doc_flow.Dispatch.Promise.{HasKeys, ready_of, in_flight_of}
use doc_flow.Dispatch.Pass.{
  Candidate, Queues, append_ready, file_row, file_rows, ready_leb, sorted_queue, read_queues,
}
use doc_flow.Dispatch.Order.{GoesBefore, queues-Ordered}

-- the document that a row names, as one of the row's tenant
abbrev pub named : ℕ → Option (ℕ × (String × ℕ)) → List Ready
named tenant none = []
named tenant (some (document_id, (lane, arrived_at))) =
    record { tenant_id = tenant; document_id = document_id; lane = lane; arrived_at = arrived_at }
    ∷ []

-- the documents that the rows of a tenant name, and what its last row says is in flight
abbrev pub documents_of : ℕ → List Candidate → List Ready
documents_of k [] = []
documents_of k (row ∷ rows) =
    if row.tenant_id == k
    then named row.tenant_id row.document ++ documents_of k rows
    else documents_of k rows

abbrev pub last_in_flight : ℕ → ℕ → List Candidate → ℕ
last_in_flight k n [] = n
last_in_flight k n (row ∷ rows) =
    last_in_flight k (if row.tenant_id == k then row.in_flight else n) rows

append_ready-named :
    (tenant : ℕ) (document : Option (ℕ × (String × ℕ))) (ready : List Ready)
    → append_ready tenant document ready ≡ ready ++ named tenant document
append_ready-named tenant none ready = sym (append-nil ready)
append_ready-named tenant (some (i, (lane, t))) ready = refl

append-documents_of :
    (k : ℕ) (row : Candidate) (rows : List Candidate) (ready : List Ready)
    → (ready ++ (if row.tenant_id == k then named row.tenant_id row.document else []))
        ++ documents_of k rows
      ≡ ready ++ documents_of k (row ∷ rows)
append-documents_of k row rows ready = elim (Bool-cases (row.tenant_id == k)) [
  | inl e ↦ rw e (append_assoc ready _ _)
  | inr e ↦ rw e (rw (append-nil ready))
]

module _ (k : ℕ) where
  ready_of-file_row :
      (row : Candidate) (tenants : Queues)
      → ready_of k (file_row row tenants)
        ≡ ready_of k tenants
          ++ (if row.tenant_id == k then named row.tenant_id row.document else [])
  unfolding file_row
  ready_of-file_row row [] = elim (Bool-cases (row.tenant_id == k)) [
    | inl e ↦ rw e (append_ready-named row.tenant_id row.document [])
    | inr e ↦ rw e
  ]
  ready_of-file_row row ((tenant, queue) ∷ tenants) =
      let ih = ready_of-file_row row tenants in
      elim (Bool-cases (tenant == row.tenant_id)) [
        | inl e ↦
            let same : (tenant == k) ≡ (row.tenant_id == k) = ap (λ n. n == k) (ground arith) in
            elim (Bool-cases (row.tenant_id == k)) [
              | inl e' ↦
                  rw (e, same, e') (append_ready-named row.tenant_id row.document queue.ready)
              | inr e' ↦ rw (e, same, e') (sym (append-nil (ready_of k tenants)))
            ]
        | inr e ↦ elim (Bool-cases (tenant == k)) [
          | inl e' ↦
              let apart : (row.tenant_id == k) ≡ false = ground arith in
              rw (e, e', apart) (sym (append-nil queue.ready))
          | inr e' ↦ rw (e, e') ih
        ]
      ]

  in_flight_of-file_row :
      (row : Candidate) (tenants : Queues)
      → in_flight_of k (file_row row tenants)
        ≡ (if row.tenant_id == k then row.in_flight else in_flight_of k tenants)
  unfolding file_row
  in_flight_of-file_row row [] = refl
  in_flight_of-file_row row ((tenant, queue) ∷ tenants) =
      let ih = in_flight_of-file_row row tenants in
      elim (Bool-cases (tenant == row.tenant_id)) [
        | inl e ↦
            let same : (tenant == k) ≡ (row.tenant_id == k) = ap (λ n. n == k) (ground arith) in
            elim (Bool-cases (row.tenant_id == k)) [
              | inl e' ↦ rw (e, same, e')
              | inr e' ↦ rw (e, same, e')
            ]
        | inr e ↦ elim (Bool-cases (tenant == k)) [
          | inl e' ↦ let apart : (row.tenant_id == k) ≡ false = ground arith in rw (e, e', apart)
          | inr e' ↦ rw (e, e') ih
        ]
      ]

  ready_of-file_rows :
      (rows : List Candidate) (tenants : Queues)
      → ready_of k (file_rows rows tenants) ≡ ready_of k tenants ++ documents_of k rows
  unfolding file_rows
  ready_of-file_rows [] tenants = sym (append-nil (ready_of k tenants))
  ready_of-file_rows (row ∷ rows) tenants =
      ready_of-file_rows rows (file_row row tenants)
      ∙ ap (λ l. l ++ documents_of k rows) (ready_of-file_row row tenants)
      ∙ append-documents_of k row rows (ready_of k tenants)

  in_flight_of-file_rows :
      (rows : List Candidate) (tenants : Queues)
      → in_flight_of k (file_rows rows tenants) ≡ last_in_flight k (in_flight_of k tenants) rows
  unfolding file_rows
  in_flight_of-file_rows [] tenants = refl
  in_flight_of-file_rows (row ∷ rows) tenants =
      in_flight_of-file_rows rows (file_row row tenants)
      ∙ ap (λ n. last_in_flight k n rows) (in_flight_of-file_row row tenants)

  in_flight_of-sorted :
      (tenants : Queues) → in_flight_of k (map sorted_queue tenants) ≡ in_flight_of k tenants
  in_flight_of-sorted [] = refl
  in_flight_of-sorted ((tenant, queue) ∷ tenants) =
      ap (λ n. if tenant == k then queue.in_flight else n) (in_flight_of-sorted tenants)

  ready_of-sorted :
      (tenants : Queues)
      → ready_of k (map sorted_queue tenants) ≡ sort ready_leb (ready_of k tenants)
  unfolding sort
  ready_of-sorted [] = refl
  ready_of-sorted ((tenant, queue) ∷ tenants) = elim (Bool-cases (tenant == k)) [
    | inl e ↦ rw e
    | inr e ↦ rw e (ready_of-sorted tenants)
  ]

module _ (p : Ready → Bool) where
  abbrev pub how_many : List Ready → ℕ
  how_many rs = length (filter p rs)

  how_many-insert :
      (x : Ready) (ys : List Ready) → how_many (insert ready_leb x ys) ≡ how_many (x ∷ ys)
  unfolding insert
  how_many-insert x [] = refl
  how_many-insert x (y ∷ ys) =
      let ih = how_many-insert x ys in
      elim (Bool-cases (ready_leb x y)) [
        | inl e ↦ rw e
        | inr e ↦ elim (Bool-cases (p x)) [
          | inl h ↦ elim (Bool-cases (p y)) [
            | inl k ↦ rw (e, h, k) (ap suc (rw h at ih))
            | inr k ↦ rw (e, h, k) (rw h at ih)
          ]
          | inr h ↦ elim (Bool-cases (p y)) [
            | inl k ↦ rw (e, h, k) (ap suc (rw h at ih))
            | inr k ↦ rw (e, h, k) (rw h at ih)
          ]
        ]
      ]

  how_many-sort : (xs : List Ready) → how_many (sort ready_leb xs) ≡ how_many xs
  unfolding sort
  how_many-sort [] = refl
  how_many-sort (x ∷ xs) =
      let ih = how_many-sort xs in
      how_many-insert x (sort ready_leb xs)
      ∙ (elim (Bool-cases (p x)) [ inl h ↦ rw h (ap suc ih) | inr h ↦ rw h ih ])

-- Of the queues that are read: every tenant stands there once, and its documents under it; each queue
-- has the interactive lane first, in a lane the document that arrived first, and then the lower id;
-- for every test of documents, as many of a tenant's queue pass it as of the documents that the
-- tenant's rows name, so that none is lost, doubled or put under another tenant; and what a tenant has
-- in flight is what its last row says.
pub read_queues-reads :
    (rows : List Candidate) (k : ℕ) (p : Ready → Bool)
    → HasKeys (read_queues rows)
      × All (λ e. Ordered GoesBefore e.1.ready) (read_queues rows)
      × (how_many p (ready_of k (read_queues rows)) ≡ how_many p (documents_of k rows))
      × (in_flight_of k (read_queues rows) ≡ last_in_flight k 0 rows)
unfolding read_queues
read_queues-reads rows k p = (
  read_queues-HasKeys rows,
  queues-Ordered (file_rows rows []),
  ap (how_many p) (ready_of-sorted k (file_rows rows []))
      ∙ how_many-sort p (ready_of k (file_rows rows []))
      ∙ ap (how_many p) (ready_of-file_rows k rows []),
  in_flight_of-sorted k (file_rows rows []) ∙ in_flight_of-file_rows k rows [],
)
