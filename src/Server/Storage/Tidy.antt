-- ===== src/Server/Storage/Tidy.antt =====
-- Whatever operations are done, each document is unread or keeps only fresh answers.
use snail_server.Common.{
  ℕ, ◌≡◌, refl, sym, ◌∙◌, ap, ap₂, subst, Bool, [], none, some, ◌==◌, ◌⊎◌, inl, inr, arith,
  Option-cases, Bool-cases,
}
use snail_server.Common.AssocMap.{lookup, lookup-insert, lookup-erase}
use snail_server.Server.Storage.Interface.{Library}
use snail_server.Server.Storage.Document.{
  SortByKind, total_counts_from, process_analysis_from, process_data, no_analysis, or_else,
  sorted_functions_of, not_been_read, read_failed, Outcome, done, invalid_document_id,
  null_provider, ◌>>=◌, DocumentStorage, document_total_counts, get_process_analysis,
  get_sorted_functions,
}
use snail_server.Server.Storage.Coherent.{
  IsCoherent, Answers, document_total_counts-IsCoherent, get_process_analysis-IsCoherent,
  get_sorted_functions-IsCoherent, blank-IsCoherent, IsUnread,
}
use snail_server.Server.Storage.Page.{page_of}
use snail_server.Server.Storage.{
  Storage, with_document, get_document_storage, set_document, create_document, read_document,
  close_document, apply_document_filter, get_total_samples_counts, get_stacks_analysis,
  get_functions_page,
}

module _ (l : Library) where
  open l use {same_filter, make_provider}
  open l use {
    FilePath, Options, PathMap, Provider, Filter, Stacks, sample_sources, never, analyze_stacks,
  }

  -- A document that was not read, or whose answers are all fresh.
  abbrev IsTidyDocument : DocumentStorage l → Type 0
  IsTidyDocument d = IsUnread l d ⊎ ((p : Provider) × IsCoherent l p d)

  abbrev IsTidy : Storage l → Type 0
  IsTidy s =
      (id : ℕ) (d : DocumentStorage l) → lookup id s.open_documents ≡ some d → IsTidyDocument d

  -- The operations that change a storage; none is cancelled.
  pub data Operation : Type 0 where
    configure : Options → PathMap → Operation
    create : FilePath → Operation
    read : ℕ → Operation
    close : ℕ → Operation
    apply_filter : ℕ → Filter → Operation
    total_counts : ℕ → Operation
    stacks : ℕ → ℕ → Operation
    functions_page : ℕ → ℕ → SortByKind → Bool → ℕ → ℕ → Operation

  abbrev pub left {ℓ} : {A : Type ℓ} → Outcome (A × Storage l) → Outcome (Storage l)
  left o = o >>= λ r. done r.1

  abbrev pub apply : Operation → Storage l → Outcome (Storage l)
  apply (configure o m) s = done (record s { options = o; module_path_map = m })
  apply (create path) s = done (create_document l path s).1
  apply (read id) s = read_document l id s
  apply (close id) s = done (close_document l id s)
  apply (apply_filter id f) s = apply_document_filter l id f s
  apply (total_counts id) s = left (get_total_samples_counts l id s)
  apply (stacks id process) s = left (get_stacks_analysis l id process never s)
  apply (functions_page id process k reversed size index) s =
      left (get_functions_page l id process k reversed size index never s)

  -- A document is read once.
  abbrev pub IsAdmitted : Operation → Storage l → Type 0
  IsAdmitted (read id) s =
      (d : DocumentStorage l) → lookup id s.open_documents ≡ some d → d.data_provider ≡ none
  IsAdmitted _ s = Unit

  -- The storages that operations lead to, starting from an empty one.
  pub data Reaches : Storage l → Type 0 where
    initially :
        (o : Options) (m : PathMap)
        → Reaches
            (record { options = o; module_path_map = m; open_documents = []; next_document_id = 0 })
    afterwards :
        (s s' : Storage l) (o : Operation)
        → Reaches s
        → IsAdmitted o s
        → apply o s ≡ done s'
        → Reaches s'

  set_document-IsTidy :
      (id : ℕ) (d : DocumentStorage l) (s : Storage l)
      → IsTidy s
      → IsTidyDocument d
      → IsTidy (set_document l id d s)
  unfolding set_document
  set_document-IsTidy id d s t td other d' h = elim (Bool-cases (id == other)) [
    | inl e ↦
        let same : d ≡ d' = ground (arith, lookup-insert id other d s.open_documents) in
        subst IsTidyDocument same td
    | inr e ↦ t other d' (ground (arith, lookup-insert id other d s.open_documents))
  ]

  close_document-IsTidy : (id : ℕ) (s : Storage l) → IsTidy s → IsTidy (close_document l id s)
  unfolding close_document
  close_document-IsTidy id s t other d h =
      t other d (ground (arith, lookup-erase id other s.open_documents))

  pub got :
      (id : ℕ) (s : Storage l) (d : DocumentStorage l)
      → lookup id s.open_documents ≡ some d
      → get_document_storage l id s ≡ done d
  unfolding get_document_storage
  got id s d e = rw e refl

  missing :
      (id : ℕ) (s : Storage l)
      → lookup id s.open_documents ≡ none
      → get_document_storage l id s ≡ invalid_document_id
  unfolding get_document_storage
  missing id s e = rw e refl

  -- An operation that asks the document found under `id` and stores what the document then keeps.
  abbrev pub ask {ℓ} :
      {A : Type ℓ}
      → (DocumentStorage l → Outcome (A × DocumentStorage l))
      → ℕ
      → Storage l
      → Outcome (A × Storage l)
  ask f id s = get_document_storage l id s >>= λ d. f d >>= with_document l id s

  ask-IsTidy {ℓ} :
      {A : Type ℓ} (f : DocumentStorage l → Outcome (A × DocumentStorage l)) (id : ℕ)
      (s s' : Storage l)
      → ((d : DocumentStorage l) → IsUnread l d → f d ≡ null_provider)
      → ((p : Provider) (d : DocumentStorage l)
          → IsCoherent l p d
          → (a : A) × Answers l p d.filter a (f d))
      → IsTidy s
      → left (ask f id s) ≡ done s'
      → IsTidy s'
  ask-IsTidy f id s s' u c t h = elim (Option-cases (lookup id s.open_documents)) [
    | inl e ↦
        let e' : invalid_document_id ≡ done s' =
          sym (ap (λ m. left (m >>= λ d. f d >>= with_document l id s)) (missing id s e)) ∙ h in
        absurd (ground arith)
    | inr (d, e) ↦
        let h' : left (f d >>= with_document l id s) ≡ done s' =
          sym (ap (λ m. left (m >>= λ d. f d >>= with_document l id s)) (got id s d e)) ∙ h in
        elim (t id d e) [
          | inl n ↦
              let e' : null_provider ≡ done s' =
                sym (ap (λ m. left (m >>= with_document l id s)) (u d n)) ∙ h' in
              absurd (ground arith)
          | inr (p, k) ↦
              let (a, fresh) = c p d k in
              let (d', e1, k', ef) = fresh in
              let e' : done (set_document l id d' s) ≡ done s' =
                sym (ap (λ m. left (m >>= with_document l id s)) e1) ∙ h' in
              let same : set_document l id d' s ≡ s' = ground arith in
              subst IsTidy same (set_document-IsTidy id d' s t (inr (p, k')))
        ]
  ]

  counts_of_unread :
      (d : DocumentStorage l) → IsUnread l d → document_total_counts l d ≡ null_provider
  unfolding document_total_counts
  counts_of_unread d u = ap₂ (λ x y. total_counts_from l x y d) u.no_counts u.not_provided

  analysis_of_unread :
      (process : ℕ) (d : DocumentStorage l)
      → IsUnread l d
      → get_process_analysis l process never d ≡ null_provider
  unfolding get_process_analysis lookup
  analysis_of_unread process d u =
      ap₂ (λ x y. process_analysis_from l process never x y (process_data l process d) d)
        (ap (λ m. (or_else (lookup process m) (no_analysis l)).stacks_analysis) u.no_processes)
        u.not_provided

  order_of_unread :
      (process : ℕ) (k : SortByKind) (d : DocumentStorage l)
      → IsUnread l d
      → get_sorted_functions l process k never d ≡ null_provider
  unfolding get_sorted_functions
  order_of_unread process k d u =
      ap (λ m. m >>= sorted_functions_of l process k) (analysis_of_unread process d u)

  -- The page that is returned does not matter for what is kept.
  left-paged :
      {A B : Type 0} (m : Outcome (DocumentStorage l))
      (f : DocumentStorage l → Outcome (A × DocumentStorage l)) (g : A → B) (id : ℕ) (s : Storage l)
      → left (m >>= λ d. f d >>= λ r. done (g r.0, set_document l id r.1 s))
        ≡ left (m >>= λ d. f d >>= with_document l id s)
  left-paged {A = A} (done d) f g id s = paged (f d)
    where
      paged :
          (o : Outcome (A × DocumentStorage l))
          → left (o >>= λ r. done (g r.0, set_document l id r.1 s))
            ≡ left (o >>= with_document l id s)
      paged (done r) = refl
      paged invalid_document_id = refl
      paged not_been_read = refl
      paged read_failed = refl
      paged null_provider = refl
  left-paged invalid_document_id f g id s = refl
  left-paged not_been_read f g id s = refl
  left-paged read_failed f g id s = refl
  left-paged null_provider f g id s = refl

  create-IsTidy : (path : FilePath) (s : Storage l) → IsTidy s → IsTidy (create_document l path s).1
  unfolding create_document
  create-IsTidy path s t =
      set_document-IsTidy _ _ _ t
        (inl (record { not_provided = refl; no_counts = refl; no_processes = refl }))

  read-IsTidy :
      (id : ℕ) (s s' : Storage l)
      → IsAdmitted (read id) s
      → IsTidy s
      → read_document l id s ≡ done s'
      → IsTidy s'
  unfolding read_document
  read-IsTidy id s s' a t h = elim (Option-cases (lookup id s.open_documents)) [
    | inl e ↦ let same : s ≡ s' = ground arith in subst IsTidy same t
    | inr (d, e) ↦ elim (Option-cases (make_provider s.options s.module_path_map d.path)) [
      | inl e' ↦ absurd (ground arith)
      | inr (p, e') ↦
          let d' : DocumentStorage l = record d { data_provider = some p } in
          let same : set_document l id d' s ≡ s' = ground arith in
          let tidy : IsTidyDocument d' = elim (t id d e) [
            | inl u ↦ inr (p, blank-IsCoherent l p d' refl u.no_counts u.no_processes)
            | inr (q, c) ↦ let unread = a d e in let provided = c.provided in absurd (ground arith)
          ] in
          subst IsTidy same (set_document-IsTidy id d' s t tidy)
    ]
  ]

  filter-IsTidy :
      (id : ℕ) (f : Filter) (s s' : Storage l)
      → IsTidy s
      → apply_document_filter l id f s ≡ done s'
      → IsTidy s'
  unfolding apply_document_filter get_document_storage
  filter-IsTidy id f s s' t h = elim (Option-cases (lookup id s.open_documents)) [
    | inl e ↦ absurd (ground arith)
    | inr (d, e) ↦ elim (Bool-cases (same_filter d.filter f)) [
      | inl b ↦ let same : s ≡ s' = ground arith in subst IsTidy same t
      | inr b ↦
          let d' : DocumentStorage l = record d {
            filter = f;
            total_samples_counts = none;
            analysis_per_process = [];
          } in
          let same : set_document l id d' s ≡ s' = ground arith in
          let tidy : IsTidyDocument d' = elim (t id d e) [
            | inl u ↦
                inl
                  (record { not_provided = u.not_provided; no_counts = refl; no_processes = refl })
            | inr (p, c) ↦ inr (p, blank-IsCoherent l p d' c.provided refl refl)
          ] in
          subst IsTidy same (set_document-IsTidy id d' s t tidy)
    ]
  ]

  apply-IsTidy :
      (o : Operation) (s s' : Storage l)
      → IsAdmitted o s
      → IsTidy s
      → apply o s ≡ done s'
      → IsTidy s'
  unfolding get_total_samples_counts get_stacks_analysis get_functions_page
  apply-IsTidy (configure o m) s s' a t h = λ id d e. t id d (ground arith)
  apply-IsTidy (create path) s s' a t h =
      let same : (create_document l path s).1 ≡ s' = ground arith in
      subst IsTidy same (create-IsTidy path s t)
  apply-IsTidy (read id) s s' a t h = read-IsTidy id s s' a t h
  apply-IsTidy (close id) s s' a t h =
      let same : close_document l id s ≡ s' = ground arith in
      subst IsTidy same (close_document-IsTidy id s t)
  apply-IsTidy (apply_filter id f) s s' a t h = filter-IsTidy id f s s' t h
  apply-IsTidy (total_counts id) s s' a t h =
      ask-IsTidy (document_total_counts l) id s s' counts_of_unread
        (λ p d c. (_, document_total_counts-IsCoherent l p d c)) t h
  apply-IsTidy (stacks id process) s s' a t h =
      ask-IsTidy (get_process_analysis l process never) id s s' (analysis_of_unread process)
        (λ p d c. (_, get_process_analysis-IsCoherent l p process d c)) t h
  apply-IsTidy (functions_page id process k reversed size index) s s' a t h =
      ask-IsTidy (get_sorted_functions l process k never) id s s' (order_of_unread process k)
        (λ p d c. (_, get_sorted_functions-IsCoherent l p process k d c)) t
        (sym (
            left-paged (get_document_storage l id s) (get_sorted_functions l process k never)
              (page_of reversed size index) id s)
          ∙ h)

  pub Reaches-IsTidy : (s : Storage l) → Reaches s → IsTidy s
  unfolding lookup
  Reaches-IsTidy _ (initially o m) = λ id d h. absurd (ground arith)
  Reaches-IsTidy _ (afterwards s s' o r a e) = apply-IsTidy o s s' a (Reaches-IsTidy s r) e
