-- ===== src/Server/Storage/Answers.antt =====
-- The answers of the storage, over any history of its operations.
use snail_server.Common.{
  ℕ, ◌≡◌, ◌∙◌, ap, ap₂, subst, if◌then◌else◌, Bool, [], none, some, inl, inr, arith, ==_refl,
}
use snail_server.Common.AssocMap.{lookup, lookup-insert}
use snail_server.Server.Storage.Interface.{Library}
use snail_server.Server.Storage.Document.{
  SortByKind, Outcome, done, ◌>>=◌, DocumentStorage, sorted_by, count_sources,
  document_total_counts, get_process_analysis, get_sorted_functions, process_data,
  process_analysis_from, set_process, fresh_analysis, no_analysis, or_else,
}
use snail_server.Server.Storage.Coherent.{
  IsCoherent, document_total_counts-IsCoherent, get_process_analysis-IsCoherent,
  get_sorted_functions-IsCoherent,
}
use snail_server.Server.Storage.Page.{page_of}
use snail_server.Server.Storage.Tidy.{Reaches, Reaches-IsTidy, got}
use snail_server.Server.Storage.{
  Storage, set_document, get_total_samples_counts, get_stacks_analysis, get_functions_page,
  with_document,
}

module _ (l : Library) where
  open l use {Provider, Stacks, Token, sample_sources, never, analyze_stacks}

  -- What is done is the answer `a`, whatever is kept.
  abbrev pub Gives {ℓ} : {A : Type ℓ} → Outcome (A × Storage l) → A → Type ℓ
  Gives o a = (s : Storage l) × (o ≡ done (a, s))

  IsCoherent-provided :
      (s : Storage l) (id : ℕ) (d : DocumentStorage l) (p : Provider)
      → Reaches l s
      → lookup id s.open_documents ≡ some d
      → d.data_provider ≡ some p
      → IsCoherent l p d
  IsCoherent-provided s id d p r e e' = elim (Reaches-IsTidy l s r id d e) [
    | inl u ↦ let n = u.not_provided in absurd (ground arith)
    | inr (q, c) ↦
        let n = c.provided in
        let same : q ≡ p = ground arith in subst (λ x. IsCoherent l x d) same c
  ]

  -- After any history of operations without cancellation in which each document is read once, the
  -- total counts of a document that was read are those of its data under its present filter.
  pub total_counts_fresh :
      (s : Storage l) (id : ℕ) (d : DocumentStorage l) (p : Provider)
      → Reaches l s
      → lookup id s.open_documents ≡ some d
      → d.data_provider ≡ some p
      → Gives (get_total_samples_counts l id s) (count_sources l p d.filter (sample_sources p) [])
  unfolding get_total_samples_counts
  total_counts_fresh s id d p r e e' =
      let (d', e1, k', ef) =
        document_total_counts-IsCoherent l p d (IsCoherent-provided s id d p r e e') in
      (
        set_document l id d' s,
        ap (λ m. m >>= λ d. document_total_counts l d >>= with_document l id s) (got l id s d e)
            ∙ ap (λ m. m >>= with_document l id s) e1,
      )

  -- After any history of operations without cancellation in which each document is read once, the
  -- analysis of a process of a document that was read is that of its data under its present filter.
  pub stacks_analysis_fresh :
      (s : Storage l) (id process : ℕ) (d : DocumentStorage l) (p : Provider)
      → Reaches l s
      → lookup id s.open_documents ≡ some d
      → d.data_provider ≡ some p
      → Gives (get_stacks_analysis l id process never s) (analyze_stacks p process d.filter never)
  unfolding get_stacks_analysis
  stacks_analysis_fresh s id process d p r e e' =
      let (d', e1, k', ef) =
        get_process_analysis-IsCoherent l p process d (IsCoherent-provided s id d p r e e') in
      (
        set_document l id d' s,
        ap (λ m. m >>= λ d. get_process_analysis l process never d >>= with_document l id s)
              (got l id s d e)
            ∙ ap (λ m. m >>= with_document l id s) e1,
      )

  -- After any history of operations without cancellation in which each document is read once, a page
  -- of functions is the page of a fresh sort of a fresh analysis under the present filter.
  pub functions_page_fresh :
      (s : Storage l) (id process : ℕ) (k : SortByKind) (reversed : Bool) (size index : ℕ)
      (d : DocumentStorage l) (p : Provider)
      → Reaches l s
      → lookup id s.open_documents ≡ some d
      → d.data_provider ≡ some p
      → Gives
          (get_functions_page l id process k reversed size index never s)
          (page_of reversed size index (sorted_by l k (analyze_stacks p process d.filter never)))
  unfolding get_functions_page
  functions_page_fresh s id process k reversed size index d p r e e' =
      let (d', e1, k', ef) =
        get_sorted_functions-IsCoherent l p process k d (IsCoherent-provided s id d p r e e') in
      (
        set_document l id d' s,
        ap
              (λ m. m >>= λ d. get_sorted_functions l process k never d >>= λ r.
                done (page_of reversed size index r.0, set_document l id r.1 s))
              (got l id s d e)
            ∙ ap (λ m. m >>= λ r. done (page_of reversed size index r.0, set_document l id r.1 s))
                e1,
      )

  kept_analysis :
      (s : Storage l) (id process : ℕ) (token : Token) (d : DocumentStorage l) (stacks : Stacks)
      → lookup id s.open_documents ≡ some d
      → (process_data l process d).stacks_analysis ≡ some stacks
      → Gives (get_stacks_analysis l id process token s) stacks
  unfolding get_stacks_analysis get_process_analysis
  kept_analysis s id process token d stacks e n =
      let known = process_data l process d in
      (
        set_document l id (set_process l process known d) s,
        ap (λ m. m >>= λ d. get_process_analysis l process token d >>= with_document l id s)
              (got l id s d e)
            ∙ ap
                (λ x.
                  process_analysis_from l process token x d.data_provider known d
                  >>= with_document l id s)
                n,
      )

  -- The analysis of a request that was cancelled is kept: the next request, which is not cancelled,
  -- gets the same partial analysis.
  pub cancelled_analysis_kept :
      (s : Storage l) (id process : ℕ) (token : Token) (d : DocumentStorage l) (p : Provider)
      → lookup id s.open_documents ≡ some d
      → d.data_provider ≡ some p
      → (process_data l process d).stacks_analysis ≡ none
      → (s' : Storage l) × (get_stacks_analysis l id process token s
          ≡ done (analyze_stacks p process d.filter token, s'))
        × Gives
            (get_stacks_analysis l id process never s')
            (analyze_stacks p process d.filter token)
  unfolding get_stacks_analysis get_process_analysis set_document
  cancelled_analysis_kept s id process token d p e e' n =
      let known = process_data l process d in
      let stacks = analyze_stacks p process d.filter token in
      let d1 = set_process l process (fresh_analysis l stacks) d in
      (
        set_document l id d1 s,
        ap (λ m. m >>= λ d. get_process_analysis l process token d >>= with_document l id s)
              (got l id s d e)
            ∙ ap₂
                (λ x y. process_analysis_from l process token x y known d >>= with_document l id s)
                n e',
        kept_analysis (set_document l id d1 s) id process never d1 stacks
            (lookup-insert id id d1 s.open_documents
              ∙ ap (λ b. if b then some d1 else lookup id s.open_documents) (==_refl id))
            (ap (λ o. (or_else o (no_analysis l)).stacks_analysis)
              (lookup-insert process process (fresh_analysis l stacks) d.analysis_per_process
                ∙ ap
                    (λ b.
                      if b
                      then some (fresh_analysis l stacks)
                      else lookup process d.analysis_per_process)
                    (==_refl process))),
      )
