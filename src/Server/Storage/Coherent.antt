-- ===== src/Server/Storage/Coherent.antt =====
-- What a document keeps is what a fresh computation would give.
use snail_server.Common.{
  ℕ, ◌≡◌, refl, sym, ◌∙◌, ap, ap₂, subst, List, [], none, some, ◌==◌, ◌⊎◌, inl, inr, if◌then◌else◌,
  arith, Option-cases, Bool-cases,
}
use snail_server.Common.AssocMap.{lookup, lookup-insert}
use snail_server.Server.Storage.Interface.{Library}
use snail_server.Server.Storage.Document.{
  SortByKind, sort_by_name, sort_by_samples, total, self, Outcome, done, ◌>>=◌, AnalysisData,
  DocumentStorage, document_total_counts, get_process_analysis, get_sorted_functions,
  sorted_functions_of, process_data, saved_order, save_order, sorted_by, count_sources, no_analysis,
  fresh_analysis, total_counts_from, process_analysis_from, sorted_functions_from, or_else,
  set_process, set_self, set_total, source_data,
}

module _ (l : Library) where
  open l use {Provider, Stacks, Filter, Token, sample_sources, never, analyze_stacks}

  -- What is kept for a process belongs to its analysis.
  pub record IsFresh (stacks : Stacks) (known : AnalysisData l) : Type 0 where
    pub fresh_stacks : (s : Stacks) → known.stacks_analysis ≡ some s → s ≡ stacks
    pub fresh_order :
        (k : SortByKind) (order : List ℕ)
        → saved_order l k known ≡ some order
        → order ≡ sorted_by l k stacks

  pub record IsCoherent (p : Provider) (d : DocumentStorage l) : Type 0 where
    pub provided : d.data_provider ≡ some p
    pub fresh_counts :
        (c : List (ℕ × ℕ))
        → d.total_samples_counts ≡ some c
        → c ≡ count_sources l p d.filter (sample_sources p) []
    pub fresh_processes :
        (process : ℕ) → IsFresh (analyze_stacks p process d.filter never) (process_data l process d)

  -- A document as it is before it is read.
  pub record IsUnread (d : DocumentStorage l) : Type 0 where
    pub not_provided : d.data_provider ≡ none
    pub no_counts : d.total_samples_counts ≡ none
    pub no_processes : d.analysis_per_process ≡ []

  saved_order-fresh_analysis :
      (k : SortByKind) (stacks : Stacks) → saved_order l k (fresh_analysis l stacks) ≡ none
  unfolding saved_order lookup
  saved_order-fresh_analysis sort_by_name stacks = refl
  saved_order-fresh_analysis (sort_by_samples source self) stacks = refl
  saved_order-fresh_analysis (sort_by_samples source total) stacks = refl

  fresh_analysis-IsFresh : (stacks : Stacks) → IsFresh stacks (fresh_analysis l stacks)
  fresh_analysis-IsFresh stacks = record {
    fresh_stacks = λ s h. ground arith;
    fresh_order = λ k order h. absurd (ground (arith, saved_order-fresh_analysis k stacks));
  }

  -- An order that is found after `save_order` is the saved one, or was found before.
  saved_order-save_order :
      (k k' : SortByKind) (order order' : List ℕ) (known : AnalysisData l)
      → saved_order l k' (save_order l k order known) ≡ some order'
      → ((k' ≡ k) × (order' ≡ order)) ⊎ (saved_order l k' known ≡ some order')
  unfolding saved_order save_order
  saved_order-save_order sort_by_name sort_by_name order order' known h = ground arith
  saved_order-save_order sort_by_name (sort_by_samples t self) order order' known h = ground arith
  saved_order-save_order sort_by_name (sort_by_samples t total) order order' known h = ground arith
  saved_order-save_order (sort_by_samples s self) sort_by_name order order' known h = ground arith
  saved_order-save_order (sort_by_samples s total) sort_by_name order order' known h = ground arith
  saved_order-save_order (sort_by_samples s self) (sort_by_samples t self) order order' known h =
      ground (
        arith,
        lookup-insert s t (set_self order (source_data l s known)) known.functions_by_samples,
      )
  saved_order-save_order (sort_by_samples s self) (sort_by_samples t total) order order' known h =
      ground (
        arith,
        lookup-insert s t (set_self order (source_data l s known)) known.functions_by_samples,
      )
  saved_order-save_order (sort_by_samples s total) (sort_by_samples t self) order order' known h =
      ground (
        arith,
        lookup-insert s t (set_total order (source_data l s known)) known.functions_by_samples,
      )
  saved_order-save_order (sort_by_samples s total) (sort_by_samples t total) order order' known h =
      ground (
        arith,
        lookup-insert s t (set_total order (source_data l s known)) known.functions_by_samples,
      )

  save_order-IsFresh :
      (stacks : Stacks) (known : AnalysisData l) (k : SortByKind)
      → IsFresh stacks known
      → IsFresh stacks (save_order l k (sorted_by l k stacks) known)
  unfolding save_order
  save_order-IsFresh stacks known k f = record {
    fresh_stacks = kept k;
    fresh_order = λ k' order' h. elim (saved_order-save_order k k' _ order' known h) [
      | inl (e, e') ↦ rw e e'
      | inr e ↦ f.fresh_order k' order' e
    ];
  }
    where
      kept :
          (k : SortByKind) (s : Stacks)
          → (save_order l k (sorted_by l k stacks) known).stacks_analysis ≡ some s
          → s ≡ stacks
      kept sort_by_name s h = f.fresh_stacks s h
      kept (sort_by_samples t self) s h = f.fresh_stacks s h
      kept (sort_by_samples t total) s h = f.fresh_stacks s h

  process_data-set_process :
      (process other : ℕ) (known : AnalysisData l) (d : DocumentStorage l)
      → process_data l other (set_process l process known d)
        ≡ (if process == other then known else process_data l other d)
  process_data-set_process process other known d =
      ground (arith, lookup-insert process other known d.analysis_per_process)

  -- Keeping a fresh entry for one process.
  set_process-IsCoherent :
      (p : Provider) (process : ℕ) (known : AnalysisData l) (d : DocumentStorage l)
      → IsCoherent p d
      → IsFresh (analyze_stacks p process d.filter never) known
      → IsCoherent p (set_process l process known d)
  set_process-IsCoherent p process known d c f = record {
    provided = c.provided;
    fresh_counts = c.fresh_counts;
    fresh_processes = λ other.
        rw (process_data-set_process process other known d) (elim (Bool-cases (process == other)) [
          | inl e ↦ let same : process ≡ other = ground arith in rw (e, sym same) f
          | inr e ↦ rw e (c.fresh_processes other)
        ]);
  }

  -- An operation on a coherent document is done with the fresh answer and leaves it coherent, with
  -- the same filter.
  abbrev pub Answers {ℓ} :
      {A : Type ℓ} → Provider → Filter → A → Outcome (A × DocumentStorage l) → Type ℓ
  Answers p f a o = (d : DocumentStorage l) × (o ≡ done (a, d)) × IsCoherent p d × (d.filter ≡ f)

  pub document_total_counts-IsCoherent :
      (p : Provider) (d : DocumentStorage l)
      → IsCoherent p d
      → Answers p d.filter
          (count_sources l p d.filter (sample_sources p) [])
          (document_total_counts l d)
  unfolding document_total_counts
  document_total_counts-IsCoherent p d c = elim (Option-cases d.total_samples_counts) [
    | inl e ↦ (
      record d { total_samples_counts = some (count_sources l p d.filter (sample_sources p) []) },
      ap₂ (λ x y. total_counts_from l x y d) e c.provided,
      record {
        provided = c.provided;
        fresh_counts = λ o h. ground arith;
        fresh_processes = c.fresh_processes;
      },
      refl,
    )
    | inr (counts, e) ↦ (
      d,
      ap (λ x. total_counts_from l x d.data_provider d) e
          ∙ ap (λ x. done (x, d)) (c.fresh_counts counts e),
      c,
      refl,
    )
  ]

  pub get_process_analysis-IsCoherent :
      (p : Provider) (process : ℕ) (d : DocumentStorage l)
      → IsCoherent p d
      → Answers p d.filter
          (analyze_stacks p process d.filter never)
          (get_process_analysis l process never d)
  unfolding get_process_analysis
  get_process_analysis-IsCoherent p process d c =
      let known = process_data l process d in
      let f = c.fresh_processes process in
      elim (Option-cases known.stacks_analysis) [
        | inl e ↦ (
          _,
          ap₂ (λ x y. process_analysis_from l process never x y known d) e c.provided,
          set_process-IsCoherent p process _ d c (fresh_analysis-IsFresh _),
          refl,
        )
        | inr (stacks, e) ↦ (
          set_process l process known d,
          ap (λ x. process_analysis_from l process never x d.data_provider known d) e
              ∙ ap (λ x. done (x, set_process l process known d)) (f.fresh_stacks stacks e),
          set_process-IsCoherent p process _ d c f,
          refl,
        )
      ]

  pub get_sorted_functions-IsCoherent :
      (p : Provider) (process : ℕ) (k : SortByKind) (d : DocumentStorage l)
      → IsCoherent p d
      → Answers p d.filter
          (sorted_by l k (analyze_stacks p process d.filter never))
          (get_sorted_functions l process k never d)
  unfolding get_sorted_functions
  get_sorted_functions-IsCoherent p process k d c =
      let (d', e, c', ef) = get_process_analysis-IsCoherent p process d c in
      let stacks = analyze_stacks p process d.filter never in
      let f : IsFresh stacks (process_data l process d') =
        subst (λ x. IsFresh (analyze_stacks p process x never) (process_data l process d')) ef
          (c'.fresh_processes process) in
      let f' : IsFresh (analyze_stacks p process d'.filter never) (process_data l process d') =
        c'.fresh_processes process in
      elim (Option-cases (saved_order l k (process_data l process d'))) [
        | inl n ↦ (
          _,
          ap (λ m. m >>= sorted_functions_of l process k) e
              ∙ ap (λ x. sorted_functions_from l process k x stacks d') n,
          set_process-IsCoherent p process _ d' c' (
              subst
                (λ x.
                  IsFresh (analyze_stacks p process x never)
                    (save_order l k (sorted_by l k stacks) (process_data l process d')))
                (sym ef) (save_order-IsFresh stacks _ k f)),
          ef,
        )
        | inr (order, n) ↦ (
          _,
          ap (λ m. m >>= sorted_functions_of l process k) e
              ∙ (ap (λ x. sorted_functions_from l process k x stacks d') n
                  ∙ ap (λ x. done (x, set_process l process (process_data l process d') d'))
                      (f.fresh_order k order n)),
          set_process-IsCoherent p process _ d' c' f',
          ef,
        )
      ]

  saved_order-no_analysis : (k : SortByKind) → saved_order l k (no_analysis l) ≡ none
  unfolding saved_order lookup
  saved_order-no_analysis sort_by_name = refl
  saved_order-no_analysis (sort_by_samples source self) = refl
  saved_order-no_analysis (sort_by_samples source total) = refl

  -- A document without answers that gets its data is coherent.
  pub blank-IsCoherent :
      (p : Provider) (d : DocumentStorage l)
      → d.data_provider ≡ some p
      → d.total_samples_counts ≡ none
      → d.analysis_per_process ≡ []
      → IsCoherent p d
  unfolding lookup
  blank-IsCoherent p d h1 h2 h3 = record {
    provided = h1;
    fresh_counts = λ c h. absurd (ground arith);
    fresh_processes = λ process.
        let e : process_data l process d ≡ no_analysis l =
          ap (λ m. or_else (lookup process m) (no_analysis l)) h3 in
        rw e (record {
          fresh_stacks = λ s h. absurd (ground arith);
          fresh_order = λ k order h. absurd (ground (arith, saved_order-no_analysis k));
        });
  }
