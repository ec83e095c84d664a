-- ===== src/Analysis/Stacks/Counts.antt =====
-- What a sample adds to a number, added up over the samples of the sources.
use snail_server.Common.{
  ℕ, ◌+◌, ◌≡◌, refl, sym, subst, Bool, false, List, [], ◌∷◌, Option, none, ◌==◌, if◌then◌else◌,
  arith,
}
use snail_server.Analysis.Stacks.Analyze.{
  Sample, StacksAnalysis, add_sample, add_samples, all_samples, no_stacks, analyze_stacks,
}

module _ {max_source_id : ℕ} (count : Sample max_source_id → ℕ) where
  abbrev pub count_in : List (Sample max_source_id) → ℕ
  count_in [] = 0
  count_in (sample ∷ samples) = count sample + count_in samples

  -- Those of the source `s`.
  abbrev pub count_of : ℕ → List (ℕ × List (Sample max_source_id)) → ℕ
  count_of s [] = 0
  count_of s ((source, samples) ∷ sources) =
      (if source == s then count_in samples else 0) + count_of s sources

module _ (max_source_id s : ℕ) (count : Sample max_source_id → ℕ)
    (IsKept : StacksAnalysis max_source_id → Type 0) (measure : StacksAnalysis max_source_id → ℕ)
    (keep : (source : ℕ) (sample : Sample max_source_id) (a : StacksAnalysis max_source_id)
      → IsKept a
      → IsKept (add_sample max_source_id source sample a))
    (grow : (source : ℕ) (sample : Sample max_source_id) (a : StacksAnalysis max_source_id)
      → IsKept a
      → measure (add_sample max_source_id source sample a)
        ≡ measure a + (if source == s then count sample else 0)) where
  -- Without a token all samples are taken, and the loop is not left.
  counted_by_samples :
      (source : ℕ) (samples : List (Sample max_source_id)) (a : StacksAnalysis max_source_id)
      → IsKept a
      → (b : StacksAnalysis max_source_id) × (add_samples max_source_id source samples none a
          ≡ (false, none, b))
        × IsKept b
        × (measure b ≡ measure a + (if source == s then count_in count samples else 0))
  unfolding add_samples
  counted_by_samples source [] a x = (a, refl, x, ground arith)
  counted_by_samples source (sample ∷ samples) a x =
      let next = add_sample max_source_id source sample a in
      let (b, e, y, m) = counted_by_samples source samples next (keep source sample a x) in
      (b, e, y, ground (arith, m, grow source sample a x))

  counted_by_sources :
      (sources : List (ℕ × List (Sample max_source_id))) (a : StacksAnalysis max_source_id)
      → IsKept a
      → measure (all_samples max_source_id (add_samples max_source_id) sources (false, none, a))
        ≡ measure a + count_of count s sources
  counted_by_sources [] a x = omega arith
  counted_by_sources ((source, samples) ∷ sources) a x =
      let (b, e, y, m) = counted_by_samples source samples a x in
      let others = counted_by_sources sources b y in
      subst
        (λ (left : Bool × Option ℕ × StacksAnalysis max_source_id).
          measure (all_samples max_source_id (add_samples max_source_id) sources left)
          ≡ measure a + count_of count s ((source, samples) ∷ sources))
        (sym e) (omega (arith, others, m))

  pub counted_by_analysis :
      (sources : List (ℕ × List (Sample max_source_id)))
      → IsKept (no_stacks max_source_id)
      → measure (analyze_stacks max_source_id sources none)
        ≡ measure (no_stacks max_source_id) + count_of count s sources
  unfolding analyze_stacks
  counted_by_analysis sources x = counted_by_sources sources (no_stacks max_source_id) x
