-- ===== src/Analysis/Stacks/Runs.antt =====
-- What every sample keeps holds after all of them: the loops of `analyze_stacks`.
use snail_server.Common.{ℕ, zero, suc, Bool, true, false, List, [], ◌∷◌, Option, none, some}
use snail_server.Analysis.Stacks.Analyze.{
  Sample, StacksAnalysis, add_sample, add_samples, all_samples, no_stacks, analyze_stacks,
}

module _ (max_source_id : ℕ) (IsKept : StacksAnalysis max_source_id → Type 0)
    (keep : (source : ℕ) (sample : Sample max_source_id) (a : StacksAnalysis max_source_id)
      → IsKept a
      → IsKept (add_sample max_source_id source sample a)) where
  kept_by_samples :
      (source : ℕ) (samples : List (Sample max_source_id)) (token : Option ℕ)
      (a : StacksAnalysis max_source_id)
      → IsKept a
      → IsKept (add_samples max_source_id source samples token a).2
  unfolding add_samples
  kept_by_samples source [] token a x = x
  kept_by_samples source (sample ∷ samples) none a x =
      kept_by_samples source samples none (add_sample max_source_id source sample a)
        (keep source sample a x)
  kept_by_samples source (sample ∷ samples) (some zero) a x = x
  kept_by_samples source (sample ∷ samples) (some (suc n)) a x =
      kept_by_samples source samples (some n) (add_sample max_source_id source sample a)
        (keep source sample a x)

  kept_by_sources :
      (sources : List (ℕ × List (Sample max_source_id)))
      (left : Bool × Option ℕ × StacksAnalysis max_source_id)
      → IsKept left.2
      → IsKept (all_samples max_source_id (add_samples max_source_id) sources left)
  kept_by_sources sources (true, token, a) x = x
  kept_by_sources [] (false, token, a) x = x
  kept_by_sources ((source, samples) ∷ sources) (false, token, a) x =
      kept_by_sources sources (add_samples max_source_id source samples token a)
        (kept_by_samples source samples token a x)

  pub kept_by_analysis :
      (sources : List (ℕ × List (Sample max_source_id))) (token : Option ℕ)
      → IsKept (no_stacks max_source_id)
      → IsKept (analyze_stacks max_source_id sources token)
  unfolding analyze_stacks
  kept_by_analysis sources token x =
      kept_by_sources sources (false, token, no_stacks max_source_id) x
