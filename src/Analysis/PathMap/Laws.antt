-- ===== src/Analysis/PathMap/Laws.antt =====
-- Which rule rewrites a path, and how.
use snail_server.Common.{
  ◌≡◌, refl, sym, ◌∙◌, ap, ap₂, [], ◌∷◌, ◌++◌, Option, none, some, ◌==◌, inl, inr, ◌↔◌,
  Option-cases, Bool-cases, arith,
}
use snail_server.Text.Codes.{Text}
use snail_server.Analysis.PathMap.{
  after_prefix, PathMapper, simple_path_mapper, apply_mapper, replaced, PathRules, add_rule,
  try_apply, or_next,
}

after_prefix-append : (pattern rest : Text) → after_prefix pattern (pattern ++ rest) ≡ some rest
unfolding after_prefix
after_prefix-append [] rest = refl
after_prefix-append (p ∷ ps) rest = ground (arith, after_prefix-append ps rest)

after_prefix_sound :
    (pattern input rest : Text) → after_prefix pattern input ≡ some rest → input ≡ pattern ++ rest
unfolding after_prefix
after_prefix_sound [] input rest h = cc
after_prefix_sound (p ∷ ps) [] rest h = absurd (ground arith)
after_prefix_sound (p ∷ ps) (c ∷ cs) rest h = elim (Bool-cases (c == p)) [
  | inl e ↦
      let same : c ≡ p = ground arith in ap₂ ◌∷◌ same (after_prefix_sound ps cs rest (ground arith))
  | inr e ↦ absurd (ground arith)
]

or_next_assoc : (a b c : Option Text) → or_next a (or_next b c) ≡ or_next (or_next a b) c
or_next_assoc none b c = refl
or_next_assoc (some a) b c = refl

module _ (Regex : Type 0) (regex_replace : Text → Regex → Text → Text) where
  -- A simple rule rewrites exactly the paths that start with its pattern, and replaces that start.
  pub apply_mapper-simple_path_mapper :
      (pattern replace_text input output : Text)
      → (apply_mapper Regex regex_replace (simple_path_mapper pattern replace_text) input
          ≡ some output)
        ↔ ((rest : Text) × (input ≡ pattern ++ rest) × (output ≡ replace_text ++ rest))
  unfolding apply_mapper
  apply_mapper-simple_path_mapper pattern replace_text input output = (
    λ h. elim (Option-cases (after_prefix pattern input)) [
      | inl e ↦ absurd (ground arith)
      | inr (rest, e) ↦ (
        rest,
        after_prefix_sound pattern input rest e,
        (let same : output ≡ replace_text ++ rest = ground arith in same),
      )
    ],
    λ (rest, e, e').
        ap (λ i. replaced replace_text (after_prefix pattern i)) e
        ∙ ap (replaced replace_text) (after_prefix-append pattern rest)
        ∙ ap some (sym e'),
  )

  abbrev pub NoneApplies : PathRules Regex regex_replace → Text → Type 0
  NoneApplies [] input = Unit {0}
  NoneApplies (r ∷ rs) input =
      (apply_mapper Regex regex_replace r input ≡ none) × NoneApplies rs input

  -- A path is rewritten by the first rule that applies to it, alone.
  pub try_apply-append :
      (before after : PathRules Regex regex_replace) (rule : PathMapper Regex regex_replace)
      (input output : Text)
      → NoneApplies before input
      → apply_mapper Regex regex_replace rule input ≡ some output
      → try_apply Regex regex_replace (before ++ rule ∷ after) input ≡ some output
  unfolding try_apply
  try_apply-append [] after rule input output n h =
      ap (λ o. or_next o (try_apply Regex regex_replace after input)) h
  try_apply-append (r ∷ before) after rule input output (e, n) h =
      ap (λ o. or_next o (try_apply Regex regex_replace (before ++ rule ∷ after) input)) e
      ∙ try_apply-append before after rule input output n h

  -- A rule that is added is asked last: it changes nothing for paths that an older rule rewrites.
  pub try_apply-add_rule :
      (rule : PathMapper Regex regex_replace) (rules : PathRules Regex regex_replace) (input : Text)
      → try_apply Regex regex_replace (add_rule Regex regex_replace rule rules) input
        ≡ or_next
            (try_apply Regex regex_replace rules input)
            (apply_mapper Regex regex_replace rule input)
  unfolding try_apply add_rule
  try_apply-add_rule rule [] input = or_next-none _
    where
      or_next-none : (o : Option Text) → or_next o none ≡ o
      or_next-none none = refl
      or_next-none (some output) = refl
  try_apply-add_rule rule (r ∷ rules) input =
      ap (or_next (apply_mapper Regex regex_replace r input)) (try_apply-add_rule rule rules input)
      ∙ or_next_assoc (apply_mapper Regex regex_replace r input)
          (try_apply Regex regex_replace rules input) (apply_mapper Regex regex_replace rule input)
