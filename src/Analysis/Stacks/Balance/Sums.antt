-- ===== src/Analysis/Stacks/Balance/Sums.antt =====
-- What a hit changes in the sums.
use snail_server.Common.{
  ℕ, ◌+◌, ◌<◌, ◌≡◌, refl, sym, ap, ap₂, ◌∙◌, subst, List, [], ◌∷◌, Option, none, some, ◌==◌,
  if◌then◌else◌, arith, Bool-cases, inl, inr,
}
use snail_server.Analysis.Stacks.CallTree.{add_total, add_self, CallTree, children_of}
use snail_server.Analysis.Stacks.Hits.{
  total_of, self_of, total_of-count_hit, self_of-count_hit, self_of-count_hit_total,
  total_of-count_hit_self, same_place, same_place_sound, same_place_refl, IsPlace, hits_of,
  hit_place, hits_of-hit_place, children_of-hit_place,
}
use snail_server.Analysis.Stacks.Trees.{occurs}
use snail_server.Analysis.Stacks.Balance.{children_total, IsBalanced, nothing, one_at, IsChild}

-- The hits that children get where a place is hit.
abbrev hits_in : ℕ → Option ℕ → ℕ → List ℕ → ℕ
hits_in source none s cs = 0
hits_in source (some c) s cs = if source == s then occurs c cs else 0

module _ (source : ℕ) (k : Option ℕ) (t : CallTree) (h : IsPlace k t) where
  total-hit_place :
      (p : Option ℕ) (s : ℕ)
      → total_of s (hits_of p (hit_place add_total source k t))
        ≡ total_of s (hits_of p t) + one_at k source p s
  total-hit_place p s =
      ap (total_of s) (hits_of-hit_place add_total source k p t h)
      ∙ elim (Bool-cases (same_place k p)) [
        | inl b ↦ rw b (total_of-count_hit source s (hits_of p t))
        | inr b ↦ rw b (omega arith)
      ]

  self-hit_place :
      (p : Option ℕ) (s : ℕ)
      → self_of s (hits_of p (hit_place add_self source k t))
        ≡ self_of s (hits_of p t) + one_at k source p s
  self-hit_place p s =
      ap (self_of s) (hits_of-hit_place add_self source k p t h)
      ∙ elim (Bool-cases (same_place k p)) [
        | inl b ↦ rw b (self_of-count_hit source s (hits_of p t))
        | inr b ↦ rw b (omega arith)
      ]

  self-hit_total :
      (p : Option ℕ) (s : ℕ)
      → self_of s (hits_of p (hit_place add_total source k t)) ≡ self_of s (hits_of p t)
  self-hit_total p s =
      ap (self_of s) (hits_of-hit_place add_total source k p t h)
      ∙ elim (Bool-cases (same_place k p)) [
        | inl b ↦ rw b (self_of-count_hit_total source s (hits_of p t))
        | inr b ↦ rw b refl
      ]

  total-hit_self :
      (p : Option ℕ) (s : ℕ)
      → total_of s (hits_of p (hit_place add_self source k t)) ≡ total_of s (hits_of p t)
  total-hit_self p s =
      ap (total_of s) (hits_of-hit_place add_self source k p t h)
      ∙ elim (Bool-cases (same_place k p)) [
        | inl b ↦ rw b (total_of-count_hit_self source s (hits_of p t))
        | inr b ↦ rw b refl
      ]

  children-hit_self :
      (s : ℕ) (cs : List ℕ)
      → children_total s (hit_place add_self source k t) cs ≡ children_total s t cs
  children-hit_self s [] = refl
  children-hit_self s (c ∷ cs) = ap₂ ◌+◌ (total-hit_self (some c) s) (children-hit_self s cs)

  -- The self hit of the place where a stack ends is the one that is extra.
  pub hit_self-IsBalanced :
      IsBalanced (one_at k source) t → IsBalanced nothing (hit_place add_self source k t)
  hit_self-IsBalanced b p s =
      let children =
        ap (children_total s (hit_place add_self source k t))
          (children_of-hit_place add_self source k p t) in
      omega (
        arith,
        b p s,
        total-hit_self p s,
        self-hit_place p s,
        children,
        children-hit_self s (children_of p t),
      )

children-hit_place :
    (source : ℕ) (k : Option ℕ) (t : CallTree)
    → IsPlace k t
    → (s : ℕ) (cs : List ℕ)
    → children_total s (hit_place add_total source k t) cs
      ≡ children_total s t cs + hits_in source k s cs
children-hit_place source none t h s [] = omega arith
children-hit_place source (some i) t h s [] = ground arith
children-hit_place source none t h s (c ∷ cs) =
    omega (arith, children-hit_place source none t h s cs)
children-hit_place source (some i) t h s (c ∷ cs) =
    let here = total-hit_place source (some i) t h (some c) s in
    let later = children-hit_place source (some i) t h s cs in
    elim (Bool-cases (source == s)) [
      | inl b ↦ elim (Bool-cases (i == c)) [
        | inl d ↦ ground (arith, here, later)
        | inr d ↦ ground (arith, here, later)
      ]
      | inr b ↦ ground (arith, here, later)
    ]

-- The total hit of the root starts a stack.
pub hit_root-IsBalanced :
    (source : ℕ) (t : CallTree)
    → IsBalanced nothing t
    → IsBalanced (one_at none source) (hit_place add_total source none t)
hit_root-IsBalanced source t b p s =
    let children =
      ap (children_total s (hit_place add_total source none t))
        (children_of-hit_place add_total source none p t) in
    omega (
      arith,
      b p s,
      total-hit_place source none t tt p s,
      self-hit_total source none t tt p s,
      children,
      children-hit_place source none t tt s (children_of p t),
    )

-- The total hit of a child is what was extra for its parent.
pub hit_child-IsBalanced :
    (source c : ℕ) (k : Option ℕ) (t : CallTree)
    → IsChild (one_at k source) k c t
    → IsBalanced (one_at (some c) source) (hit_place add_total source (some c) t)
hit_child-IsBalanced source c k t x p s =
    let h : IsPlace (some c) t = x.tree.bounded k c x.is_child in
    let children =
      ap (children_total s (hit_place add_total source (some c) t))
        (children_of-hit_place add_total source (some c) p t) in
    let moved : one_at k source p s ≡ hits_in source (some c) s (children_of p t) =
      elim (Bool-cases (same_place k p)) [
        | inl b ↦
            let one : occurs c (children_of p t) ≡ 1 = omega (
              arith,
              x.tree.once p c,
              subst (λ q. 0 < occurs c (children_of q t)) (same_place_sound k p b) x.is_child,
            ) in
            ground (arith, b, one)
        | inr b ↦
            let none_there : occurs c (children_of p t) ≡ 0 =
              elim (Bool-cases (occurs c (children_of p t) == 0)) [
                | inl e ↦ ground arith
                | inr e ↦
                    let same : k ≡ p = x.tree.one_parent k p c x.is_child (ground arith) in
                    absurd (cc (sym b ∙ ap (same_place k) (sym same) ∙ same_place_refl k))
              ] in
            ground (arith, b, none_there)
      ] in
    omega (
      arith,
      x.balanced p s,
      total-hit_place source (some c) t h p s,
      self-hit_total source (some c) t h p s,
      children,
      children-hit_place source (some c) t h s (children_of p t),
      moved,
    )
