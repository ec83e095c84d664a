-- ===== src/Analysis/Stacks/Hits.antt =====
-- What an increment of hit counts changes, and where the nodes of a call tree have their hits.
use snail_server.Common.{
  ℕ, zero, suc, ◌+◌, ◌<◌, ◌≡◌, refl, ap, Bool, true, false, List, [], ◌∷◌, Option, none, some, ◌==◌,
  if◌then◌else◌, length, get_elem?, arith,
}
use snail_server.Analysis.Stacks.{HitCounts, no_hits}
use snail_server.Analysis.Stacks.CallTree.{
  add_total, add_self, count_hit, update_at, CallTreeNode, CallTree, children_or_none, children_of,
  update_node,
}

-- The hits of a source; there are none behind the end of the vector.
abbrev pub total_of : ℕ → List HitCounts → ℕ
total_of s [] = 0
total_of zero (h ∷ hs) = h.total
total_of (suc s) (h ∷ hs) = total_of s hs

abbrev pub self_of : ℕ → List HitCounts → ℕ
self_of s [] = 0
self_of zero (h ∷ hs) = h.self
self_of (suc s) (h ∷ hs) = self_of s hs

abbrev pub one_if : Bool → ℕ
one_if b = if b then 1 else 0

pub total_of-count_hit :
    (source s : ℕ) (hs : List HitCounts)
    → total_of s (count_hit add_total source hs) ≡ total_of s hs + one_if (source == s)
unfolding count_hit
total_of-count_hit zero zero [] = omega arith
total_of-count_hit zero (suc s) [] = ground arith
total_of-count_hit zero zero (h ∷ hs) = omega arith
total_of-count_hit zero (suc s) (h ∷ hs) = ground arith
total_of-count_hit (suc source) zero [] = ground arith
total_of-count_hit (suc source) (suc s) [] = ground (arith, total_of-count_hit source s [])
total_of-count_hit (suc source) zero (h ∷ hs) = ground arith
total_of-count_hit (suc source) (suc s) (h ∷ hs) = ground (arith, total_of-count_hit source s hs)

pub self_of-count_hit :
    (source s : ℕ) (hs : List HitCounts)
    → self_of s (count_hit add_self source hs) ≡ self_of s hs + one_if (source == s)
unfolding count_hit
self_of-count_hit zero zero [] = omega arith
self_of-count_hit zero (suc s) [] = ground arith
self_of-count_hit zero zero (h ∷ hs) = omega arith
self_of-count_hit zero (suc s) (h ∷ hs) = ground arith
self_of-count_hit (suc source) zero [] = ground arith
self_of-count_hit (suc source) (suc s) [] = ground (arith, self_of-count_hit source s [])
self_of-count_hit (suc source) zero (h ∷ hs) = ground arith
self_of-count_hit (suc source) (suc s) (h ∷ hs) = ground (arith, self_of-count_hit source s hs)

pub self_of-count_hit_total :
    (source s : ℕ) (hs : List HitCounts) → self_of s (count_hit add_total source hs) ≡ self_of s hs
unfolding count_hit
self_of-count_hit_total zero zero [] = refl
self_of-count_hit_total zero (suc s) [] = refl
self_of-count_hit_total zero zero (h ∷ hs) = refl
self_of-count_hit_total zero (suc s) (h ∷ hs) = refl
self_of-count_hit_total (suc source) zero [] = refl
self_of-count_hit_total (suc source) (suc s) [] = self_of-count_hit_total source s []
self_of-count_hit_total (suc source) zero (h ∷ hs) = refl
self_of-count_hit_total (suc source) (suc s) (h ∷ hs) = self_of-count_hit_total source s hs

pub total_of-count_hit_self :
    (source s : ℕ) (hs : List HitCounts) → total_of s (count_hit add_self source hs) ≡ total_of s hs
unfolding count_hit
total_of-count_hit_self zero zero [] = refl
total_of-count_hit_self zero (suc s) [] = refl
total_of-count_hit_self zero zero (h ∷ hs) = refl
total_of-count_hit_self zero (suc s) (h ∷ hs) = refl
total_of-count_hit_self (suc source) zero [] = refl
total_of-count_hit_self (suc source) (suc s) [] = total_of-count_hit_self source s []
total_of-count_hit_self (suc source) zero (h ∷ hs) = refl
total_of-count_hit_self (suc source) (suc s) (h ∷ hs) = total_of-count_hit_self source s hs

pub total_of-no_hits : (s n : ℕ) → (total_of s (no_hits n) ≡ 0) × (self_of s (no_hits n) ≡ 0)
unfolding no_hits
total_of-no_hits s zero = (refl, refl)
total_of-no_hits zero (suc n) = (refl, refl)
total_of-no_hits (suc s) (suc n) = total_of-no_hits s n

-- A place in the tree is the root, or a node by its id.
abbrev pub same_place : Option ℕ → Option ℕ → Bool
same_place none none = true
same_place none (some j) = false
same_place (some i) none = false
same_place (some i) (some j) = i == j

pub same_place_sound : (p q : Option ℕ) → same_place p q ≡ true → p ≡ q
same_place_sound none none e = refl
same_place_sound none (some j) e = absurd (cc e)
same_place_sound (some i) none e = absurd (cc e)
same_place_sound (some i) (some j) e = ap some (ground arith)

pub same_place_refl : (p : Option ℕ) → same_place p p ≡ true
same_place_refl none = refl
same_place_refl (some i) = ground arith

abbrev pub IsPlace : Option ℕ → CallTree → Type 0
IsPlace none t = Unit {0}
IsPlace (some i) t = i < length t.nodes

abbrev pub node_hits : Option CallTreeNode → List HitCounts
node_hits none = []
node_hits (some node) = node.hits

abbrev pub hits_of : Option ℕ → CallTree → List HitCounts
hits_of none t = t.root.hits
hits_of (some i) t = node_hits (get_elem? t.nodes i)

-- An increment at a place.
abbrev pub hit_place : (HitCounts → HitCounts) → ℕ → Option ℕ → CallTree → CallTree
hit_place f source = update_node (λ n. record n { hits = count_hit f source n.hits })

node_hits-update_at :
    (f : HitCounts → HitCounts) (source i j : ℕ) (nodes : List CallTreeNode)
    → i < length nodes
    → node_hits
        (get_elem? (update_at (λ n. record n { hits = count_hit f source n.hits }) i nodes) j)
      ≡ (if i == j
          then count_hit f source (node_hits (get_elem? nodes j))
          else node_hits (get_elem? nodes j))
unfolding update_at
node_hits-update_at f source i j [] h = absurd (omega arith)
node_hits-update_at f source zero zero (n ∷ nodes) h = refl
node_hits-update_at f source zero (suc j) (n ∷ nodes) h =
    let e : (0 == suc j) ≡ false = ground arith in rw e refl
node_hits-update_at f source (suc i) zero (n ∷ nodes) h =
    let e : (suc i == 0) ≡ false = ground arith in rw e refl
node_hits-update_at f source (suc i) (suc j) (n ∷ nodes) h =
    let e : (suc i == suc j) ≡ (i == j) = ground arith in
    rw e (node_hits-update_at f source i j nodes (omega arith))

pub hits_of-hit_place :
    (f : HitCounts → HitCounts) (source : ℕ) (k p : Option ℕ) (t : CallTree)
    → IsPlace k t
    → hits_of p (hit_place f source k t)
      ≡ (if same_place k p then count_hit f source (hits_of p t) else hits_of p t)
hits_of-hit_place f source none none t h = refl
hits_of-hit_place f source none (some j) t h = refl
hits_of-hit_place f source (some i) none t h = refl
hits_of-hit_place f source (some i) (some j) t h = node_hits-update_at f source i j t.nodes h

children-update_at :
    (f : HitCounts → HitCounts) (source i j : ℕ) (nodes : List CallTreeNode)
    → children_or_none
        (get_elem? (update_at (λ n. record n { hits = count_hit f source n.hits }) i nodes) j)
      ≡ children_or_none (get_elem? nodes j)
unfolding update_at
children-update_at f source i j [] = refl
children-update_at f source zero zero (n ∷ nodes) = refl
children-update_at f source zero (suc j) (n ∷ nodes) = refl
children-update_at f source (suc i) zero (n ∷ nodes) = refl
children-update_at f source (suc i) (suc j) (n ∷ nodes) = children-update_at f source i j nodes

pub children_of-hit_place :
    (f : HitCounts → HitCounts) (source : ℕ) (k p : Option ℕ) (t : CallTree)
    → children_of p (hit_place f source k t) ≡ children_of p t
children_of-hit_place f source none none t = refl
children_of-hit_place f source none (some j) t = refl
children_of-hit_place f source (some i) none t = refl
children_of-hit_place f source (some i) (some j) t = children-update_at f source i j t.nodes

pub length-update_at :
    {A : Type 0} (f : A → A) (i : ℕ) (xs : List A) → length (update_at f i xs) ≡ length xs
unfolding update_at
length-update_at f i [] = refl
length-update_at f zero (x ∷ xs) = refl
length-update_at f (suc i) (x ∷ xs) = ap suc (length-update_at f i xs)
