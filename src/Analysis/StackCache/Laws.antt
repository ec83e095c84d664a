-- ===== src/Analysis/StackCache/Laws.antt =====
-- What stack_cache.hpp guarantees.
use snail_server.Common.{
  ℕ, ◌≡◌, ◌≢◌, sym, ap, ◌∙◌, inl, inr, ◌⊎◌, Bool, true, false, ◌||◌, List, [], ◌∷◌, ◌++◌, none,
  some, length, get_elem?, get_elem?-append_some, get_elem?-append_inv, get_elem?-append_end, ◌==◌,
  arith, Bool-cases, Option-cases,
}
use snail_server.Text.Codes.{equal_sound, equal_refl}
use snail_server.Common.AssocMap.{lookup, insert, lookup-insert}
use snail_server.Analysis.StackCache.{
  StackCache, empty_cache, stack_hasher, saved_indices, same_stack, find_saved, insert_stack,
  insert_all, get,
}

find_saved_sound :
    (stacks : List (List ℕ)) (stack is : List ℕ) (i : ℕ)
    → find_saved stacks stack is ≡ some i
    → get_elem? stacks i ≡ some stack
unfolding find_saved
find_saved_sound stacks stack [] i e = absurd (cc e)
find_saved_sound stacks stack (k ∷ is) i e =
    elim (Bool-cases (same_stack (get_elem? stacks k) stack)) [
      | inl s ↦ elim (Option-cases (get_elem? stacks k)) [
        | inl n ↦ absurd (ground arith)
        | inr (saved, f) ↦
            let same : saved ≡ stack = equal_sound saved stack (ground arith) in ground arith
      ]
      | inr d ↦ find_saved_sound stacks stack is i (ground arith)
    ]

module _ (ip_hash : ℕ → ℕ) (c : StackCache) (stack : List ℕ) where
  abbrev indices : List ℕ
  indices = saved_indices (lookup (stack_hasher ip_hash stack) c.stack_map)

  -- Inserting a stack gives an index at which exactly that stack is then stored.
  pub get-insert_stack :
      get (insert_stack ip_hash c stack).0 (insert_stack ip_hash c stack).1 ≡ some stack
  unfolding insert_stack
  get-insert_stack = elim (Option-cases (find_saved c.stacks stack indices)) [
    | inl n ↦ rw (n, insert_stack) (get_elem?-append_end c.stacks stack)
    | inr (i, f) ↦ rw (f, insert_stack) (find_saved_sound c.stacks stack indices i f)
  ]

  -- No index that was given out changes its stack.
  pub get-insert_stack_old :
      (i : ℕ) (old : List ℕ)
      → get c i ≡ some old
      → get (insert_stack ip_hash c stack).0 i ≡ some old
  unfolding insert_stack
  get-insert_stack_old i old g = elim (Option-cases (find_saved c.stacks stack indices)) [
    | inl n ↦ rw (n, insert_stack) (get_elem?-append_some c.stacks (stack ∷ []) i old g)
    | inr (k, f) ↦ rw (f, insert_stack) g
  ]

abbrev listed : ℕ → List ℕ → Bool
listed i [] = false
listed i (k ∷ ks) = k == i || listed i ks

listed-append : (i : ℕ) (ks : List ℕ) (n : ℕ) → listed i (ks ++ n ∷ []) ≡ (listed i ks || n == i)
listed-append i [] n = ground arith
listed-append i (k ∷ ks) n = ground (arith, listed-append i ks n)

-- A stored stack whose index is in the bucket is found.
find_saved_complete :
    (stacks : List (List ℕ)) (stack is : List ℕ) (i : ℕ)
    → listed i is ≡ true
    → get_elem? stacks i ≡ some stack
    → (k : ℕ) × (find_saved stacks stack is ≡ some k)
unfolding find_saved
find_saved_complete stacks stack [] i l g = absurd (cc l)
find_saved_complete stacks stack (k ∷ is) i l g =
    elim (Bool-cases (same_stack (get_elem? stacks k) stack)) [
      | inl s ↦ (k, rw s)
      | inr d ↦
          let later : listed i is ≡ true = ground (arith, ap same_stack g, equal_refl stack) in
          let (n, f) = find_saved_complete stacks stack is i later g in (n, rw d f)
    ]

-- Every stack is in the bucket of its hash, and is stored once.
record IsIndexed (ip_hash : ℕ → ℕ) (c : StackCache) : Type 0 where
  bucketed :
      (i : ℕ) (stack : List ℕ)
      → get c i ≡ some stack
      → listed i (saved_indices (lookup (stack_hasher ip_hash stack) c.stack_map)) ≡ true
  once : (i j : ℕ) (stack : List ℕ) → get c i ≡ some stack → get c j ≡ some stack → i ≡ j

module _ (ip_hash : ℕ → ℕ) (c : StackCache) (stack : List ℕ) (x : IsIndexed ip_hash c) where
  abbrev bucket : List ℕ
  bucket = saved_indices (lookup (stack_hasher ip_hash stack) c.stack_map)

  not_stored : find_saved c.stacks stack bucket ≡ none → (i : ℕ) → get c i ≢ some stack
  not_stored n i g =
      let (k, f) = find_saved_complete c.stacks stack bucket i (x.bucketed i stack g) g in cc

  abbrev new_map : List (ℕ × List ℕ)
  new_map = insert (stack_hasher ip_hash stack) (bucket ++ length c.stacks ∷ []) c.stack_map

  abbrev OldOrNew : ℕ → List ℕ → Type 0
  OldOrNew i st = (get c i ≡ some st) ⊎ ((i ≡ length c.stacks) × (st ≡ stack))

  new_bucketed :
      (i : ℕ) (st : List ℕ)
      → OldOrNew i st
      → listed i (saved_indices (lookup (stack_hasher ip_hash st) new_map)) ≡ true
  new_bucketed i st (inl g) = ground (
    arith,
    x.bucketed i st g,
    listed-append i bucket (length c.stacks),
    lookup-insert (stack_hasher ip_hash stack) (stack_hasher ip_hash st)
        (bucket ++ length c.stacks ∷ []) c.stack_map,
  )
  new_bucketed i st (inr (e, k)) = ground (
    arith,
    ap (stack_hasher ip_hash) k,
    listed-append i bucket (length c.stacks),
    lookup-insert (stack_hasher ip_hash stack) (stack_hasher ip_hash st)
        (bucket ++ length c.stacks ∷ []) c.stack_map,
  )

  new_once :
      find_saved c.stacks stack bucket ≡ none
      → (i j : ℕ) (st : List ℕ) → OldOrNew i st
      → OldOrNew j st
      → i ≡ j
  new_once n i j st (inl g) (inl h) = x.once i j st g h
  new_once n i j st (inl g) (inr (e, k)) = absurd (not_stored n i (g ∙ ap some k))
  new_once n i j st (inr (e, k)) (inl h) = absurd (not_stored n j (h ∙ ap some k))
  new_once n i j st (inr (e, k)) (inr (f, l)) = e ∙ sym f

  insert_stack-IsIndexed : IsIndexed ip_hash (insert_stack ip_hash c stack).0
  unfolding insert_stack
  insert_stack-IsIndexed = elim (Option-cases (find_saved c.stacks stack bucket)) [
    | inr (k, f) ↦
        rw (f, insert_stack)
          (record {
            bucketed = λ i st g. ground (
              arith,
              x.bucketed i st g,
              lookup-insert (stack_hasher ip_hash stack) (stack_hasher ip_hash st) bucket
                  c.stack_map,
            );
            once = x.once;
          })
    | inl n ↦
        rw (n, insert_stack)
          (record {
            bucketed = λ i st g. new_bucketed i st (get_elem?-append_inv c.stacks stack i st g);
            once = λ i j st g h.
                new_once n i j st (get_elem?-append_inv c.stacks stack i st g)
                  (get_elem?-append_inv c.stacks stack j st h);
          })
  ]

insert_all-IsIndexed :
    (ip_hash : ℕ → ℕ) (c : StackCache) (ss : List (List ℕ))
    → IsIndexed ip_hash c
    → IsIndexed ip_hash (insert_all ip_hash c ss)
unfolding insert_all
insert_all-IsIndexed ip_hash c [] x = x
insert_all-IsIndexed ip_hash c (s ∷ ss) x =
    insert_all-IsIndexed ip_hash (insert_stack ip_hash c s).0 ss
      (insert_stack-IsIndexed ip_hash c s x)

-- Whatever stacks were inserted into the empty cache, whatever the hash, two indices that hold the
-- same stack are the same index.
pub stored_once :
    (ip_hash : ℕ → ℕ) (ss : List (List ℕ)) (i j : ℕ) (stack : List ℕ)
    → get (insert_all ip_hash empty_cache ss) i ≡ some stack
    → get (insert_all ip_hash empty_cache ss) j ≡ some stack
    → i ≡ j
stored_once ip_hash ss =
    (insert_all-IsIndexed ip_hash empty_cache ss
      (record { bucketed = λ i st g. absurd (cc g); once = λ i j st g h. absurd (cc g) })).once
