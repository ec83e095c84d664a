-- ===== src/Analysis/PerfContext/Ids.antt =====
-- Unique ids lead back to their processes and threads.
use snail_server.Common.{
  ℕ, suc, ◌+◌, ◌<◌, ◌≡◌, refl, ◌∙◌, subst, true, false, List, [], ◌∷◌, Option, some, ◌==◌, arith,
  Bool-cases, inl, inr,
}
use snail_server.Common.AssocMap.{lookup, insert, lookup-insert}
use snail_server.Analysis.History.{Entry, History}
use snail_server.Analysis.PerfContext.{IdAt, PerfContext}
use snail_server.Analysis.PerfContext.Finish.{
  Lifetime, process_lifetime, thread_lifetime, end_by, assign, assign_all, length_of, keys_of,
  all_keys, assign_ids, first_process_id, first_thread_id,
}

module _ {D : Type 0} (l : Lifetime D) (unique_id : D → Option ℕ) where
  -- An end of life leaves the id.
  pub record IsLifetime : Type 0 where
    pub given : (n : ℕ) (d : D) → unique_id (l.with_unique_id n d) ≡ some n
    pub kept : (t : ℕ) (d : D) → unique_id (l.with_end t d) ≡ unique_id d

  -- Each entry has a unique id below `hi`, which leads to the entry's id and time.
  abbrev pub LeadBack : ℕ → List (ℕ × IdAt) → ℕ → List (Entry D) → Type 0
  LeadBack hi keys id [] = Unit {0}
  LeadBack hi keys id (e ∷ es) =
      ((n : ℕ) × (n < hi)
        × (unique_id e.payload ≡ some n)
        × (lookup n keys ≡ some (record { id = id; time = e.timestamp })))
      × LeadBack hi keys id es

  -- The same without the bound, and for all ids.
  abbrev pub IsFound : List (ℕ × IdAt) → ℕ → Entry D → Type 0
  IsFound keys id e =
      (n : ℕ) × (unique_id e.payload ≡ some n)
      × (lookup n keys ≡ some (record { id = id; time = e.timestamp }))

  abbrev pub AreFound : List (ℕ × IdAt) → ℕ → List (Entry D) → Type 0
  AreFound keys id [] = Unit {0}
  AreFound keys id (e ∷ es) = IsFound keys id e × AreFound keys id es

  abbrev pub AllFound : List (ℕ × IdAt) → History D → Type 0
  AllFound keys [] = Unit {0}
  AllFound keys ((id, es) ∷ more) = AreFound keys id es × AllFound keys more

  LeadBack-AreFound :
      (hi : ℕ) (keys : List (ℕ × IdAt)) (id : ℕ) (es : List (Entry D))
      → LeadBack hi keys id es
      → AreFound keys id es
  LeadBack-AreFound hi keys id [] h = tt
  LeadBack-AreFound hi keys id (e ∷ es) ((n, below, u, at), h) =
      ((n, u, at), LeadBack-AreFound hi keys id es h)

  module _ (laws : IsLifetime) where
    unique_id-end_by : (es : List (Entry D)) (d : D) → unique_id (end_by l es d) ≡ unique_id d
    unique_id-end_by [] d = refl
    unique_id-end_by (e ∷ es) d = elim (Bool-cases (l.has_end d)) [
      | inl b ↦ rw b refl
      | inr b ↦ rw b (laws.kept e.timestamp d)
    ]

    lookup-keys_of :
        (id next n : ℕ) (es : List (Entry D)) (keys : List (ℕ × IdAt))
        → n < next
        → lookup n (keys_of l id next es keys) ≡ lookup n keys
    unfolding keys_of
    lookup-keys_of id next n [] keys h = refl
    lookup-keys_of id next n (e ∷ es) keys h =
        let key : IdAt = record { id = id; time = e.timestamp } in
        let b : (next == n) ≡ false = ground arith in
        lookup-keys_of id (suc next) n es (insert next key keys) (omega arith)
        ∙ lookup-insert next n key keys
        ∙ rw b refl

    lookup-all_keys :
        (next n : ℕ) (h : History D) (keys : List (ℕ × IdAt))
        → n < next
        → lookup n (all_keys l next h keys) ≡ lookup n keys
    unfolding all_keys
    lookup-all_keys next n [] keys h = refl
    lookup-all_keys next n ((id, es) ∷ more) keys h =
        lookup-all_keys (next + length_of l es) n more (keys_of l id next es keys) (omega arith)
        ∙ lookup-keys_of id next n es keys h

    keys_of-LeadBack :
        (id next : ℕ) (es : List (Entry D)) (keys : List (ℕ × IdAt))
        → LeadBack (next + length_of l es) (keys_of l id next es keys) id (assign l next es)
    unfolding keys_of assign
    keys_of-LeadBack id next [] keys = tt
    keys_of-LeadBack id next (e ∷ es) keys =
        let key : IdAt = record { id = id; time = e.timestamp } in
        let same : (next == next) ≡ true = ground arith in
        let more : suc next + length_of l es ≡ next + suc (length_of l es) = omega arith in
        (
          (
            next,
            omega arith,
            unique_id-end_by es (l.with_unique_id next e.payload) ∙ laws.given next e.payload,
            lookup-keys_of id (suc next) next es (insert next key keys) (omega arith)
                ∙ lookup-insert next next key keys
                ∙ rw same refl,
          ),
          subst
              (λ hi.
                LeadBack hi (keys_of l id (suc next) es (insert next key keys)) id
                  (assign l (suc next) es))
              more (keys_of-LeadBack id (suc next) es (insert next key keys)),
        )

    -- Later ids change nothing.
    LeadBack-later :
        (hi id : ℕ) (es : List (Entry D)) (h : History D) (keys : List (ℕ × IdAt))
        → LeadBack hi keys id es
        → LeadBack hi (all_keys l hi h keys) id es
    LeadBack-later hi id [] h keys k = tt
    LeadBack-later hi id (e ∷ es) h keys ((n, below, u, at), k) =
        ((n, below, u, lookup-all_keys hi n h keys below ∙ at), LeadBack-later hi id es h keys k)

    pub all_keys-AllFound :
        (next : ℕ) (h : History D) (keys : List (ℕ × IdAt))
        → AllFound (all_keys l next h keys) (assign_all l next h)
    unfolding all_keys assign_all
    all_keys-AllFound next [] keys = tt
    all_keys-AllFound next ((id, es) ∷ more) keys =
        let hi = next + length_of l es in
        let keys' = keys_of l id next es keys in
        (
          LeadBack-AreFound hi (all_keys l hi more keys') id (assign l next es) (
              LeadBack-later hi id (assign l next es) more keys'
                (keys_of-LeadBack id next es keys)),
          all_keys-AllFound hi more keys',
        )

processes-IsLifetime : IsLifetime process_lifetime (λ d. d.unique_id)
processes-IsLifetime = record { given = λ n d. refl; kept = λ t d. refl }

threads-IsLifetime : IsLifetime thread_lifetime (λ d. d.unique_id)
threads-IsLifetime = record { given = λ n d. refl; kept = λ t d. refl }

-- After the ids are given out, every process and every thread has a unique id, and its key is found
-- under that id.
pub assign_ids-AllFound :
    (c : PerfContext)
    → AllFound process_lifetime
        (λ d. d.unique_id)
        (assign_ids c).unique_process_id_to_key
        (assign_ids c).processes
      × AllFound thread_lifetime
          (λ d. d.unique_id)
          (assign_ids c).unique_thread_id_to_key
          (assign_ids c).threads
assign_ids-AllFound c = (
  all_keys-AllFound process_lifetime (λ d. d.unique_id) processes-IsLifetime first_process_id
      c.processes c.unique_process_id_to_key,
  all_keys-AllFound thread_lifetime (λ d. d.unique_id) threads-IsLifetime first_thread_id c.threads
      c.unique_thread_id_to_key,
)
