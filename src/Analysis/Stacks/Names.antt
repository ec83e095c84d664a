-- ===== src/Analysis/Stacks/Names.antt =====
-- A vector of things with positions as ids and a map from their names: what `get_or_create_module`,
-- `get_or_create_function` and `get_or_create_file` of snail/analysis/analysis.cpp share.
use snail_server.Common.{
  ℕ, ◌≡◌, refl, sym, ◌∙◌, ap, subst, Bool, true, List, [], ◌∷◌, ◌++◌, Option, none, some, inl, inr,
  if◌then◌else◌, length, get_elem?, get_elem?-append_some, get_elem?-append_end,
  get_elem?-append_inv, arith, Option-cases, Bool-cases,
}

-- A type of names with the equality that the maps use.
pub record Key (K : Type 0) : Type 0 where
  pub same : K → K → Bool
  pub same_sound : (a b : K) → same a b ≡ true → a ≡ b
  pub same_refl : (a : K) → same a a ≡ true

-- The vector, and the map from the names to positions.
pub record Table (K I : Type 0) : Type 0 where
  pub items : List I
  pub by_name : List (K × ℕ)

module _ {K : Type 0} (k : Key K) where
  open k use {same}

  unfoldable pub find_name : K → List (K × ℕ) → Option ℕ
  find_name name [] = none
  find_name name ((key, id) ∷ names) =
      let rest = find_name name names in if same key name then some id else rest

  pub find_name-new :
      (name other : K) (id : ℕ) (names : List (K × ℕ))
      → find_name name ((other, id) ∷ names)
        ≡ (if same other name then some id else find_name name names)
  unfolding find_name
  find_name-new name other id names = refl

module _ {K I : Type 0} (k : Key K) where
  open k use {same, same_sound, same_refl}

  abbrev pub create_missing : (ℕ → I) → K → Table K I → Option ℕ → ℕ × Table K I
  create_missing make name t (some id) = (id, t)
  create_missing make name t none =
      let id = length t.items in
      (id, record { items = t.items ++ make id ∷ []; by_name = (name, id) ∷ t.by_name })

  -- The position of the thing of that name, which is made if there is none yet.
  unfoldable pub get_or_create : (ℕ → I) → K → Table K I → ℕ × Table K I
  get_or_create make name t = create_missing make name t (find_name k name t.by_name)

  -- Each thing stands at its id, and the map leads from its name there.
  pub record IsIndexed (id_of : I → ℕ) (name_of : I → K) (t : Table K I) : Type 0 where
    pub found :
        (name : K) (id : ℕ)
        → find_name k name t.by_name ≡ some id
        → (item : I) × (get_elem? t.items id ≡ some item) × (name_of item ≡ name)
    pub stored :
        (id : ℕ) (item : I)
        → get_elem? t.items id ≡ some item
        → (id_of item ≡ id) × (find_name k (name_of item) t.by_name ≡ some id)

  created-IsIndexed :
      (id_of : I → ℕ) (name_of : I → K) (make : ℕ → I) (name : K) (t : Table K I)
      → ((id : ℕ) → (id_of (make id) ≡ id) × (name_of (make id) ≡ name))
      → find_name k name t.by_name ≡ none
      → IsIndexed id_of name_of t
      → IsIndexed id_of name_of (create_missing make name t none).1
  created-IsIndexed id_of name_of make name t m n x = record {
    found = λ other id e. elim (Bool-cases (same name other)) [
      | inl b ↦
          let here : length t.items ≡ id =
            ground (arith, find_name-new k other name (length t.items) t.by_name) in
          (
            make (length t.items),
            subst
                (λ i.
                  get_elem? (t.items ++ make (length t.items) ∷ []) i
                  ≡ some (make (length t.items)))
                here (get_elem?-append_end t.items (make (length t.items))),
            (m (length t.items)).1 ∙ same_sound name other b,
          )
      | inr b ↦
          let (item, g, o) =
            x.found other id
              (ground (arith, find_name-new k other name (length t.items) t.by_name)) in
          (item, get_elem?-append_some t.items _ id item g, o)
    ];
    stored = λ id item g. elim (get_elem?-append_inv t.items (make (length t.items)) id item g) [
      | inl o ↦
          let (i, f) = x.stored id item o in
          (
            i,
            elim (Bool-cases (same name (name_of item))) [
              | inl b ↦
                  let e : find_name k name t.by_name ≡ some id =
                    subst (λ y. find_name k y t.by_name ≡ some id) (sym (same_sound name _ b)) f in
                  absurd (ground arith)
              | inr b ↦
                  ground (arith, find_name-new k (name_of item) name (length t.items) t.by_name)
            ],
          )
      | inr (e, e') ↦
          let (i, o) = m (length t.items) in
          (
            ap id_of e' ∙ i ∙ sym e,
            ground (
              arith,
              e,
              ap name_of e',
              o,
              same_refl name,
              find_name-new k name name (length t.items) t.by_name,
            ),
          )
    ];
  }

  -- Every thing stands at its id and under its name, each name once, and this stays so; the id that is
  -- returned is that of the thing with the name that was asked for.
  pub get_or_create-IsIndexed :
      (id_of : I → ℕ) (name_of : I → K) (make : ℕ → I) (name : K) (t : Table K I)
      → ((id : ℕ) → (id_of (make id) ≡ id) × (name_of (make id) ≡ name))
      → IsIndexed id_of name_of t
      → IsIndexed id_of name_of (get_or_create make name t).1
        × ((item : I) × (get_elem? (get_or_create make name t).1.items (get_or_create make name t).0
              ≡ some item)
            × (id_of item ≡ (get_or_create make name t).0)
            × (name_of item ≡ name))
  unfolding get_or_create
  get_or_create-IsIndexed id_of name_of make name t m x =
      elim (Option-cases (find_name k name t.by_name)) [
        | inr (id, e) ↦
            let (item, g, n) = x.found name id e in rw e (x, (item, g, (x.stored id item g).0, n))
        | inl e ↦ rw e (
          created-IsIndexed id_of name_of make name t m e x,
          (make (length t.items), get_elem?-append_end t.items _, (m _).0, (m _).1),
        )
      ]
