-- ===== src/PerfData/Owners.antt =====
-- Which attributes an id leads to, and what `validate` makes sure of.
use snail_server.Common.{
  ℕ, zero, suc, ◌<◌, ◌≡◌, ◌≢◌, refl, sym, ◌∙◌, ap, subst, Bool, true, false, not, ◌||◌, List, [],
  ◌∷◌, ◌++◌, Option, none, some, ◌==◌, length, get_elem?, if◌then◌else◌, ◌&&◌, append-nil,
  append_assoc, ap₂, arith, Bool-cases, inl, inr, length-append, get_elem?-append_end,
}
use snail_server.Common.AssocMap.{lookup, insert, lookup-insert}
use snail_server.Common.Bytes.{ByteOrder}
use snail_server.Common.Run.{Run, finished, throws, in_bounds, ◌>>=◌}
use snail_server.PerfData.Attributes.{
  EventAttributes, EventAttributesDatabase, AttributeAndIds, PerfError, no_attributes_for_id,
  add_ids, add_entry, add_entries, placed, fill_database, sample_id_all, event_id, found_attributes,
  attributes_of_id, choose_attributes, get_event_attributes, sample_type,
}
use snail_server.PerfData.Flags.{test}
use snail_server.PerfData.Validated.{with_offsets, validate_iff}

-- Whether an id is listed, and the attributes of the last entry that lists it.
abbrev pub is_listed : ℕ → List ℕ → Bool
is_listed id [] = false
is_listed id (i ∷ is) = (i == id) || is_listed id is

abbrev pub or_earlier : Option EventAttributes → Option EventAttributes → Option EventAttributes
or_earlier none earlier = earlier
or_earlier (some a) earlier = some a

abbrev pub owner : ℕ → List AttributeAndIds → Option EventAttributes
owner id [] = none
owner id (e ∷ es) =
    or_earlier (owner id es) (if is_listed id e.ids then some e.attributes else none)

lookup-add_ids :
    (index : ℕ) (ids : List ℕ) (found : List (ℕ × ℕ)) (id : ℕ)
    → lookup id (add_ids index ids found)
      ≡ (if is_listed id ids then some index else lookup id found)
lookup-add_ids index [] found id = refl
lookup-add_ids index (i ∷ is) found id =
    lookup-add_ids index is (insert i index found) id
    ∙ ap (λ o. if is_listed id is then some index else o) (lookup-insert i id index found)
    ∙ elim (Bool-cases (i == id)) [
      | inl b ↦ elim (Bool-cases (is_listed id is)) [
        | inl l ↦ rw (b, l) refl
        | inr l ↦ rw (b, l) refl
      ]
      | inr b ↦ rw b refl
    ]

-- What a pointer leads to.
abbrev at_index : List EventAttributes → Option ℕ → Option EventAttributes
at_index all none = none
at_index all (some index) = get_elem? all index

-- No pointer leads nowhere.
abbrev AreInside : EventAttributesDatabase → Type 0
AreInside db =
    (id index : ℕ) → lookup id db.id_to_attributes ≡ some index → index < length db.all_attributes

length_one_more : {A : Type 0} (xs : List A) (x : A) → length (xs ++ x ∷ []) ≡ suc (length xs)
length_one_more xs x = omega (arith, length-append xs (x ∷ []))

add_entry-AreInside :
    (e : AttributeAndIds) (db : EventAttributesDatabase) → AreInside db → AreInside (add_entry e db)
add_entry-AreInside e db h id index k =
    let l = length_one_more db.all_attributes e.attributes in
    let found : (if is_listed id e.ids
          then some (length db.all_attributes)
          else lookup id db.id_to_attributes)
        ≡ some index =
      sym (lookup-add_ids (length db.all_attributes) e.ids db.id_to_attributes id) ∙ k in
    elim (Bool-cases (is_listed id e.ids)) [
      | inl b ↦
          let i : some (length db.all_attributes) ≡ some index =
            ap (λ c. if c then some (length db.all_attributes) else lookup id db.id_to_attributes)
              (sym b)
            ∙ found in
          ground (arith, l)
      | inr b ↦
          let i : lookup id db.id_to_attributes ≡ some index =
            ap (λ c. if c then some (length db.all_attributes) else lookup id db.id_to_attributes)
              (sym b)
            ∙ found in
          omega (arith, l, h id index i)
    ]

get_elem?-inside :
    {A : Type 0} (xs : List A) (i : ℕ) (x : A)
    → i < length xs
    → get_elem? (xs ++ x ∷ []) i ≡ get_elem? xs i
get_elem?-inside [] i x h = absurd (omega arith)
get_elem?-inside (y ∷ ys) zero x h = refl
get_elem?-inside (y ∷ ys) (suc i) x h = get_elem?-inside ys i x (omega arith)

at_index-inside :
    (all : List EventAttributes) (a : EventAttributes) (o : Option ℕ)
    → ((index : ℕ) → o ≡ some index → index < length all)
    → at_index (all ++ a ∷ []) o ≡ at_index all o
at_index-inside all a none h = refl
at_index-inside all a (some index) h = get_elem?-inside all index a (h index refl)

at_index-add_entry :
    (e : AttributeAndIds) (db : EventAttributesDatabase) (id : ℕ)
    → AreInside db
    → at_index (add_entry e db).all_attributes (lookup id (add_entry e db).id_to_attributes)
      ≡ or_earlier
          (if is_listed id e.ids then some e.attributes else none)
          (at_index db.all_attributes (lookup id db.id_to_attributes))
at_index-add_entry e db id h =
    ap (at_index (db.all_attributes ++ e.attributes ∷ []))
      (lookup-add_ids (length db.all_attributes) e.ids db.id_to_attributes id)
    ∙ elim (Bool-cases (is_listed id e.ids)) [
      | inl b ↦ rw b (get_elem?-append_end db.all_attributes e.attributes)
      | inr b ↦
          rw b
            (at_index-inside db.all_attributes e.attributes (lookup id db.id_to_attributes) (h id))
    ]

or_earlier_assoc :
    (a b c : Option EventAttributes) → or_earlier a (or_earlier b c) ≡ or_earlier (or_earlier a b) c
or_earlier_assoc none b c = refl
or_earlier_assoc (some x) b c = refl

-- After entries are added, an id leads to its owner, or where it led before.
at_index-add_entries :
    (es : List AttributeAndIds) (db : EventAttributesDatabase) (id : ℕ)
    → AreInside db
    → at_index (add_entries es db).all_attributes (lookup id (add_entries es db).id_to_attributes)
      ≡ or_earlier (owner id es) (at_index db.all_attributes (lookup id db.id_to_attributes))
unfolding add_entries
at_index-add_entries [] db id h = refl
at_index-add_entries (e ∷ es) db id h =
    at_index-add_entries es (add_entry e db) id (add_entry-AreInside e db h)
    ∙ ap (or_earlier (owner id es)) (at_index-add_entry e db id h)
    ∙ or_earlier_assoc (owner id es) _ _

add_entries-AreInside :
    (es : List AttributeAndIds) (db : EventAttributesDatabase)
    → AreInside db
    → AreInside (add_entries es db)
unfolding add_entries
add_entries-AreInside [] db h = h
add_entries-AreInside (e ∷ es) db h =
    add_entries-AreInside es (add_entry e db) (add_entry-AreInside e db h)

-- What is answered for an owner.
abbrev pub answer : Option EventAttributes → Run PerfError EventAttributes
answer none = throws no_attributes_for_id
answer (some a) = finished a

get_elem?-some :
    {A : Type 0} (xs : List A) (i : ℕ) → i < length xs → (x : A) × (get_elem? xs i ≡ some x)
get_elem?-some [] i h = absurd (omega arith)
get_elem?-some (x ∷ xs) zero h = (x, refl)
get_elem?-some (x ∷ xs) (suc i) h = get_elem?-some xs i (omega arith)

found_attributes-answer :
    (db : EventAttributesDatabase) (o : Option ℕ)
    → ((index : ℕ) → o ≡ some index → index < length db.all_attributes)
    → found_attributes db o ≡ answer (at_index db.all_attributes o)
found_attributes-answer db none h = refl
found_attributes-answer db (some index) h =
    let e = get_elem?-some db.all_attributes index (h index refl) in
    ap (λ o. in_bounds {E = PerfError} o) e.1 ∙ ap answer (sym e.1)

abbrev pub attributes_of : List AttributeAndIds → List EventAttributes
attributes_of [] = []
attributes_of (e ∷ es) = e.attributes ∷ attributes_of es

add_entries-all :
    (es : List AttributeAndIds) (db : EventAttributesDatabase)
    → (add_entries es db).all_attributes ≡ db.all_attributes ++ attributes_of es
unfolding add_entries
add_entries-all [] db = sym (append-nil db.all_attributes)
add_entries-all (e ∷ es) db =
    add_entries-all es (add_entry e db)
    ∙ append_assoc db.all_attributes (e.attributes ∷ []) (attributes_of es)

with_offsets-same :
    (all : List EventAttributes) (db : EventAttributesDatabase)
    → ((with_offsets all db).all_attributes ≡ db.all_attributes)
      × ((with_offsets all db).id_to_attributes ≡ db.id_to_attributes)
with_offsets-same [] db = (refl, refl)
with_offsets-same (main ∷ others) db = (refl, refl)

-- Where the events of the type carry an id.
abbrev pub carries_id : ℕ → EventAttributes → Bool
carries_id type main = test sample_id_all main.flags || (type == sample_type)

choose_attributes-id :
    (order : ByteOrder) (type id : ℕ) (event_data : List ℕ) (db : EventAttributesDatabase)
    (main second : EventAttributes) (others : List EventAttributes)
    → carries_id type main ≡ true
    → event_id order type event_data db ≡ finished id
    → id ≢ 0
    → choose_attributes order type event_data db (main ∷ second ∷ others)
      ≡ found_attributes db (lookup id db.id_to_attributes)
choose_attributes-id order type id event_data db main second others c e n =
    let found = event_id order type event_data db >>= attributes_of_id main db in
    let many : (length (main ∷ second ∷ others) == 1) ≡ false = ground arith in
    let all : (not (test sample_id_all main.flags) && not (type == sample_type)) ≡ false =
      elim (Bool-cases (test sample_id_all main.flags)) [
        | inl b ↦ rw b refl
        | inr b ↦ elim (Bool-cases (type == sample_type)) [
          | inl d ↦ rw (b, d) refl
          | inr d ↦ absurd (ground (arith, b, d, c))
        ]
      ] in
    let nonzero : (id == 0) ≡ false = ground arith in
    ap₂ (λ x y. if x then finished main else (if y then finished main else found)) many all
    ∙ ap (λ r. r >>= attributes_of_id main db) e
    ∙ ap (λ b. if b then finished main else found_attributes db (lookup id db.id_to_attributes))
        nonzero

nothing-AreInside :
    (old : EventAttributesDatabase)
    → AreInside (record old { all_attributes = []; id_to_attributes = [] })
unfolding lookup
nothing-AreInside old i index k = absurd (ground (arith, k))

nowhere_else : (o : Option EventAttributes) → or_earlier o none ≡ o
nowhere_else none = refl
nowhere_else (some a) = refl

-- In a database filled from two entries at least, an event with an id other than zero gets the attributes
-- of the last entry that lists the id, by the address of its copy, and an exception is thrown where none does.
pub get_event_attributes-owner :
    (first second : AttributeAndIds) (more : List AttributeAndIds)
    (old db : EventAttributesDatabase) (order : ByteOrder) (type id : ℕ) (event_data : List ℕ)
    → fill_database (first ∷ second ∷ more) old ≡ finished db
    → carries_id type first.attributes ≡ true
    → event_id order type event_data db ≡ finished id
    → id ≢ 0
    → get_event_attributes order type event_data db
      ≡ answer (owner id (placed 0 (first ∷ second ∷ more)))
unfolding fill_database get_event_attributes lookup
get_event_attributes-owner first second more old db order type id event_data f c e n =
    let es = placed 0 (first ∷ second ∷ more) in
    let cleared : EventAttributesDatabase = record old {
      all_attributes = [];
      id_to_attributes = [];
    } in
    let none_yet : AreInside cleared = nothing-AreInside old in
    let filled = add_entries es cleared in
    let d : db ≡ with_offsets filled.all_attributes filled = ((validate_iff filled db).0 f).1 in
    let same = with_offsets-same filled.all_attributes filled in
    let all_same : db.all_attributes ≡ filled.all_attributes =
      ap (λ x. x.all_attributes) d ∙ same.0 in
    let ids_same : db.id_to_attributes ≡ filled.id_to_attributes =
      ap (λ x. x.id_to_attributes) d ∙ same.1 in
    let inside : AreInside db = λ i index k.
      subst (λ (all : List EventAttributes). index < length all) (sym all_same)
        (add_entries-AreInside es cleared none_yet i index (ap (lookup i) (sym ids_same) ∙ k)) in
    ap (choose_attributes order type event_data db) (all_same ∙ add_entries-all es cleared)
    ∙ choose_attributes-id order type id event_data db (record first.attributes { address = 0 })
        (record second.attributes { address = 1 }) (attributes_of (placed 2 more)) c e n
    ∙ found_attributes-answer db (lookup id db.id_to_attributes) (inside id)
    ∙ ap answer (
        ap₂ (λ all ids. at_index all (lookup id ids)) all_same ids_same
        ∙ at_index-add_entries es cleared id none_yet
        ∙ nowhere_else (owner id es))
