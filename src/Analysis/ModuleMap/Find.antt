-- ===== src/Analysis/ModuleMap/Find.antt =====
-- What a search finds, by a description that does not search.
use snail_server.Common.{
  ℕ, ◌<◌, ◌≡◌, refl, sym, ◌∙◌, ◌&&◌, ap, subst, Bool, true, false, List, [], ◌∷◌, Option, none,
  some, ltb, leb, if◌then◌else◌, arith, Bool-cases, Option-cases, inl, inr,
}
use snail_server.Analysis.ModuleMap.{
  AddressRange, ModuleEntry, ModuleMap, contains, span_while, last_range, latest_of, find_active,
  find_in_range, module_of, find,
}
use snail_server.Analysis.ModuleMap.Laws.{Between}
use snail_server.Analysis.ModuleMap.Insert.{IsOrdered}

-- The range that contains an address.
abbrev pub covering : ℕ → List AddressRange → Option AddressRange
covering address [] = none
covering address (r ∷ rs) = if contains address r then some r else covering address rs

abbrev pub or_other : {A : Type 0} → Option A → Option A → Option A
or_other none other = other
or_other (some x) other = some x

-- The last entry that was loaded by a time.
abbrev pub newest_by : ℕ → List ModuleEntry → Option ModuleEntry
newest_by timestamp [] = none
newest_by timestamp (e ∷ es) =
    or_other (newest_by timestamp es) (if leb e.load_timestamp timestamp then some e else none)

-- The first entry stands in for a search that is not strict.
abbrev pub active_by : ℕ → Bool → List ModuleEntry → Option ModuleEntry
active_by timestamp strict [] = none
active_by timestamp strict (e ∷ es) =
    or_other (newest_by timestamp (e ∷ es)) (if strict then none else some e)

abbrev pub active_in : ℕ → Bool → Option AddressRange → Option ModuleEntry
active_in timestamp strict none = none
active_in timestamp strict (some r) = active_by timestamp strict r.active_modules

some_inj : (e g : ModuleEntry) → some e ≡ some g → e ≡ g
some_inj e g h = cc h

newest_by-early :
    (timestamp : ℕ) (es : List ModuleEntry) (g : ModuleEntry)
    → newest_by timestamp es ≡ some g
    → ltb timestamp g.load_timestamp ≡ false
newest_by-early timestamp [] g h = absurd (cc h)
newest_by-early timestamp (e ∷ es) g h = elim (Option-cases (newest_by timestamp es)) [
  | inr (f, q) ↦ newest_by-early timestamp es g (q ∙ (rw q at h))
  | inl q ↦ elim (Bool-cases (leb e.load_timestamp timestamp)) [
    | inl b ↦
        let same : e ≡ g = some_inj e g (rw (q, b) at h) in
        subst (λ f. ltb timestamp f.load_timestamp ≡ false) same (ground arith)
    | inr b ↦ absurd (cc (rw (q, b) at h))
  ]
]

covering-none :
    (address lo hi : ℕ) (rs : List AddressRange)
    → Between lo rs hi
    → address < lo
    → covering address rs ≡ none
covering-none address lo hi [] h l = refl
covering-none address lo hi (r ∷ rs) h l =
    let e : contains address r ≡ false = ground arith in
    rw e (covering-none address r.end_address hi rs h.2 (omega arith))

abbrev begins : ℕ → AddressRange → Bool
begins address r = leb r.begin_address address

span_while-begins :
    (address lo hi : ℕ) (rs : List AddressRange)
    → Between lo rs hi
    → address < lo
    → (span_while (begins address) rs).0 ≡ []
span_while-begins address lo hi [] h l = refl
span_while-begins address lo hi (r ∷ rs) h l =
    let e : leb r.begin_address address ≡ false = ground arith in rw e refl

abbrev if_contains : ℕ → Option AddressRange → Option AddressRange
if_contains address none = none
if_contains address (some r) = if contains address r then some r else none

-- A range that does not contain the address does not matter before others.
last_range-skip :
    {D : Type 0} (same_payload : D → D → Bool) (address : ℕ) (r : AddressRange)
    (rs : List AddressRange)
    → contains address r ≡ false
    → if_contains address (last_range same_payload (r ∷ rs))
      ≡ if_contains address (last_range same_payload rs)
last_range-skip same_payload address r [] e = rw e refl
last_range-skip same_payload address r (s ∷ rs) e = refl

-- In ordered ranges the last one that begins at the address or before is the only one that may contain it.
last_range-covering :
    {D : Type 0} (same_payload : D → D → Bool) (address lo hi : ℕ) (rs : List AddressRange)
    → Between lo rs hi
    → if_contains address (last_range same_payload (span_while (begins address) rs).0)
      ≡ covering address rs
last_range-covering same_payload address lo hi [] h = refl
last_range-covering same_payload address lo hi (r ∷ rs) h =
    elim (Bool-cases (leb r.begin_address address)) [
      | inr b ↦
          let none_begins : (span_while (begins address) (r ∷ rs)).0 ≡ [] = rw b refl in
          let behind : Between r.begin_address (r ∷ rs) hi = (omega arith, h.1, h.2) in
          ap (λ found. if_contains address (last_range same_payload found)) none_begins
          ∙ sym (covering-none address r.begin_address hi (r ∷ rs) behind (ground arith))
      | inl b ↦
          let last : List AddressRange → Option AddressRange =
            λ found. if_contains address (last_range same_payload found) in
          let first : (span_while (begins address) (r ∷ rs)).0
              ≡ r ∷ (span_while (begins address) rs).0 =
            rw b refl in
          ap last first ∙ elim (Bool-cases (contains address r)) [
            | inl c ↦
                let before : address < r.end_address = ground arith in
                ap (λ more. last (r ∷ more))
                  (span_while-begins address r.end_address hi rs h.2 before)
                ∙ ap (λ t. if t then some r else none) c
                ∙ ap (λ t. if t then some r else covering address rs) (sym c)
            | inr c ↦
                last_range-skip same_payload address r (span_while (begins address) rs).0 c
                ∙ last_range-covering same_payload address r.end_address hi rs h.2
                ∙ ap (λ t. if t then some r else covering address rs) (sym c)
          ]
    ]

abbrev or_first : ModuleEntry → Option ModuleEntry → ModuleEntry
or_first e none = e
or_first e (some f) = f

module _ {D : Type 0} (same_payload : D → D → Bool) where
  latest_of-newest_by :
      (timestamp : ℕ) (e : ModuleEntry) (es : List ModuleEntry)
      → latest_of same_payload timestamp e es ≡ or_first e (newest_by timestamp es)
  latest_of-newest_by timestamp e [] = refl
  latest_of-newest_by timestamp e (f ∷ es) =
      ap (λ later. if ltb timestamp later.load_timestamp then e else later)
        (latest_of-newest_by timestamp f es)
      ∙ elim (Option-cases (newest_by timestamp es)) [
        | inr (g, q) ↦ let early = newest_by-early timestamp es g q in rw (q, early) refl
        | inl q ↦ elim (Bool-cases (leb f.load_timestamp timestamp)) [
          | inl b ↦
              let early : ltb timestamp f.load_timestamp ≡ false = ground arith in
              rw (q, b, early) refl
          | inr b ↦
              let late : ltb timestamp f.load_timestamp ≡ true = ground arith in
              rw (q, b, late) refl
        ]
      ]

  find_active-active_by :
      (timestamp : ℕ) (strict : Bool) (es : List ModuleEntry)
      → find_active same_payload timestamp strict es ≡ active_by timestamp strict es
  find_active-active_by timestamp strict [] = refl
  find_active-active_by timestamp strict (e ∷ es) =
      ap (λ latest. if strict && ltb timestamp latest.load_timestamp then none else some latest)
        (latest_of-newest_by timestamp e es)
      ∙ elim (Bool-cases strict) [
        | inl s ↦ elim (Option-cases (newest_by timestamp es)) [
          | inr (g, q) ↦ let early = newest_by-early timestamp es g q in rw (s, q, early) refl
          | inl q ↦ elim (Bool-cases (leb e.load_timestamp timestamp)) [
            | inl b ↦
                let early : ltb timestamp e.load_timestamp ≡ false = ground arith in
                rw (s, q, b, early) refl
            | inr b ↦
                let late : ltb timestamp e.load_timestamp ≡ true = ground arith in
                rw (s, q, b, late) refl
          ]
        ]
        | inr s ↦ elim (Option-cases (newest_by timestamp es)) [
          | inr (g, q) ↦ rw (s, q) refl
          | inl q ↦ elim (Bool-cases (leb e.load_timestamp timestamp)) [
            | inl b ↦ rw (s, q, b) refl
            | inr b ↦ rw (s, q, b) refl
          ]
        ]
      ]

  find_in_range-active_in :
      (address timestamp : ℕ) (strict : Bool) (o : Option AddressRange)
      → find_in_range same_payload address timestamp strict o
        ≡ active_in timestamp strict (if_contains address o)
  find_in_range-active_in address timestamp strict none = refl
  find_in_range-active_in address timestamp strict (some r) =
      elim (Bool-cases (contains address r)) [
        | inl c ↦ rw c (find_active-active_by timestamp strict r.active_modules)
        | inr c ↦ rw c refl
      ]

  -- In ordered ranges, a search finds the module of the last entry, in the range that contains the address, that
  -- was loaded by the time that is asked for; where there is none, a strict search finds nothing, and one that
  -- is not strict the module of the first entry. It finds nothing where no range contains the address.
  pub find-newest_by :
      (address timestamp : ℕ) (strict : Bool) (map : ModuleMap same_payload)
      → IsOrdered map.address_ranges
      → find same_payload address timestamp strict map
        ≡ module_of same_payload map.modules
            (active_in timestamp strict (covering address map.address_ranges))
  unfolding find
  find-newest_by address timestamp strict map (hi, o) = ap (module_of same_payload map.modules) (
      find_in_range-active_in address timestamp strict _
      ∙ ap (active_in timestamp strict)
          (last_range-covering same_payload address 0 hi map.address_ranges o))
