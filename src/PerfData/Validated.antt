-- ===== src/PerfData/Validated.antt =====
-- What `validate` makes sure of.
use snail_server.Common.{
  ℕ, ◌≡◌, refl, sym, ◌∙◌, ap, Bool, true, false, not, List, [], ◌∷◌, Option, none, some, ◌==◌,
  if◌then◌else◌, ◌&&◌, ◌↔◌, arith, Bool-cases, inl, inr,
}
use snail_server.Common.Run.{finished, throws}
use snail_server.PerfData.Attributes.{
  EventAttributes, EventAttributesDatabase, PerfError, validate, validate_all, check_attributes,
  set_offsets, or_throw, calculate_id_offset, calculate_id_back_offset, same_offset, same_bit,
  sample_id_all, non_matching_read_format, read_format_id,
}
use snail_server.PerfData.Flags.{test}
use snail_server.PerfData.SampleFormat

-- The same id positions, `sample_id_all` and read format.
pub record IsLike (main a : EventAttributes) : Type 0 where
  pub same_id_offset : calculate_id_offset a.sample_format ≡ calculate_id_offset main.sample_format
  pub same_id_back_offset :
      calculate_id_back_offset a.sample_format ≡ calculate_id_back_offset main.sample_format
  pub same_sample_id_all : test sample_id_all a.flags ≡ test sample_id_all main.flags
  pub same_read_format : a.read_format ≡ main.read_format

abbrev pub AreLike : EventAttributes → List EventAttributes → Type 0
AreLike main [] = Unit {0}
AreLike main (a ∷ others) = IsLike main a × AreLike main others

same_offset_sound : (a b : Option ℕ) → same_offset a b ≡ true → b ≡ a
same_offset_sound none none e = refl
same_offset_sound none (some n) e = absurd (cc e)
same_offset_sound (some m) none e = absurd (cc e)
same_offset_sound (some m) (some n) e = ap some (ground arith)

same_bit_sound : (a b : Bool) → same_bit a b ≡ true → b ≡ a
same_bit_sound true b e = e
same_bit_sound false true e = cc
same_bit_sound false false e = refl

check_attributes-AreLike :
    (main : EventAttributes) (others : List EventAttributes)
    → check_attributes main others ≡ none
    → AreLike main others
unfolding check_attributes
check_attributes-AreLike main [] e = tt
check_attributes-AreLike main (a ∷ others) e =
    elim (Bool-cases (
      same_offset (calculate_id_offset main.sample_format) (calculate_id_offset a.sample_format))) [
        | inr b ↦ absurd (ground (arith, b, e))
        | inl b ↦
            elim (Bool-cases (
              same_offset (calculate_id_back_offset main.sample_format)
                (calculate_id_back_offset a.sample_format))) [
                  | inr c ↦ absurd (ground (arith, b, c, e))
                  | inl c ↦
                      elim (Bool-cases
                        (same_bit (test sample_id_all main.flags) (test sample_id_all a.flags))) [
                          | inr d ↦ absurd (ground (arith, b, c, d, e))
                          | inl d ↦ elim (Bool-cases (main.read_format == a.read_format)) [
                            | inr f ↦ absurd (ground (arith, b, c, d, f, e))
                            | inl f ↦ (
                              record {
                                same_id_offset = same_offset_sound _ _ b;
                                same_id_back_offset = same_offset_sound _ _ c;
                                same_sample_id_all = same_bit_sound _ _ d;
                                same_read_format = ground arith;
                              },
                              check_attributes-AreLike main others (ground (arith, b, c, d, f, e)),
                            )
                          ]
                        ]
                ]
      ]

same_offset_complete : (a b : Option ℕ) → b ≡ a → same_offset a b ≡ true
same_offset_complete none b e = rw e refl
same_offset_complete (some n) b e = rw e (ground arith)

same_bit_complete : (a b : Bool) → b ≡ a → same_bit a b ≡ true
same_bit_complete true b e = rw e refl
same_bit_complete false b e = rw e refl

AreLike-check_attributes :
    (main : EventAttributes) (others : List EventAttributes)
    → AreLike main others
    → check_attributes main others ≡ none
unfolding check_attributes
AreLike-check_attributes main [] h = refl
AreLike-check_attributes main (a ∷ others) h =
    let b : same_offset (calculate_id_offset main.sample_format)
          (calculate_id_offset a.sample_format)
        ≡ true =
      same_offset_complete _ _ h.0.same_id_offset in
    let c : same_offset (calculate_id_back_offset main.sample_format)
          (calculate_id_back_offset a.sample_format)
        ≡ true =
      same_offset_complete _ _ h.0.same_id_back_offset in
    let d : same_bit (test sample_id_all main.flags) (test sample_id_all a.flags) ≡ true =
      same_bit_complete _ _ h.0.same_sample_id_all in
    let f : (main.read_format == a.read_format) ≡ true = ground (arith, h.0.same_read_format) in
    rw (b, c, d, f) (AreLike-check_attributes main others h.1)

-- The first attributes can be read, and all others are like them; there is at least one.
abbrev pub AreConsistent : List EventAttributes → Type 0
AreConsistent [] = ⊥
AreConsistent (main ∷ others) =
    ((test SampleFormat.read main.sample_format && not (test read_format_id main.read_format))
      ≡ false)
    × AreLike main (main ∷ others)

abbrev pub with_offsets : List EventAttributes → EventAttributesDatabase → EventAttributesDatabase
with_offsets [] db = db
with_offsets (main ∷ others) db = set_offsets main db

or_throw-finished :
    (o : Option PerfError) (db d : EventAttributesDatabase)
    → or_throw o db ≡ finished d
    → (o ≡ none) × (d ≡ db)
or_throw-finished none db d e = (refl, cc)
or_throw-finished (some x) db d e = absurd (cc e)

validate_all_sound :
    (all : List EventAttributes) (db d : EventAttributesDatabase)
    → validate_all all db ≡ finished d
    → AreConsistent all × (d ≡ with_offsets all db)
validate_all_sound [] db d e = absurd (cc e)
validate_all_sound (main ∷ others) db d e =
    let bad =
      test SampleFormat.read main.sample_format && not (test read_format_id main.read_format) in
    let checked = or_throw (check_attributes main (main ∷ others)) (set_offsets main db) in
    elim (Bool-cases bad) [
      | inl b ↦
          absurd (cc (ap (λ c. if c then throws non_matching_read_format else checked) (sym b) ∙ e))
      | inr b ↦
          let r =
            or_throw-finished (check_attributes main (main ∷ others)) (set_offsets main db) d
              (ap (λ c. if c then throws non_matching_read_format else checked) (sym b) ∙ e) in
          ((b, check_attributes-AreLike main (main ∷ others) r.0), r.1)
    ]

validate_all_complete :
    (all : List EventAttributes) (db : EventAttributesDatabase)
    → AreConsistent all
    → validate_all all db ≡ finished (with_offsets all db)
validate_all_complete [] db h = absurd h
validate_all_complete (main ∷ others) db h =
    ap
      (λ c.
        if c
        then throws non_matching_read_format
        else or_throw (check_attributes main (main ∷ others)) (set_offsets main db))
      h.0
    ∙ ap (λ o. or_throw o (set_offsets main db)) (AreLike-check_attributes main (main ∷ others) h.1)

-- `validate` succeeds exactly where there are attributes, the first ones can be read, and all others have
-- the same id positions, `sample_id_all` and read format; it then sets the id positions only.
pub validate_iff :
    (db d : EventAttributesDatabase)
    → (validate db ≡ finished d)
      ↔ (AreConsistent db.all_attributes × (d ≡ with_offsets db.all_attributes db))
unfolding validate
validate_iff db d = (
  validate_all_sound db.all_attributes db d,
  λ h. validate_all_complete db.all_attributes db h.0 ∙ ap finished (sym h.1),
)
