-- ===== src/Analysis/PerfContext/Stored.antt =====
-- What is stored for a source and a thread.
use snail_server.Common.{
  ℕ, ◌≤◌, ◌≡◌, refl, sym, ◌∙◌, ap, subst, List, [], ◌∷◌, ◌++◌, ◌==◌, if◌then◌else◌, arith,
  Bool-cases, inl, inr,
}
use snail_server.Common.AssocMap.{lookup, insert, lookup-insert}
use snail_server.Analysis.PerfContext.{SampleInfo, PerfContext, or_empty}
use snail_server.Analysis.PerfContext.Events.{
  storage_of, threads_of, storage_or_new, store_sample, add_to_storage,
}
use snail_server.Analysis.PerfContext.Samples.{IsSorted, AllFrom}

abbrev pub stored : ℕ → ℕ → PerfContext → List SampleInfo
stored source tid c = (storage_of source tid c).samples

abbrev pub AllUntil : ℕ → List SampleInfo → Type 0
AllUntil t [] = Unit {0}
AllUntil t (s ∷ ss) = (s.timestamp ≤ t) × AllUntil t ss

AllUntil-le : (t u : ℕ) (ss : List SampleInfo) → t ≤ u → AllUntil t ss → AllUntil u ss
AllUntil-le t u [] h k = tt
AllUntil-le t u (s ∷ ss) h k = (omega arith, AllUntil-le t u ss h k.1)

AllUntil-append :
    (i : SampleInfo) (ss : List SampleInfo)
    → AllUntil i.timestamp ss
    → AllUntil i.timestamp (ss ++ i ∷ [])
AllUntil-append i [] h = (omega arith, tt)
AllUntil-append i (s ∷ ss) h = (h.0, AllUntil-append i ss h.1)

AllFrom-append :
    (t : ℕ) (i : SampleInfo) (ss : List SampleInfo)
    → t ≤ i.timestamp
    → AllFrom t ss
    → AllFrom t (ss ++ i ∷ [])
AllFrom-append t i [] h k = (h, tt)
AllFrom-append t i (s ∷ ss) h k = (k.0, AllFrom-append t i ss h k.1)

IsSorted-append :
    (i : SampleInfo) (ss : List SampleInfo)
    → AllUntil i.timestamp ss
    → IsSorted ss
    → IsSorted (ss ++ i ∷ [])
IsSorted-append i [] h k = (tt, tt)
IsSorted-append i (s ∷ ss) h k =
    (AllFrom-append s.timestamp i ss h.0 k.0, IsSorted-append i ss h.1 k.1)

-- All samples are ordered, and none is later than `t`.
abbrev pub IsTimely : ℕ → PerfContext → Type 0
IsTimely t c = (source tid : ℕ) → IsSorted (stored source tid c) × AllUntil t (stored source tid c)

-- What is stored where, after a sample is stored.
pub stored-store_sample :
    (source : ℕ) (i : SampleInfo) (c : PerfContext) (other tid : ℕ)
    → stored other tid (store_sample source i c) ≡ (
        if source == other
        then (if i.thread_id == tid
            then stored source i.thread_id c ++ i ∷ []
            else stored source tid c)
        else stored other tid c)
stored-store_sample source i c other tid =
    let threads =
      insert i.thread_id (add_to_storage i (storage_of source i.thread_id c))
        (threads_of source c) in
    ap (λ o. (storage_or_new (lookup tid (or_empty o))).samples)
      (lookup-insert source other threads c.samples_per_source_and_thread_id)
    ∙ elim (Bool-cases (source == other)) [
      | inl b ↦ rw b (
          ap (λ o. (storage_or_new o).samples)
            (lookup-insert i.thread_id tid (add_to_storage i (storage_of source i.thread_id c))
              (threads_of source c))
          ∙ elim (Bool-cases (i.thread_id == tid)) [ inl d ↦ rw d refl | inr d ↦ rw d refl ])
      | inr b ↦ rw b refl
    ]

pub store_sample-IsTimely :
    (t source : ℕ) (i : SampleInfo) (c : PerfContext)
    → t ≤ i.timestamp
    → IsTimely t c
    → IsTimely i.timestamp (store_sample source i c)
store_sample-IsTimely t source i c h k other tid =
    let Q : List SampleInfo → Type 0 = λ ss. IsSorted ss × AllUntil i.timestamp ss in
    let old : (a b : ℕ) → Q (stored a b c) =
      λ a b. ((k a b).0, AllUntil-le t i.timestamp (stored a b c) h (k a b).1) in
    subst Q (sym (stored-store_sample source i c other tid)) (elim (Bool-cases (source == other)) [
      | inl b ↦ elim (Bool-cases (i.thread_id == tid)) [
        | inl d ↦
            rw (b, d)
              (let o = old source i.thread_id in
                (
                  IsSorted-append i (stored source i.thread_id c) o.1 o.0,
                  AllUntil-append i (stored source i.thread_id c) o.1,
                ))
        | inr d ↦ rw (b, d) (old source tid)
      ]
      | inr b ↦ rw b (old other tid)
    ])
