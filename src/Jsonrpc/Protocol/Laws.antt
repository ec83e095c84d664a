-- ===== src/Jsonrpc/Protocol/Laws.antt =====
-- Which texts `load_request` of jsonrpc_v2_protocol.cpp accepts, and as what.
use snail_server.Common.{
  ◌+◌, ◌≡◌, refl, ap, ◌∙◌, inl, inr, ◌⊎◌, Bool, true, false, ◌||◌, Option, none, some, ◌==◌, ==_iff,
  arith, Option-cases, Bool-cases,
}
use snail_server.Text.Codes.{Text, codes, equal, equal_sound}
use snail_server.Jsonrpc.Json.{Json, Parsed, parse_failed, parse_threw, parsed_as}
use snail_server.Jsonrpc.Protocol.{
  parse_error, Thrown, rpc_error, other_exception, Attempt, returns, throws, ◌>>=◌, ◌>>◌, require,
  or_invalid, Request, parsed, given, params_of, id_of, load_request,
}

>>=-eq-returns {ℓ κ} :
    {A : Type ℓ} {B : Type κ} (m : Attempt A) (f : A → Attempt B) {b : B}
    → (m >>= f) ≡ returns b
    → (a : A) × (m ≡ returns a) × (f a ≡ returns b)
>>=-eq-returns (returns a) f h = (a, refl, h)
>>=-eq-returns (throws e) f h = cc

require-eq-returns : (b : Bool) (m : Text) (u : Unit {0}) → require b m ≡ returns u → b ≡ true
require-eq-returns true m u h = refl
require-eq-returns false m u h = cc

or_invalid-eq-returns :
    {A : Type 0} (o : Option A) (m : Text) (a : A) → or_invalid o m ≡ returns a → o ≡ some a
or_invalid-eq-returns none m a h = cc
or_invalid-eq-returns (some b) m a h = cc

module _ (j : Json) where
  open j use {Value, parse, is_object, is_array, is_string, is_number, is_null, text_of, find}
  open j use {size, null}

  Parsed-cases :
      (p : Parsed Value) (e : Attempt Value)
      → parsed j p ≡ e
      → ((v : Value) × (p ≡ parsed_as v)) ⊎ ((t : Thrown) × (e ≡ throws t))
  Parsed-cases (parse_failed m) e h = inr (rpc_error (parse_error m), cc h)
  Parsed-cases (parse_threw m) e h = inr (other_exception m, cc h)
  Parsed-cases (parsed_as v) e h = inl (v, refl)

  -- The parameters of a request: null if there are none, else an object or an array.
  abbrev pub IsParams : Option Value → Value → Type 0
  IsParams none p = p ≡ null
  IsParams (some q) p = (p ≡ q) × ((is_object q || is_array q) ≡ true)

  abbrev pub IsId : Option Value → Option Value → Type 0
  IsId none i = i ≡ none
  IsId (some q) i = (i ≡ some q) × ((is_string q || (is_number q || is_null q)) ≡ true)

  params_of-eq-returns : (o : Option Value) (p : Value) → params_of j o ≡ returns p → IsParams o p
  params_of-eq-returns none p h = cc
  params_of-eq-returns (some q) p h = ground arith

  id_of-eq-returns : (o i : Option Value) → id_of j o ≡ returns i → IsId o i
  id_of-eq-returns none i h = cc
  id_of-eq-returns (some q) i h = ground arith

  -- What a valid request is, as the source's checks say it.
  pub record IsRequest (content : Text) (r : Request j) : Type 0 where
    pub root : Value
    pub is_parsed : parse content ≡ parsed_as root
    pub root_object : is_object root ≡ true
    pub version : Value
    pub has_version : find root (codes "jsonrpc") ≡ some version
    pub version_text : text_of version ≡ some (codes "2.0")
    pub method_value : Value
    pub has_method : find root (codes "method") ≡ some method_value
    pub method_text : text_of method_value ≡ some r.method
    pub its_params : IsParams (find root (codes "params")) r.params
    pub its_id : IsId (find root (codes "id")) r.id
    pub no_more :
        size root ≡ 2 + given j (find root (codes "params")) + given j (find root (codes "id"))

  -- What is left once the root and the two required members are known.
  abbrev rest_of : Value → Text → Attempt (Request j)
  rest_of root method = do
    params ← params_of j (find root (codes "params"))
    id ← id_of j (find root (codes "id"))
    require
        (size root == 2 + given j (find root (codes "params")) + given j (find root (codes "id")))
        (codes "to many fields found.")
    returns (record { method = method; params = params; id = id })

  rest_of-eq-returns :
      (root : Value) (mt : Text) (r : Request j)
      → rest_of root mt ≡ returns r
      → (mt ≡ r.method)
        × IsParams (find root (codes "params")) r.params
        × IsId (find root (codes "id")) r.id
        × (size root ≡ 2 + given j (find root (codes "params")) + given j (find root (codes "id")))
  rest_of-eq-returns root mt r h = elim (Option-cases (find root (codes "params"))) [
    | inl hp ↦ elim (Option-cases (find root (codes "id"))) [
      | inl hi ↦ grind (arith, ==_iff)
      | inr (i, hi) ↦ grind (arith, ==_iff)
    ]
    | inr (p, hp) ↦ elim (Option-cases (find root (codes "id"))) [
      | inl hi ↦ grind (arith, ==_iff)
      | inr (i, hi) ↦ grind (arith, ==_iff)
    ]
  ]

  -- A text that is loaded as a request is a valid request, with the method, parameters and id that
  -- it states.
  pub load_request_sound :
      (content : Text) (r : Request j) → load_request j content ≡ returns r → IsRequest content r
  unfolding load_request
  load_request_sound content r h =
      elim (Parsed-cases (parse content) (parsed j (parse content)) refl) [
        | inr (t, e) ↦ absurd (ground arith)
        | inl (root, e) ↦ elim (Option-cases (find root (codes "jsonrpc"))) [
          | inl n ↦ absurd (ground arith)
          | inr (v, hv) ↦ elim (Option-cases (text_of v)) [
            | inl n ↦ absurd (ground arith)
            | inr (vt, ht) ↦ elim (Option-cases (find root (codes "method"))) [
              | inl n ↦ absurd (ground arith)
              | inr (m, hm) ↦ elim (Option-cases (text_of m)) [
                | inl n ↦ absurd (ground arith)
                | inr (mt, hmt) ↦ elim (Bool-cases (is_object root)) [
                  | inr n ↦ absurd (ground arith)
                  | inl ho ↦ elim (Bool-cases (equal vt (codes "2.0"))) [
                    | inr n ↦ absurd (ground arith)
                    | inl he ↦
                        let (h1, h2, h3, h4) = rest_of-eq-returns root mt r (ground arith) in
                        record {
                          root = root;
                          is_parsed = e;
                          root_object = ho;
                          version = v;
                          has_version = hv;
                          version_text = ht ∙ ap some (equal_sound vt _ he);
                          method_value = m;
                          has_method = hm;
                          method_text = hmt ∙ ap some h1;
                          its_params = h2;
                          its_id = h3;
                          no_more = h4;
                        }
                  ]
                ]
              ]
            ]
          ]
        ]
      ]
