-- ===== src/Suite/Validate/Laws.antt =====
-- The suite that validate_suite returns.
use constitutional_agent_tes.Base.{
  ℕ, suc, ◌≤◌, ◌≡◌, refl, ap, subst, Bool, true, false, ◌&&◌, not, Option, none, some, List, [],
  ◌∷◌, arith, leb, leb→le, if◌then◌else◌, Text, txt, contains, length, map_err, Result, ok, err,
  ◌>>=◌, ◌>>◌, >>=-eq-ok, guard-eq-ok, if-eq-ok, ok-injective,
}
use constitutional_agent_tes.Json.{Value, str, arr, obj, nil, cons, member, items_list}
use constitutional_agent_tes.Json.Encode.{FloatText}
use constitutional_agent_tes.Json.Encode.Size.{bounded_canonical_json_size}
use constitutional_agent_tes.Json.Ensure.{ensure_json_value, max_json_input_bytes}
use constitutional_agent_tes.Errors.{TestbenchError, invalid_suite, suite_limits, suite_fields}
use constitutional_agent_tes.Policy.Checks.{is_identifier}
use constitutional_agent_tes.Precedence.Result.{exact_keys}
use constitutional_agent_tes.Suite.{Case, Suite, max_suite_cases}
use constitutional_agent_tes.Suite.Validate.{
  read_case_id, read_case_types, validate_assertions, validate_case, validate_cases,
  suite_version_of, suite_cases_of, read_suite, validate_suite,
}

-- Every identifier is valid and is neither listed nor that of an earlier case.
abbrev pub Distinct : List Text → List Case → Type 0
Distinct seen [] = Unit
Distinct seen (c ∷ cases) =
    (is_identifier c.case_id ≡ true)
    × (contains seen c.case_id ≡ false)
    × Distinct (c.case_id ∷ seen) cases

pub record WellFormed (s : Suite) : Type 0 where
  pub version : contains (txt "1.0" ∷ txt "1.1" ∷ []) s.suite_version ≡ true
  pub some_case : 1 ≤ length s.cases
  pub few_cases : length s.cases ≤ max_suite_cases
  pub distinct : Distinct [] s.cases

read_case_id-eq-ok :
    (seen : List Text) (o : Option Value) {name : Text}
    → read_case_id seen o ≡ ok name
    → (is_identifier name ≡ true) × (contains seen name ≡ false)
read_case_id-eq-ok seen (some (str s)) h =
    let (t, e) = if-eq-ok (is_identifier s && not (contains seen s)) s _ h in
    subst (λ n. (is_identifier n ≡ true) × (contains seen n ≡ false)) e (ground arith, ground arith)
read_case_id-eq-ok seen none h = cc
read_case_id-eq-ok seen _ h = cc

validate_case-eq-ok :
    (version : Text) (seen : List Text) (v : Value) {c : Case}
    → validate_case version seen v ≡ ok c
    → (is_identifier c.case_id ≡ true) × (contains seen c.case_id ≡ false)
unfolding validate_case
validate_case-eq-ok version seen (obj fs) h =
    let (_, h1) = guard-eq-ok _ _ _ h in
    let (name, hn, h2) = >>=-eq-ok (read_case_id seen (member (txt "case_id") fs)) _ h1 in
    let (_, _, h3) =
      >>=-eq-ok (read_case_types (member (txt "response") fs) (member (txt "expected_passed") fs)) _
        h2 in
    let (_, _, h4) = >>=-eq-ok (validate_assertions (member (txt "expected_rules") fs)) _ h3 in
    subst (λ (c : Case). (is_identifier c.case_id ≡ true) × (contains seen c.case_id ≡ false))
      (ok-injective _ _ h4) (read_case_id-eq-ok seen (member (txt "case_id") fs) hn)
validate_case-eq-ok version seen Value.null h = cc
validate_case-eq-ok version seen _ h = cc

validate_cases-Distinct :
    (version : Text) (seen : List Text) (vs : List Value) {cases : List Case}
    → validate_cases version seen vs ≡ ok cases
    → (length cases ≡ length vs) × Distinct seen cases
unfolding validate_cases
validate_cases-Distinct version seen [] h =
    subst (λ cases. (length cases ≡ 0) × Distinct seen cases) (ok-injective _ _ h) (refl, tt)
validate_cases-Distinct version seen (v ∷ vs) h =
    let (c, hc, h1) = >>=-eq-ok (validate_case version seen v) _ h in
    let (rest, hr, h2) = >>=-eq-ok (validate_cases version (c.case_id ∷ seen) vs) _ h1 in
    let (valid, fresh) = validate_case-eq-ok version seen v hc in
    let (size, distinct) = validate_cases-Distinct version (c.case_id ∷ seen) vs hr in
    subst (λ cases. (length cases ≡ suc (length vs)) × Distinct seen cases) (ok-injective _ _ h2)
      (ap suc size, (valid, fresh, distinct))

-- What the two checked members of the suite leave to read_suite.
abbrev GoodVersion : Option Text → Type 0
GoodVersion none = Unit
GoodVersion (some version) = contains (txt "1.0" ∷ txt "1.1" ∷ []) version ≡ true

abbrev GoodCount : Option (List Value) → Type 0
GoodCount none = Unit
GoodCount (some vs) = (1 ≤ length vs) × (length vs ≤ max_suite_cases)

suite_version_of-GoodVersion : (o : Option Value) → GoodVersion (suite_version_of o)
suite_version_of-GoodVersion (some (str version)) =
    decided (contains (txt "1.0" ∷ txt "1.1" ∷ []) version) refl
  where
    decided :
        (b : Bool)
        → contains (txt "1.0" ∷ txt "1.1" ∷ []) version ≡ b
        → GoodVersion (if b then some version else none)
    decided true e = e
    decided false e = tt
suite_version_of-GoodVersion none = tt
suite_version_of-GoodVersion (some Value.null) = tt
suite_version_of-GoodVersion (some _) = tt

suite_cases_of-GoodCount : (o : Option Value) → GoodCount (suite_cases_of o)
suite_cases_of-GoodCount (some (arr (cons v vs))) =
    decided (leb (length (v ∷ items_list vs)) max_suite_cases) refl
  where
    decided :
        (b : Bool)
        → leb (length (v ∷ items_list vs)) max_suite_cases ≡ b
        → GoodCount (if b then some (v ∷ items_list vs) else none)
    decided true e = (omega arith, leb→le (length (v ∷ items_list vs)) max_suite_cases e)
    decided false e = tt
suite_cases_of-GoodCount none = tt
suite_cases_of-GoodCount (some (arr nil)) = tt
suite_cases_of-GoodCount (some _) = tt

read_suite-WellFormed :
    (version : Option Text) (raws : Option (List Value)) {s : Suite}
    → GoodVersion version
    → GoodCount raws
    → read_suite version raws ≡ ok s
    → WellFormed s
unfolding read_suite
read_suite-WellFormed (some version) (some raws) hv hc h =
    let (cases, hr, h1) = >>=-eq-ok (validate_cases version [] raws) _ h in
    let (size, distinct) = validate_cases-Distinct version [] raws hr in
    subst WellFormed (ok-injective _ _ h1) (record {
      version = hv;
      some_case = omega (arith, size, hc.0);
      few_cases = omega (arith, size, hc.1);
      distinct = distinct;
    })
read_suite-WellFormed none raws hv hc h = cc
read_suite-WellFormed (some version) none hv hc h = cc

raises :
    {E A B : Type 0} (m : Result E Unit) (n : Result E A) (e : E) {b : B}
    → (m >> (n >>= λ _. err e)) ≡ ok b
    → ⊥
raises (ok tt) (ok a) e h = cc
raises (ok tt) (err x) e h = cc
raises (err x) n e h = cc

module _ ⦃repr : FloatText⦄ where
  abbrev accepted : Value → Result TestbenchError Unit
  accepted v = map_err (λ e. invalid_suite suite_limits) (ensure_json_value v)

  abbrev sized : Value → Result TestbenchError ℕ
  sized v =
      map_err (λ e. invalid_suite suite_limits) (bounded_canonical_json_size v max_json_input_bytes)

  -- A suite that validate_suite returns has version 1.0 or 1.1 and 1 to 256 cases with distinct valid
  -- identifiers.
  pub validate_suite-WellFormed : (v : Value) {s : Suite} → validate_suite v ≡ ok s → WellFormed s
  unfolding validate_suite
  validate_suite-WellFormed (obj fs) h =
      let (_, _, h1) = >>=-eq-ok (accepted (obj fs)) _ h in
      let (_, _, h2) = >>=-eq-ok (sized (obj fs)) _ h1 in
      let (_, h3) =
        guard-eq-ok (exact_keys fs (txt "suite_version" ∷ txt "cases" ∷ []))
          (invalid_suite suite_fields) _ h2 in
      read_suite-WellFormed (suite_version_of (member (txt "suite_version") fs))
        (suite_cases_of (member (txt "cases") fs))
        (suite_version_of-GoodVersion (member (txt "suite_version") fs))
        (suite_cases_of-GoodCount (member (txt "cases") fs)) h3
  validate_suite-WellFormed Value.null h =
      absurd (raises (accepted Value.null) (sized Value.null) (invalid_suite suite_fields) h)
  validate_suite-WellFormed v h =
      absurd (raises (accepted v) (sized v) (invalid_suite suite_fields) h)
