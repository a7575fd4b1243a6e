-- ===== src/Authoring/Findings.antt =====
-- authoring.py: the findings of lint_policy, their order, and what it counts.
use constitutional_agent_tes.Base.{
  ℕ, zero, suc, ◌+◌, Bool, true, false, not, Option, none, some, List, [], ◌∷◌, ◌++◌, map, ltb,
  if◌then◌else◌, Text, txt, same, text_le, sort_names, any, length, Result, ok, err,
}
use constitutional_agent_tes.Json.{Value, null, bool, arr, obj, nil, list_items}
use constitutional_agent_tes.Json.Float.{Num}
use constitutional_agent_tes.Policy.{
  Kind, equals, one_of, false_kind, empty_list, Rule, Policy, num_value,
}
use constitutional_agent_tes.Errors.{TestbenchError, authoring_limit}
use constitutional_agent_tes.Synthetic.Generate.{Groups}

abbrev pub max_authoring_work_bytes : ℕ
max_authoring_work_bytes = 32_000_000

-- authoring.py: _domain, by the kind of the rule
unfoldable pub domain_as : Kind → Rule → Option (List Value)
domain_as equals r = some (r.value ∷ [])
domain_as one_of r = some r.values
domain_as false_kind r = some (bool false ∷ [])
domain_as empty_list r = some (arr nil ∷ [])
domain_as _ r = none

unfoldable pub domain : Rule → Option (List Value)
unfolding domain_as
domain r = domain_as r.kind r

pub data FindingCode : Type 0 where
  disjoint_constraints duplicate_constraint incompatible_descendants : FindingCode

abbrev pub code_name : FindingCode → Text
code_name disjoint_constraints = txt "DISJOINT_CONSTRAINTS"
code_name duplicate_constraint = txt "DUPLICATE_CONSTRAINT"
code_name incompatible_descendants = txt "INCOMPATIBLE_DESCENDANTS"

pub record Finding : Type 0 where
  pub code : FindingCode
  pub path : Text
  pub rule_ids : List Text

-- `sorted([...])` of the identifiers of rules
unfoldable pub finding : FindingCode → Text → List Rule → Finding
unfolding sort_names
finding code path rules = record {
  code = code;
  path = path;
  rule_ids = sort_names (map (λ (r : Rule). r.rule_id) rules);
}

-- `work_bytes` and `findings`
pub record LintState : Type 0 where
  pub work : ℕ
  pub findings : List Finding

abbrev pub add_finding : Finding → LintState → LintState
add_finding f s = record s { findings = s.findings ++ f ∷ [] }

abbrev pub add_unless : Bool → Finding → LintState → LintState
add_unless true f s = s
add_unless false f s = add_finding f s

-- `zip(rules, domains)` where the domain is finite
unfoldable pub finite_of : List Rule → List (Rule × List Value)
unfolding domain
finite_of [] = []
finite_of (r ∷ rules) =
    let rest = finite_of rules in elim (domain r) [ none ↦ rest | some d ↦ (r, d) ∷ rest ]

abbrev pub option_number : Option Num → Value
option_number none = null
option_number (some n) = num_value n

abbrev pub option_list : Option (List Value) → Value
option_list none = null
option_list (some vs) = arr (list_items vs)

-- The work charge, which raises above the limit.
abbrev pub charge : ℕ → LintState → Result TestbenchError LintState
charge bytes s =
    if ltb max_authoring_work_bytes (s.work + bytes)
    then err authoring_limit
    else ok (record s { work = s.work + bytes })

-- `text[count:]`
unfoldable pub skip : ℕ → Text → Text
skip zero text = text
skip (suc count) [] = []
skip (suc count) (c ∷ text) = skip count text

-- `replace(child, path=child.path[len(path) + 1:])`
abbrev pub below : Text → Rule → Rule
below path child = record child { path = skip (length path + 1) child.path }

abbrev pub is_object : Value → Bool
is_object (obj fs) = true
is_object _ = false

abbrev pub no_rules : List Rule → Bool
no_rules [] = true
no_rules (r ∷ rules) = false

-- `sorted(groups.items())`; the paths are distinct
unfoldable pub insert_path : Text → List Rule → Groups → Groups
unfolding text_le
insert_path path rules [] = (path, rules) ∷ []
insert_path path rules ((q, others) ∷ groups) =
    if text_le path q
    then (path, rules) ∷ (q, others) ∷ groups
    else (q, others) ∷ insert_path path rules groups

unfoldable pub sort_paths : Groups → Groups
unfolding insert_path
sort_paths [] = []
sort_paths ((path, rules) ∷ groups) = insert_path path rules (sort_paths groups)

-- The order of lists of texts, and of the key of a finding.
unfoldable pub names_le : List Text → List Text → Bool
unfolding text_le same
names_le [] names = true
names_le (n ∷ names) [] = false
names_le (n ∷ names) (m ∷ others) = if same n m then names_le names others else text_le n m

unfoldable pub finding_le : Finding → Finding → Bool
unfolding names_le
finding_le f g =
    if not (same f.path g.path)
    then text_le f.path g.path
    else if not (same (code_name f.code) (code_name g.code))
    then text_le (code_name f.code) (code_name g.code)
    else names_le f.rule_ids g.rule_ids

unfoldable pub insert_finding : Finding → List Finding → List Finding
unfolding finding_le
insert_finding f [] = f ∷ []
insert_finding f (g ∷ findings) =
    if finding_le f g then f ∷ g ∷ findings else g ∷ insert_finding f findings

unfoldable pub sort_findings : List Finding → List Finding
unfolding insert_finding
sort_findings [] = []
sort_findings (f ∷ findings) = insert_finding f (sort_findings findings)

-- `f["code"] != "DUPLICATE_CONSTRAINT"`
abbrev pub is_conflict : Finding → Bool
is_conflict f = elim f.code [ duplicate_constraint ↦ false | _ ↦ true ]

pub record Lint : Type 0 where
  pub policy_id : Text
  pub findings : List Finding
  pub has_conflicts : Bool

abbrev pub lint_of : Policy → List Finding → Lint
lint_of p findings = record {
  policy_id = p.policy_id;
  findings = findings;
  has_conflicts = any is_conflict findings;
}

abbrev pub no_findings : LintState
no_findings = record { work = 0; findings = [] }
