-- ===== src/Tests/Mutations.antt =====
-- The theorems on probes and on Policy objects at the policy of two rules.
use constitutional_agent_tes.Base.{
  ◌↔◌, ◌≡◌, refl, ◌∷◌, [], txt, same, contains, distinct, arith, ok,
}
use constitutional_agent_tes.Policy.{Rule, Policy, type_kind, plain_rule}
use constitutional_agent_tes.Json.{Value}
use constitutional_agent_tes.Json.Path.{get_field}
use constitutional_agent_tes.Policy.Checks.{is_identifier, is_path}
use constitutional_agent_tes.Policy.Validate.{raw, object, validate_policy}
use constitutional_agent_tes.Policy.WellFormed.{GoodRule}
use constitutional_agent_tes.Policy.Accepted.{Portable, validate_policy-Portable}
use constitutional_agent_tes.Policy.RoundTrip.{validate_policy-object}
use constitutional_agent_tes.Probes.{ProbeReport, generate_rule_probes, wrong_value}
use constitutional_agent_tes.Probes.Targeted.{Targeted, generate_rule_probes-Targeted}
use constitutional_agent_tes.Probes.Values.{wrong_value-finds}
use constitutional_agent_tes.Evaluator.Satisfies.{Meets}
use constitutional_agent_tes.Tests.Data.{bit_patterns, two_rules, two_rules_json}

read : validate_policy (raw two_rules_json) ≡ ok two_rules
unfolding validate_policy same
read = refl

read_again : validate_policy (object two_rules) ≡ ok two_rules
unfolding validate_policy same
read_again = refl

validate_policy-object_example : two_rules ≡ two_rules
validate_policy-object_example =
    validate_policy-object (raw two_rules_json) two_rules {q = two_rules} read read_again

validate_policy-Portable_example :
    (validate_policy (object two_rules) ≡ ok two_rules) ↔ Portable two_rules
validate_policy-Portable_example = validate_policy-Portable (raw two_rules_json) two_rules read

probed : (r : ProbeReport) × (generate_rule_probes (raw two_rules_json) ≡ ok r)
unfolding generate_rule_probes same get_field
probed = (_, refl)

generate_rule_probes-Targeted_example :
    (p : Policy) × (validate_policy (raw two_rules_json) ≡ ok p) × Targeted p probed.0
generate_rule_probes-Targeted_example =
    generate_rule_probes-Targeted (raw two_rules_json) {r = probed.0} probed.1

-- A rule that admits every text.
abbrev named : Rule
named = record (plain_rule (txt "named") type_kind (txt "name")) { types = txt "string" ∷ [] }

named-good : GoodRule (txt "1.1") named
unfolding is_identifier is_path contains distinct same
named-good = record {
  identifier = refl;
  path = refl;
  short = omega arith;
  allowed = refl;
  constraint = record {
    some_name = refl;
    known = (refl, tt);
    no_repeat = refl;
    no_overlap = refl;
    not_all = refl;
  };
}

wrong_value-finds_example :
    (v : Value) × (wrong_value type_kind named ≡ ok v) × ¬ (Meets type_kind named v)
wrong_value-finds_example =
    wrong_value-finds type_kind (txt "1.1") named refl (λ e. cc e) named-good
