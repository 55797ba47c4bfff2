-- ===== src/Authorization/Deciding.antt =====
-- A role that is assigned and a permission that is granted decide `can`.
use python_codebase.Prelude.{ℕ, String, Bool, some, List, [], ◌∷◌, map, filter, any, str_eq}
use python_codebase.Authorization.{CasbinRuleModel}
use python_codebase.Authorization.Policies.{mine}
use python_codebase.Authorization.Access.{join, to_policy_line}

-- The line of a rule with two values.
abbrev pub line : String → String → String → String
line ptype a b = join (ptype ∷ a ∷ b ∷ [])

abbrev pub has_line : String → List String → Bool
has_line s = any (λ x. str_eq x s)

abbrev pub lines : ℕ → List CasbinRuleModel → List String
lines t rules = map to_policy_line (filter (mine (some t)) rules)
