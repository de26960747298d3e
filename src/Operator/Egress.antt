-- ===== src/Operator/Egress.antt =====
-- What leaves the pods of an AgentDeployment: the rules of `desiredNetworkPolicy` of
-- agentdeployment_controller.go.
use langopen.Prelude.{
  ◌≡◌, refl, sym, ◌↔◌, ◌⊎◌, inl, inr, String, Bool, true, false, List, [], ◌∷◌, Memᴰ, ◌==◌,
  Bool-cases,
}
use langopen.Prelude.Text.{trim_space}
use langopen.Operator.{AgentDeployment}
use langopen.Operator.Objects.{EgressRule, Spec, network_policy}
use langopen.Operator.Desired.{cidr_rules, cidr_rule, dns_rule, desired_network_policy}

mem_cases : {x y : EgressRule} {xs : List EgressRule} → Memᴰ x (y ∷ xs) → (x ≡ y) ⊎ Memᴰ x xs
mem_cases (Memᴰ.head e) = inl e
mem_cases (Memᴰ.tail m) = inr m

module _ (is_cidr : String → Bool) where
  -- An entry of the allow list that gives a rule, and the rule.
  abbrev pub Allows : List String → EgressRule → Type 0
  Allows allowlist rule =
      (cidr : String) × Memᴰ cidr allowlist
      × ((trim_space cidr == "") ≡ false)
      × (is_cidr (trim_space cidr) ≡ true)
      × (rule ≡ cidr_rule (trim_space cidr))

  Allows-later : (x : String) (xs : List String) (r : EgressRule) → Allows xs r → Allows (x ∷ xs) r
  Allows-later x xs r (c, m, t, v, s) = (c, Memᴰ.tail m, t, v, s)

  cidr_rules-Allows :
      (xs : List String) (rule : EgressRule) → Memᴰ rule (cidr_rules is_cidr xs) → Allows xs rule
  unfolding cidr_rules
  cidr_rules-Allows [] rule m = elim m [ ]
  cidr_rules-Allows (x ∷ xs) rule m = elim (Bool-cases (trim_space x == "")) [
    | inl e ↦ Allows-later x xs rule (cidr_rules-Allows xs rule (rw e at m))
    | inr e ↦ elim (Bool-cases (is_cidr (trim_space x))) [
      | inr v ↦ Allows-later x xs rule (cidr_rules-Allows xs rule (rw (e, v) at m))
      | inl v ↦ elim (mem_cases (rw (e, v) at m)) [
        | inl same ↦ (x, Memᴰ.head refl, e, v, same)
        | inr later ↦ Allows-later x xs rule (cidr_rules-Allows xs rule later)
      ]
    ]
  ]

  Allows-cidr_rules :
      (xs : List String) (rule : EgressRule) → Allows xs rule → Memᴰ rule (cidr_rules is_cidr xs)
  unfolding cidr_rules
  Allows-cidr_rules [] rule (c, m, t, v, s) = elim m [ ]
  Allows-cidr_rules (x ∷ xs) rule (c, Memᴰ.head e, t, v, s) = rw (sym e, t, v) (Memᴰ.head s)
  Allows-cidr_rules (x ∷ xs) rule (c, Memᴰ.tail m, t, v, s) =
      let later = Allows-cidr_rules xs rule (c, m, t, v, s) in
      elim (Bool-cases (trim_space x == "")) [
        | inl e ↦ rw e later
        | inr e ↦ elim (Bool-cases (is_cidr (trim_space x))) [
          | inl v ↦ rw (e, v) (Memᴰ.tail later)
          | inr v ↦ rw (e, v) later
        ]
      ]

abbrev pub egress_of : Spec → List EgressRule
egress_of (network_policy s) = s.egress
egress_of other = []

-- A rule of the network policy is the one for DNS or stems from an entry of the allow list that
-- is, without the spaces around it, a CIDR; and each such entry has its rule.
pub desired_network_policy-Allows :
    (is_cidr : String → Bool) (dep : AgentDeployment) (rule : EgressRule)
    → Memᴰ rule (egress_of (desired_network_policy is_cidr dep).object.spec)
      ↔ ((rule ≡ dns_rule) ⊎ Allows is_cidr dep.spec.egress_allowlist rule)
unfolding desired_network_policy
desired_network_policy-Allows is_cidr dep rule = (
  λ m. elim (mem_cases m) [
    | inl e ↦ inl e
    | inr later ↦ inr (cidr_rules-Allows is_cidr dep.spec.egress_allowlist rule later)
  ],
  λ c. elim c [
    | inl e ↦ Memᴰ.head e
    | inr a ↦ Memᴰ.tail (Allows-cidr_rules is_cidr dep.spec.egress_allowlist rule a)
  ],
)
