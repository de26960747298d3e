-- ===== src/Examples/Operator.antt =====
-- A cluster in memory, and one AgentDeployment in mode_b with an ingress and an allow list.
use mathlib.Core.Path.{subst}
use langopen.Prelude.{
  ◌≡◌, refl, sym, ◌⊎◌, ◌↔◌, String, Bool, true, false, Option, none, some, [], ◌∷◌, Memᴰ, ◌==◌,
  if◌then◌else◌,
}
use langopen.Prelude.Int.{pos}
use langopen.Prelude.Text.{trim_space}
use langopen.Operator.{AgentDeployment}
use langopen.Operator.Objects.{Key, Object, service_kind, key_eq, key_eq_refl, with_cluster_ip}
use langopen.Operator.Desired.{
  cidr_rule, dns_rule, desired_network_policy, desired_ingress, desired_api_service,
  desired_worker_deployment, desired_api_deployment, desired_warm_pool, desired_sandbox_template,
  mode_of, wants_ingress, template_name,
}
use langopen.Operator.Client.{not_found, ok, failed, Client, IsLawful, IsUp, answer}
use langopen.Operator.Sync.{wish, Synced, Objects}
use langopen.Operator.Reconcile.{done, reconcile}
use langopen.Operator.Refines.{
  wishes, mode_wishes, exposure_wish, base_wishes, reconcile-Synced, reconcile-Untouched,
}
use langopen.Operator.Done.{reconcile-done}
use langopen.Operator.Egress.{egress_of, Allows, desired_network_policy-Allows}

abbrev bot : AgentDeployment
bot = record {
  namespace = "prod";
  name = "bot";
  uid = "u1";
  generation = pos 3;
  spec = record {
    image = "img:2";
    rollback_image = "img:1";
    replicas = none;
    runtime_class_name = "";
    mode = "mode_b";
    egress_allowlist = " 10.0.0.0/8" ∷ "nonsense" ∷ [];
    ingress_enabled = true;
    ingress_host = "bot.example";
    ingress_class_name = "";
    ingress_tls_secret_ref = "";
    sandbox_template = "";
    warm_pool_replicas = some (pos 2);
  };
  status = record { observed_generation = pos 0; ready = false; message = "" };
}

abbrev put : Key → Option Object → Objects → Objects
put k o objects j = if key_eq k j then o else objects j

abbrev memory : Client
memory = record {
  Cluster = Objects;
  get_agent = λ n m w. (ok bot, w);
  get = λ k w. (answer (w k), w);
  create = λ k o w. (ok tt, put k (some (record o { spec = with_cluster_ip "10.0.0.1" o.spec })) w);
  update = λ k o w. (ok tt, put k (some o) w);
  delete = λ k w. (ok tt, put k none w);
  update_status = λ dep w. (ok tt, w);
  set_controller_reference = λ dep o. ok (record o { owner = some dep.uid });
  set_gauges = λ n m a b w. w;
}

answer-found : (a : Option Object) {o : Object} → answer a ≡ ok o → a ≡ some o
answer-found none h = cc h
answer-found (some x) h = cc h

answer-missing : (a : Option Object) → answer a ≡ failed not_found → a ≡ none
answer-missing none h = refl
answer-missing (some x) h = cc h

ok_inj : {A : Type 0} {x y : A} → ok x ≡ ok y → y ≡ x
ok_inj h = cc h

abbrev memory-IsLawful : IsLawful memory
memory-IsLawful = record {
  objects = λ w. w;
  agent_kept = λ n m w k. refl;
  get_kept = λ j w k. refl;
  get_found = λ k w h. answer-found (w k) h;
  get_missing = λ k w h. answer-missing (w k) h;
  create_done = λ k o w h. ("10.0.0.1", rw (key_eq_refl k) refl);
  create_others = λ j o w k e. rw e refl;
  update_done = λ k o w h. rw (key_eq_refl k) refl;
  update_others = λ j o w k e. rw e refl;
  delete_done = λ k w h. rw (key_eq_refl k) refl;
  delete_others = λ j w k e. rw e refl;
  status_kept = λ dep w k. refl;
  gauges_kept = λ n m a b w k. refl;
  reference_set = λ dep o h. ok_inj h;
}

memory-IsUp : IsUp memory memory-IsLawful
memory-IsUp = record {
  get_answers = λ k w. refl;
  create_works = λ k o w h. refl;
  update_works = λ k o p w h. refl;
  delete_works = λ k p w h. refl;
  status_works = λ dep w. refl;
  reference_works = λ dep o. refl;
}

abbrev empty : Objects
empty k = none

abbrev is_ten : String → Bool
is_ten s = s == "10.0.0.0/8"

reconcile-done_example : (reconcile memory is_ten "prod" "bot" empty).0 ≡ ok done
reconcile-done_example =
    reconcile-done memory memory-IsLawful memory-IsUp is_ten "prod" "bot" bot empty refl

bot_done : (reconcile memory is_ten "prod" "bot" empty).0 ≡ ok done
bot_done = reconcile-done memory memory-IsLawful memory-IsUp is_ten "prod" "bot" bot empty refl

reconcile-Synced_example :
    Synced (wishes is_ten bot) empty (reconcile memory is_ten "prod" "bot" empty).1
reconcile-Synced_example =
    reconcile-Synced memory memory-IsLawful is_ten "prod" "bot" bot empty refl bot_done

abbrev other_service : Key
other_service = record { kind = service_kind; namespace = "prod"; name = "database" }

reconcile-Untouched_example : (reconcile memory is_ten "prod" "bot" empty).1 other_service ≡ none
unfolding wish mode_wishes exposure_wish base_wishes mode_of wants_ingress template_name trim_space
    desired_network_policy desired_ingress desired_api_service desired_worker_deployment
    desired_api_deployment desired_warm_pool desired_sandbox_template
reconcile-Untouched_example =
    reconcile-Untouched memory memory-IsLawful is_ten "prod" "bot" empty other_service
      (λ dep e. subst (λ d. wish (wishes is_ten d) other_service ≡ none) (sym (ok_inj e)) refl)

desired_network_policy-Allows_example :
    Memᴰ (cidr_rule "10.0.0.0/8") (egress_of (desired_network_policy is_ten bot).object.spec) ↔ (
      (cidr_rule "10.0.0.0/8" ≡ dns_rule)
      ⊎ Allows is_ten (" 10.0.0.0/8" ∷ "nonsense" ∷ []) (cidr_rule "10.0.0.0/8"))
desired_network_policy-Allows_example =
    desired_network_policy-Allows is_ten bot (cidr_rule "10.0.0.0/8")
