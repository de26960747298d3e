-- ===== src/Examples/Plane.antt =====
-- Items of a project, a wait for a run, and keys and deployments of the control plane.
use langopen.Prelude.{
  ◌+◌, ◌*◌, ◌≡◌, refl, String, true, false, Option, none, some, [], ◌∷◌, ◌==◌, arith, if◌then◌else◌,
}
use langopen.Prelude.Int.{pos}
use langopen.Prelude.Text.{codes, codes_eq, trim_codes, trim_space}
use langopen.Json.{text, null}
use langopen.Db.Sql.{healthy}
use langopen.Store.Apart.{store_projects_apart}
use langopen.Store.{
  list_store_items, StoreRecord, ItemTable, Items, get_store_item, put_store_item,
  delete_store_item,
}
use langopen.Store.Laws.{shown, IsProject, get_store_item-put_store_item}
use langopen.Runs.Wait.{Looks, wait_for_run_terminal, wait_timeout, poll_pause}
use langopen.Runs.Patience.{IsPaused, Ends, wait_for_run_terminal-Ends}
use langopen.Auth.Control.{resolve_project_id}
use langopen.Auth.Keys.{KeyRow, KeyTable, create_api_key, insert_key, revoke_api_key, revoke_rows}
use langopen.Auth.Lifetime.{validated, IsSpared, create_api_key-validated, revoke_api_key-validated}
use langopen.Auth.{validate_api_key}
use langopen.Deployments.Rollback.{IsFaithful}
use langopen.Operator.Client.{Result, ok, failed, not_found}
use langopen.Deployments.{
  get_deployment_revision, DeploymentRecord, Plane, get_deployment, replace_deployment,
  record_deployment_revision,
}
use langopen.Deployments.Agents.{AgentObject, AgentClient, SyncConfig, sync_agent_deployment_record}
use langopen.Deployments.Handlers.{rollback_deployment_v2, Draws, rollback_deployment_by_digest}
use langopen.Deployments.Revert.{IsReverted, rollback_deployment_v2-IsReverted}
use langopen.Examples.Tables.{waiting_db}

abbrev greeting : StoreRecord
greeting = record {
  id = codes "s1";
  namespace = codes " notes";
  key = codes "hello";
  value = text "hi";
  metadata = null;
  created_at = 3;
}

abbrev no_items : ItemTable
no_items = record { rows = []; reachable = true }

get_store_item-put_store_item_example :
    shown (
      get_store_item
        (codes "p1")
        (codes " notes")
        (codes "hello")
        (put_store_item (codes "p1") greeting (record { table = some no_items; memory = [] })).1)
    ≡ some (text "hi", null)
unfolding trim_codes codes_eq
get_store_item-put_store_item_example =
    get_store_item-put_store_item (codes "p1") greeting
      (record { table = some no_items; memory = [] }) refl refl

p1-IsProject : IsProject (codes "p1")
unfolding trim_codes codes_eq
p1-IsProject = record { named = refl; plain = refl }

p2-IsProject : IsProject (codes "p2")
unfolding trim_codes codes_eq
p2-IsProject = record { named = refl; plain = refl }

store_projects_apart_example :
    let items : Items = record { table = some no_items; memory = [] } in
    let put = (put_store_item (codes "p1") greeting items).1 in
    let deleted = (delete_store_item (codes "p1") (codes "notes") (codes "hello") items).1 in
    let got = get_store_item (codes "p2") (codes "notes") (codes "hello") in
    (got put ≡ got items)
    × (got deleted ≡ got items)
    × (list_store_items (codes "p2") (codes "notes") put
        ≡ list_store_items (codes "p2") (codes "notes") items)
    × (list_store_items (codes "p2") (codes "notes") deleted
        ≡ list_store_items (codes "p2") (codes "notes") items)
unfolding trim_codes codes_eq
store_projects_apart_example =
    store_projects_apart (codes "p1") (codes "p2") greeting (codes "notes") (codes "hello")
      (codes "notes") (codes "hello") (codes "notes") no_items [] p1-IsProject p2-IsProject refl
      refl

-- Nobody takes the run that is waited for.
abbrev quiet : Looks
quiet = record {
  conn = λ i. healthy waiting_db;
  clock = λ i. 7 + i * poll_pause;
  given_up = λ i. false;
}

quiet-IsPaused : IsPaused quiet 7
quiet-IsPaused = record { later = omega arith; paused = λ i. omega arith }

wait_for_run_terminal-Ends_example :
    Ends (wait_for_run_terminal 1502 "p1" "r1" quiet 7 (wait_timeout (λ s. some (pos 20)) "20"))
wait_for_run_terminal-Ends_example =
    wait_for_run_terminal-Ends (λ s. some (pos 20)) "20" "p1" "r1" quiet 7 quiet-IsPaused

abbrev marked : String → String
marked key = if key == "lko_abc" then "h1" else "h0"

abbrev no_keys : KeyTable
no_keys = record { rows = []; projects = "p1" ∷ []; reachable = true }

create_api_key-validated_example :
    validated marked
      (create_api_key marked "k1" 4 "" "p1" "ci"
        (some "abc")
        (record { table = some no_keys; memory = [] })).1.table
      "lko_abc"
    ≡ some "p1"
unfolding create_api_key insert_key resolve_project_id trim_space
create_api_key-validated_example =
    create_api_key-validated marked "k1" 4 "" "p1" "ci" (some "abc") no_keys
      (record { table = some no_keys; memory = [] }) "lko_abc" "p1" refl (refl, refl)

abbrev key_of : String → String → KeyRow
key_of id hash = record {
  id = id;
  project_id = "p1";
  name = "ci";
  key_hash = hash;
  created_at = 4;
  revoked_at = none;
}

abbrev two_keys : KeyTable
two_keys = record {
  rows = key_of "k1" "h0" ∷ key_of "k2" "h1" ∷ [];
  projects = "p1" ∷ [];
  reachable = true;
}

revoke_api_key-validated_example :
    (scope : String) × (resolve_project_id "p1" "" ≡ some scope)
    × IsSpared (marked "lko_abc") "k1" scope two_keys.rows "p1"
unfolding revoke_api_key revoke_rows resolve_project_id trim_space validate_api_key
revoke_api_key-validated_example =
    revoke_api_key-validated marked 8 "p1" "" "k1" two_keys
      (record { table = some two_keys; memory = [] }) "lko_abc" "p1" "k1" refl refl refl

abbrev answer_of : Option AgentObject → Result AgentObject
answer_of none = failed not_found
answer_of (some o) = ok o

-- A cluster with room for one object.
abbrev agents : AgentClient
agents = record {
  Cluster = Option AgentObject;
  get = λ n m w. (answer_of w, w);
  create = λ n o w. (ok tt, some o);
  update = λ n o w. (ok tt, some o);
  delete = λ n m w. (ok tt, none);
}

agents-IsFaithful : IsFaithful agents
agents-IsFaithful = record { created = λ n o w h. refl; updated = λ n o w h. refl }

abbrev sync : SyncConfig
sync = record {
  enabled = true;
  strict = true;
  agent_namespace = "";
  default_agent_image = "img:latest";
}

abbrev draws : Draws
draws = record { deployment_id = "d2"; revision_row_id = "x1"; revision_id = "v1"; now = 6 }

abbrev stored : DeploymentRecord
stored = record {
  id = "d1";
  project_id = "p1";
  repo_url = "https://r";
  git_ref = "main";
  repo_path = "/";
  runtime_profile = "gvisor";
  mode = "mode_a";
  current_image_digest = "img:2";
  created_at = 1;
  updated_at = 1;
}

abbrev plane : Plane
plane = record {
  postgres = true;
  reachable = true;
  projects = "p1" ∷ [];
  deployments = stored ∷ [];
  revisions =
      record {
        id = "x0";
        deployment_id = "d1";
        revision_id = "v0";
        image_digest = " img:1";
        reason = "create";
        created_at = 0;
      }
      ∷ [];
}

abbrev reverted : DeploymentRecord
reverted = record stored { current_image_digest = "img:1"; updated_at = 6 }

rollback_deployment_v2-IsReverted_example :
    IsReverted agents sync draws "p1" "d1" "v0" "" plane reverted
      (rollback_deployment_v2 agents sync draws "p1" " d1" "v0" "" plane none).1
      (rollback_deployment_v2 agents sync draws "p1" " d1" "v0" "" plane none).2
unfolding rollback_deployment_v2 rollback_deployment_by_digest get_deployment replace_deployment
    record_deployment_revision get_deployment_revision resolve_project_id trim_space
    sync_agent_deployment_record
rollback_deployment_v2-IsReverted_example =
    rollback_deployment_v2-IsReverted agents sync draws "p1" " d1" "v0" "" plane none reverted
      agents-IsFaithful refl
