-- ===== src/Reference/Examples.antt =====
-- The theorems on reference graphs, applied to a graph with a profile and without an artifact set.
use universal_launcher.Prelude.{◌≡◌, refl, ◌↔◌, true, none, some, [], codes, bytes_eq, pos}
use universal_launcher.View.{null, at, is_ok}
use universal_launcher.Setup.Checks.{sizeof_reference, managed, active}
use universal_launcher.Setup.Exchange.{fresh}
use universal_launcher.Reference.Model.{
  Graph, Validation, sizeof_product, sizeof_instance, sizeof_profile, sizeof_launch_plan,
  sizeof_graph, sizeof_validation, no_issue,
}
use universal_launcher.Reference.Validate.{
  view_valid, identifier_valid, parts_of, graph_validate, Parts,
}
use universal_launcher.Reference.Agreement.{Agrees, all_valid}
use universal_launcher.Reference.Validity.{plan_status, graph_validate_iff, graph_validate-fresh}

abbrev game_parts : Parts
game_parts = record {
  product = record {
    struct_size = sizeof_product;
    product_id = at (codes "game");
    binding_id = at (codes "game.binding");
  };
  reference = record {
    struct_size = sizeof_reference;
    install_id = at (codes "main");
    product_id = at (codes "game");
    ownership = managed;
    setup_state_ref = at (codes "state");
    exact_product_version = at (codes "1.0");
    entrypoint = at (codes "bin/run");
    capabilities_json = at (codes "[]");
    lifecycle_status = active;
    last_verification_identity = at (codes "v2");
    state_revision = at (codes "r4");
  };
  instance_ref = record {
    struct_size = sizeof_instance;
    instance_id = at (codes "i1");
    product_id = at (codes "game");
    install_id = at (codes "main");
    profile_id = at (codes "player");
    artifact_set_id = null 0;
    binding_revision = at (codes "b1");
  };
  profile = some (record {
    struct_size = sizeof_profile;
    profile_id = at (codes "player");
    product_id = at (codes "game");
    revision = at (codes "p1");
  });
  artifact_set = none;
  plan = record {
    struct_size = sizeof_launch_plan;
    plan_id = at (codes "plan-1");
    product_id = at (codes "game");
    instance_id = at (codes "i1");
    install_id = at (codes "main");
    profile_id = at (codes "player");
    artifact_set_id = at [];
    install_state_revision = at (codes "r3");
    instance_binding_revision = at (codes "b1");
    composition_digest = at (codes "d1");
  };
}

abbrev game_graph : Graph
game_graph = record {
  struct_size = sizeof_graph;
  product = some game_parts.product;
  install_reference = some game_parts.reference;
  instance_ref = some game_parts.instance_ref;
  profile = game_parts.profile;
  artifact_set = none;
  launch_plan = some game_parts.plan;
}

abbrev blank_validation : Validation
blank_validation = record {
  struct_size = sizeof_validation;
  valid = pos 0;
  issue = no_issue;
  launch_plan_status = fresh;
  status_code = null 0;
}

graph_validate_iff_example :
    (is_ok (graph_validate (some game_graph) (some blank_validation)).0 ≡ true)
    ↔ ((all_valid game_parts ≡ true) × Agrees game_parts)
unfolding parts_of
graph_validate_iff_example =
    graph_validate_iff game_graph game_parts blank_validation refl refl refl

graph_validate_ok : is_ok (graph_validate (some game_graph) (some blank_validation)).0 ≡ true
unfolding graph_validate identifier_valid view_valid bytes_eq
graph_validate_ok = refl

-- The plan was made for an older revision of the install.
graph_validate-fresh_example :
    (plan_status (graph_validate (some game_graph) (some blank_validation)) ≡ some fresh)
    ↔ ((codes "r4" ≡ codes "r3") × (codes "b1" ≡ codes "b1"))
unfolding parts_of
graph_validate-fresh_example =
    graph_validate-fresh game_graph game_parts blank_validation refl refl refl graph_validate_ok
