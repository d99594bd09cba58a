-- ===== src/Registry/Payloads.antt =====
-- runtime/launcher/kernel/ulk_api.c: the texts of the built-in responses.
use universal_launcher.Prelude.{Bytes, codes}

abbrev pub product_payload : Bytes
product_payload =
    codes
      "{\"schema\":\"ulk.command_response.v1\",\"status\":\"ok\",\"payload\":{\"schema\":\"ulk.product.v1\",\"product_id\":\"universal.default\",\"binding_id\":\"external.product_binding\",\"registry_status\":\"empty\",\"models\":{\"install_ref\":\"ulk.install_ref.v1\",\"instance\":\"ulk.instance.v1\",\"profile\":\"ulk.profile.v1\",\"account_ref\":\"ulk.account_ref.v1\",\"artifact_set\":\"ulk.artifact_set.v1\",\"launch_plan\":\"ulk.launch_plan.v1\",\"diagnostic_report\":\"ulk.diagnostic_report.v1\"}},\"error\":null}"

abbrev pub install_refs_payload : Bytes
install_refs_payload =
    codes
      "{\"schema\":\"ulk.command_response.v1\",\"status\":\"ok\",\"payload\":{\"schema\":\"ulk.install_refs.v1\",\"install_refs\":[],\"model\":\"ulk.install_ref.v1\"},\"error\":null}"

abbrev pub install_ref_inspect_payload : Bytes
install_ref_inspect_payload =
    codes
      "{\"schema\":\"ulk.command_response.v1\",\"status\":\"ok\",\"payload\":{\"schema\":\"ulk.install_ref_inspect.v1\",\"status\":\"not_found\",\"install_ref\":null,\"registry_status\":\"empty\",\"diagnostics\":[{\"code\":\"empty_registry\",\"message\":\"no install refs are registered in the minimal universal launcher kernel\"}]},\"error\":null}"

abbrev pub instances_payload : Bytes
instances_payload =
    codes
      "{\"schema\":\"ulk.command_response.v1\",\"status\":\"ok\",\"payload\":{\"schema\":\"ulk.instances.v1\",\"instances\":[],\"model\":\"ulk.instance.v1\"},\"error\":null}"

abbrev pub instance_create_preview_payload : Bytes
instance_create_preview_payload =
    codes
      "{\"schema\":\"ulk.command_response.v1\",\"status\":\"ok\",\"payload\":{\"schema\":\"ulk.instance_create_plan.v1\",\"status\":\"planned\",\"dry_run\":true,\"instance\":null,\"effects\":[\"workspace_write\"],\"execution\":\"requires_product_binding\",\"diagnostics\":[{\"code\":\"preview_only\",\"message\":\"minimal universal launcher can plan instance creation but owns no product-specific instance materialization\"}]},\"error\":null}"

abbrev pub instance_create_execute_refusal_payload : Bytes
instance_create_execute_refusal_payload =
    codes
      "{\"schema\":\"ulk.command_response.v1\",\"status\":\"refused\",\"payload\":{\"schema\":\"ulk.refusal.v1\",\"operation\":\"instance.create\",\"code\":\"product_binding_required\",\"severity\":\"error\",\"message\":\"instance creation requires a product binding and workspace store\",\"retry_possible\":true,\"suggested_next_command\":\"run the product binding instance creation command\"},\"error\":{\"code\":\"product_binding_required\",\"message\":\"instance creation requires a product binding and workspace store\"}}"

abbrev pub profiles_payload : Bytes
profiles_payload =
    codes
      "{\"schema\":\"ulk.command_response.v1\",\"status\":\"ok\",\"payload\":{\"schema\":\"ulk.profiles.v1\",\"profiles\":[],\"model\":\"ulk.profile.v1\"},\"error\":null}"

abbrev pub account_refs_payload : Bytes
account_refs_payload =
    codes
      "{\"schema\":\"ulk.command_response.v1\",\"status\":\"ok\",\"payload\":{\"schema\":\"ulk.account_refs.v1\",\"account_refs\":[],\"model\":\"ulk.account_ref.v1\"},\"error\":null}"

abbrev pub artifact_sets_payload : Bytes
artifact_sets_payload =
    codes
      "{\"schema\":\"ulk.command_response.v1\",\"status\":\"ok\",\"payload\":{\"schema\":\"ulk.artifact_sets.v1\",\"artifact_sets\":[],\"model\":\"ulk.artifact_set.v1\"},\"error\":null}"

abbrev pub launch_plan_dry_run_payload : Bytes
launch_plan_dry_run_payload =
    codes
      "{\"schema\":\"ulk.command_response.v1\",\"status\":\"ok\",\"payload\":{\"schema\":\"ulk.launch_plan.v1\",\"plan_id\":\"ulk.plan.dry_run\",\"dry_run\":true,\"product_id\":\"universal.default\",\"install_ref\":null,\"instance\":null,\"profile\":null,\"account_ref\":null,\"artifact_set\":null,\"argv\":[],\"preflight\":[],\"steps\":[],\"execution\":\"not_started\"},\"error\":null}"

abbrev pub launch_plan_execute_payload : Bytes
launch_plan_execute_payload =
    codes
      "{\"schema\":\"ulk.command_response.v1\",\"status\":\"ok\",\"payload\":{\"schema\":\"ulk.launch_plan.v1\",\"plan_id\":\"ulk.plan.preview\",\"dry_run\":false,\"product_id\":\"universal.default\",\"install_ref\":null,\"instance\":null,\"profile\":null,\"account_ref\":null,\"artifact_set\":null,\"argv\":[],\"preflight\":[],\"steps\":[],\"execution\":\"requires_product_binding\"},\"error\":null}"

abbrev pub diagnostics_payload : Bytes
diagnostics_payload =
    codes
      "{\"schema\":\"ulk.command_response.v1\",\"status\":\"ok\",\"payload\":{\"schema\":\"ulk.diagnostic_report.v1\",\"report_id\":\"ulk.diagnostic.minimal\",\"status\":\"ok\",\"checks\":[{\"id\":\"command_graph\",\"status\":\"ok\"},{\"id\":\"product_registry\",\"status\":\"empty\"},{\"id\":\"setup_mutation\",\"status\":\"not_owned\"}]},\"error\":null}"

abbrev pub instance_create_refusal_message : Bytes
instance_create_refusal_message =
    codes "instance creation requires a product binding and workspace store"

abbrev pub unsupported_payload : Bytes
unsupported_payload =
    codes
      "{\"schema\":\"ulk.command_response.v1\",\"status\":\"unsupported\",\"payload\":null,\"error\":{\"code\":\"unsupported_command\",\"message\":\"Command is not supported by the Universal Launcher command graph\"}}"

abbrev pub unsupported_message : Bytes
unsupported_message = codes "Command is not supported by the Universal Launcher command graph"

abbrev pub invalid_payload : Bytes
invalid_payload =
    codes
      "{\"schema\":\"ulk.command_response.v1\",\"status\":\"invalid_argument\",\"payload\":null,\"error\":{\"code\":\"invalid_argument\",\"message\":\"Universal Launcher command request is invalid\"}}"

abbrev pub invalid_message : Bytes
invalid_message = codes "Universal Launcher command request is invalid"
