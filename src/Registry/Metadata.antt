-- ===== src/Registry/Metadata.antt =====
-- runtime/launcher/kernel/ulk_api.c: the metadata of the built-in commands and of the registered ones.
use universal_launcher.Prelude.{
  Bool, not, Option, none, some, List, [], ◌∷◌, ◌++◌, if◌then◌else◌, Bytes, codes, c_string,
}
use universal_launcher.View.{StringView, at}
use universal_launcher.Registry.Names.{string_equals}
use universal_launcher.Registry.Model.{Fields, Text, text_of, Entry, is_missing}
use universal_launcher.Registry.Store.{find_registered}

-- The built-in kinds; ULK_BUILTIN_NONE is `none_builtin`.
pub data BuiltinKind : Type 0 where
  none_builtin command_graph_inspect product_inspect install_refs_list install_refs_inspect
        instance_create instance_list profiles_list account_refs_list artifact_sets_list
        launch_plan_build diagnostics_run :
      BuiltinKind

-- ulk_command_metadata: the texts as C strings.
pub record Metadata : Type 0 where
  pub fields : Fields Bytes
  pub handler_status : Bytes
  pub kind : BuiltinKind

-- What the eleven rows of the table share.
abbrev pub builtin_row : Bytes → Bytes → Bytes → BuiltinKind → Metadata
builtin_row name effects behavior kind = record {
  fields = record {
    command_name = name;
    effects_json = effects;
    request_schema = codes "ulk.command_request.v1";
    response_schema = codes "ulk.command_response.v1";
    result_schema = codes "ulk.result.v1";
    refusal_schema = codes "ulk.refusal.v1";
    dry_run_behavior = behavior;
    availability = codes "available";
    owner = codes "universal-launcher";
    binding = codes "builtin";
  };
  handler_status = codes "builtin";
  kind = kind;
}

unfoldable pub builtin_commands : List Metadata
builtin_commands =
    builtin_row (codes "command_graph.inspect") (codes "[\"none\"]") (codes "read_only")
      command_graph_inspect
    ∷ builtin_row (codes "product.inspect") (codes "[\"none\"]") (codes "read_only") product_inspect
    ∷ builtin_row (codes "install_refs.list") (codes "[\"workspace_read\"]") (codes "read_only")
        install_refs_list
    ∷ builtin_row (codes "install_refs.inspect") (codes "[\"workspace_read\"]") (codes "read_only")
        install_refs_inspect
    ∷ builtin_row (codes "instance.create") (codes "[\"workspace_write\"]")
        (codes "preview_or_refusal") instance_create
    ∷ builtin_row (codes "instance.list") (codes "[\"workspace_read\"]") (codes "read_only")
        instance_list
    ∷ builtin_row (codes "profiles.list") (codes "[\"workspace_read\"]") (codes "read_only")
        profiles_list
    ∷ builtin_row (codes "account_refs.list") (codes "[\"workspace_read\"]") (codes "read_only")
        account_refs_list
    ∷ builtin_row (codes "artifact_sets.list") (codes "[\"workspace_read\"]") (codes "read_only")
        artifact_sets_list
    ∷ builtin_row (codes "launch_plan.build") (codes "[\"workspace_read\"]") (codes "preview_only")
        launch_plan_build
    ∷ builtin_row (codes "diagnostics.run") (codes "[\"workspace_read\"]") (codes "read_only")
        diagnostics_run
    ∷ []

unfoldable pub find_row : List Metadata → StringView → Option Metadata
find_row [] name = none
find_row (row ∷ rows) name =
    if string_equals name row.fields.command_name then some row else find_row rows name

unfoldable pub find_builtin : StringView → Option Metadata
unfolding builtin_commands find_row
find_builtin name = find_row builtin_commands name

-- A text as the C string that stands in its block.
abbrev pub string_of : Option Text → Bytes
string_of t = c_string (text_of t)

unfoldable pub metadata_from_registered : Entry → Metadata
metadata_from_registered e = record {
  fields = record {
    command_name = string_of e.fields.command_name;
    effects_json = string_of e.fields.effects_json;
    request_schema = string_of e.fields.request_schema;
    response_schema = string_of e.fields.response_schema;
    result_schema = string_of e.fields.result_schema;
    refusal_schema = string_of e.fields.refusal_schema;
    dry_run_behavior = string_of e.fields.dry_run_behavior;
    availability = string_of e.fields.availability;
    owner = string_of e.fields.owner;
    binding = string_of e.fields.binding;
  };
  handler_status = codes "registered";
  kind = none_builtin;
}

unfoldable pub command_is_builtin : Bytes → Bool
unfolding find_builtin
command_is_builtin name = not (is_missing (find_builtin (at name)))

-- The rows of the first loop: a registered command takes the place of a built-in one.
unfoldable pub row_of : List Entry → Metadata → Metadata
unfolding find_registered metadata_from_registered
row_of entries row = elim (find_registered entries (at row.fields.command_name)) [
  | none ↦ row
  | some e ↦ metadata_from_registered e
]

unfoldable pub builtin_rows : List Entry → List Metadata → List Metadata
unfolding row_of
builtin_rows entries [] = []
builtin_rows entries (row ∷ rows) = row_of entries row ∷ builtin_rows entries rows

-- The rows of the second loop.
unfoldable pub registered_rows : List Entry → List Metadata
unfolding command_is_builtin metadata_from_registered
registered_rows [] = []
registered_rows (e ∷ entries) =
    if command_is_builtin (string_of e.fields.command_name)
    then registered_rows entries
    else metadata_from_registered e ∷ registered_rows entries

unfoldable pub graph_rows : List Entry → List Metadata
unfolding builtin_rows registered_rows
graph_rows entries = builtin_rows entries builtin_commands ++ registered_rows entries
