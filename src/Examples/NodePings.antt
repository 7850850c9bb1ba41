-- ===== src/Examples/NodePings.antt =====
-- A node's journal that is asked to claim the ping.
use herdr_distributed_mesh.Prelude.{◌≡◌, refl, true, none, [], ◌∷◌}
use herdr_distributed_mesh.Errors.{ok, transaction, ◌>>=◌}
use herdr_distributed_mesh.Protocol.Tokens.{valid_command_id, command_token}
use herdr_distributed_mesh.Protocol.Lifecycle.{is_lifecycle_command}
use herdr_distributed_mesh.Protocol.Commands.{
  validate_command, valid_command_body, valid_ttl, command_project,
}
use herdr_distributed_mesh.Protocol.Messages.{Role-discrete, ActorOrigin-discrete, command_unknown}
use herdr_distributed_mesh.Journal.Records.{admissible_command, fits_journal}
use herdr_distributed_mesh.NodeJournal.{
  NodeDb, read_node_entry, read_node_entries, read_node_rows, the_only_entry, check_node_fence,
}
use herdr_distributed_mesh.NodeJournal.Methods.{
  claim, claim_found, claim_new, claim_fenced, claim_project, claim_granted, running_row,
}
use herdr_distributed_mesh.Examples.Pings.{wire, ping}

abbrev pub idle : NodeDb
idle = record { commands = []; lifecycle = []; scopes = [] }

abbrev pub busy : NodeDb
busy = record idle { commands = running_row ping ∷ [] }

pub ping-claimed : claim wire "node-1" ping idle ≡ (ok (none, true), busy)
unfolding claim transaction ◌>>=◌ admissible_command is_lifecycle_command validate_command
    valid_command_id command_token valid_command_body Role-discrete ActorOrigin-discrete valid_ttl
    read_node_entry read_node_entries read_node_rows the_only_entry claim_found claim_new
    fits_journal command_unknown check_node_fence claim_fenced claim_project command_project
    claim_granted
ping-claimed = refl
