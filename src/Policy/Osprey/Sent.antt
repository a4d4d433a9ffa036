-- ===== src/Policy/Osprey/Sent.antt =====
-- What the coordinator is sent.
use agent_action_control.Domain.ProposedAction.{ProposedAction}
use agent_action_control.Domain.Principal.{Principal}
use agent_action_control.Json.{Json}
