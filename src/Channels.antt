-- ===== src/Channels.antt =====
-- WebSocket connections: tickets (backend/apps/authentication/ws_ticket.py and ws_auth.py) and the
-- agent's connection (backend/apps/nodes/consumers.py, `is_agent_connected` of
-- backend/apps/nodes/agent_client.py).
pub mod Redis
pub mod Tickets
pub mod SingleUse
pub mod Agents
pub mod Connected
pub mod Presence
pub mod Reachable
mod Tests
