-- ===== src/Deck.antt =====
-- opencode-deck/opencode-deck/ocdeck: the earlier deck, its registry of agents and its broker.
pub mod Agents
pub mod Registry
pub mod Broker
