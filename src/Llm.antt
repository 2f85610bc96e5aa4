-- ===== src/Llm.antt =====
-- backend/app/llm: the conversation that is sent to a model provider.
pub mod Conversation
