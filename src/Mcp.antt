-- ===== src/Mcp.antt =====
-- packages/fde-mcp: the worker that embeds nodes, edges and chunks.
pub mod Embedder
mod Tests
