-- ===== src/Memory.antt =====
-- memory/multi_tier.py: the short-term memory that compresses itself, and the tiers around it;
-- memory/store.py: the vector store, the embedding and the memory over them.
pub mod ShortTerm
pub mod Vectors
pub mod Store
pub mod Tiers
mod Tests
