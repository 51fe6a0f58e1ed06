-- ===== src/Options.antt =====
-- Index options (backend/app/services/fo_suggestions.py).
mod Examples
pub mod Chain
pub mod Spreads
