-- ===== src/Tests.antt =====
-- Concrete runs of the model, and the theorems at concrete inputs.
mod Sample
mod Bus
mod Words
mod Serving
mod Tools
mod Loading
