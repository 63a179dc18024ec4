-- ===== src/Tests.antt =====
-- Runs of the models on small inputs, and the theorems at inputs that meet their hypotheses.
mod Trellises
mod Solving
mod Modes
mod Trips
mod Matching
mod Fleets
mod Routes
mod Ways
