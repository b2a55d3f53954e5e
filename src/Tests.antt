-- ===== src/Tests.antt =====
-- Runs of the modelled code on inputs of the source's own tests, and the theorems at concrete inputs.
mod Fixtures
mod Tokens
mod Memory
mod Chain
mod Urls
mod Frontend
mod Http
mod Pins
mod Origins
mod Store
mod Shortcuts
mod Buffer
mod Cook
mod Inspect
