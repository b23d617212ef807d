-- ===== src/Tests.antt =====
-- Runs on concrete inputs, and each theorem at an input that meets its hypotheses.
mod Protocol
mod Shell
mod Layout
mod Bridge
mod Panels
mod Screenshot
mod Requests
mod Remote
mod Hands
mod Files
