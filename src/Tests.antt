-- ===== src/Tests.antt =====
-- Runs of the models on concrete inputs.
mod Agent
mod Netns
mod Aws
mod Taint
mod Config
mod Plugin
