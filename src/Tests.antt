-- ===== src/Tests.antt =====
-- Tests on concrete data, and instances of the theorems where their hypotheses hold.
mod Keys
mod Tables
mod Regions
mod Topologies
mod Traces
mod Environments
mod Starts
mod Controls
mod Reports
mod Logs
mod Finishes
mod Threads
mod Sessions
mod Volleys
mod Surveys
