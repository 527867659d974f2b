-- ===== src/Tests.antt =====
-- Tests of the definitions on concrete rows, and the properties at inputs that meet their
-- hypotheses, a module for each component.
mod Access
mod Attempts
mod Sessions
mod Usage
mod Queue
mod Stages
mod Opening
mod Joining
mod Housing
mod Visiting
mod Registering
mod Playing
mod Storing
mod Watching
