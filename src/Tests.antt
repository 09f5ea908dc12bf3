-- ===== src/Tests.antt =====
-- The development at concrete inputs: instances of what is left as a parameter, and runs of the
-- endpoints over them.
mod Worlds
mod Clients
mod Servers
mod Registries
mod Names
mod Threads
mod Objects
mod Datagrams
mod Accepting
mod Keyed
mod Writes
