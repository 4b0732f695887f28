-- ===== src/Example.antt =====
-- The programs of example/: clients and servers on the two levels of the library. `Example.Engine` has
-- what the programs on stomp_engine.h share, and `Example.Messenger` those on stomp_messenger.h.
pub mod Engine
pub mod Messenger
