-- ===== src/Messenger.antt =====
-- src/stomp_messenger.c: a client of a broker. `Messenger.Base` has the data, `Messenger.Setup` the
-- start, the end and the endpoint, `Messenger.Requests` the frames that are sent and their receipts,
-- and `Messenger.Exchange` the connection, the messages sent and those received.
pub mod Base
pub mod Setup
pub mod Requests
pub mod Exchange
pub mod Answers
pub mod Session
