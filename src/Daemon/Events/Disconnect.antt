-- ===== src/Daemon/Events/Disconnect.antt =====
-- What the end of a connection takes with it.
