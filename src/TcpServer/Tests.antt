-- ===== src/TcpServer/Tests.antt =====
-- Runs of yuyu/tcp_server.cc.
