-- ===== src/Net/Server/Lifecycle/Unanswered.antt =====
-- Messages that keep a server of net/server.cpp from being stopped.
use sabot.Universe.{Universe}
use sabot.Net.Response.{Response}
use sabot.Net.Server.Lifecycle.{Server}
