-- ===== src/Agent/StartTests.antt =====
-- The theorem on the agent's client threads at a concrete one.
use rins.Prelude.{[], some, ok, Returns, arith, ◌≡◌, fault, bad_pointer}
use rins.Reactor.Callback.{new_dns_request}
use rins.Reactor.TcpClient.Link.{in_progress, connected}
use rins.Agent.Server.{dns_client_routes}
use rins.Agent.Start.{dnsserver, dns_client_thread}
use rins.Agent.Life.{Handling, Lives, client_thread-Lives}

abbrev drop_all : Handling
drop_all msgid length view s = ok s

client_thread-Lives_example :
    Returns
      (dns_client_thread (some []) (record { socket = some 6; connect = in_progress }) 5)
      (Lives drop_all dnsserver new_dns_request [] 6 5)
    × (dns_client_thread (some []) (record { socket = some 6; connect = connected }) 5
        ≡ fault bad_pointer)
unfolding dns_client_thread
client_thread-Lives_example =
    client_thread-Lives drop_all dnsserver new_dns_request dns_client_routes [] 6 5
      (λ e. omega (arith, e)) (λ e. omega (arith, e))
