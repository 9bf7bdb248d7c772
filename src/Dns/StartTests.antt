-- ===== src/Dns/StartTests.antt =====
-- The theorem on the start of the DNS service at a concrete configuration.
use rins.Prelude.{ℕ, List, [], ◌∷◌, none, some, true, refl, ◌>>=◌, Ends, arith}
use rins.Reactor.Text.{
  Text, text_eq, is_space, first_not_empty, trim_left, last_not_empty, trim_right, trim, index_of,
}
use rins.Reactor.ConfigFile.{
  is_at, is_section, split_lines, add_first, parse_number, read_signed, read_digits,
}
use rins.Reactor.ConfigFile.Log.{opens, sets, directive, entry_directive, entry_log, last_value}
use rins.Reactor.ConfigFile.Lines.{print, print_directive}
use rins.Reactor.TcpServer.Start.{reactor}
use rins.Reactor.TcpServer.Boot.{port_key}
use rins.Reactor.BufPool
use rins.Reactor.BufPool.History.{init-IsValid}
use rins.Reactor.EventLoop
use rins.Reactor.ConnTable.{new_table}
use rins.Reactor.ReactorBuf.Room.{IsReady}
use rins.Reactor.Message.{head_bytes}
use rins.Reactor.TcpConn.{World}
use rins.Reactor.TcpConn.Framing.{Msg}
use rins.Agent.LoadBalance.{GetRouteRequest, GetRouteResponse}
use rins.Dns.Subscribe.{new_subscribe_list}
use rins.Dns.Service.{Service}
use rins.Dns.Service.Wire.{responses, answer}
use rins.Dns.Service.Answering.{serve_client, main-answered}
use rins.Reactor.TcpServer.Start.{works}
use rins.Dns.Start.{main}

-- Port 80
abbrev text : Text
unfolding print print_directive
text = print (opens reactor ∷ sets port_key (b'8' ∷ b'0' ∷ []) ∷ [])

abbrev log : List (Text × (Text × Text))
log = (reactor, (port_key, b'8' ∷ b'0' ∷ [])) ∷ []

-- A thread before its first connection
abbrev client : World Service
client = record {
  conn = record { connfd = 5; in_buf = none; out_buf = none };
  pool = BufPool.init;
  loop = EventLoop.init;
  table = new_table 10;
  user = record {
    params = [];
    subs = new_subscribe_list;
    route = record { data_map = []; temp_map = []; version = 0 };
    told = [];
  };
}

abbrev parse_any : List ℕ → GetRouteRequest
parse_any body = record { modid = 1; cmdid = 2 }

abbrev serialize_any : GetRouteResponse → List ℕ
serialize_any resp = resp.modid ∷ resp.cmdid ∷ []

-- A request, and a message that has no handler
abbrev messages : List Msg
messages = (1, 7 ∷ []) ∷ (9, 8 ∷ []) ∷ []

abbrev chunks : List (List ℕ)
chunks = (1 ∷ 0 ∷ 0 ∷ 0 ∷ 1 ∷ 0 ∷ []) ∷ (0 ∷ 0 ∷ 7 ∷ 9 ∷ 0 ∷ 0 ∷ 0 ∷ 1 ∷ 0 ∷ 0 ∷ 0 ∷ 8 ∷ []) ∷ []

main-answered_example :
    Ends
      (main (some text) (works 4) true >>= serve_client parse_any serialize_any 5 9 chunks client)
      (λ v.
        IsReady [] (v.conn.in_buf, v.pool)
        × IsReady (2 ∷ 0 ∷ 0 ∷ 0 ∷ 2 ∷ 0 ∷ 0 ∷ 0 ∷ 1 ∷ 2 ∷ []) (v.conn.out_buf, v.pool))
unfolding entry_log last_value directive entry_directive is_section is_at split_lines add_first text
    text_eq is_space first_not_empty trim_left last_not_empty trim_right trim index_of parse_number
    read_signed read_digits responses answer head_bytes
main-answered_example =
    main-answered parse_any serialize_any text log 4 5 9 messages chunks client refl (omega arith)
      (omega arith) (omega arith) (omega arith) refl (omega arith) (omega arith) init-IsValid
      (omega arith)
