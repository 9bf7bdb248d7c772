-- ===== src/Dns/Service/Answering.antt =====
-- What the requests of a connection lead to: the responses, in order, in its output buffer.
use rins.Prelude.{
  ℕ, ◌+◌, ◌^◌, ◌≤◌, ◌<◌, ◌≡◌, List, [], map, length, All, none, some, true, Result, ◌>>=◌, Ends,
  Ends->>=, Ends-map, Ends_of_Returns,
}
use rins.Reactor.ReactorBuf.Room.{IsReady}
use rins.Reactor.TcpConn.{World, input, output}
use rins.Reactor.TcpConn.Framing.{Msg, IsMessage, stream}
use rins.Reactor.TcpConn.Send.{capacity_of}
use rins.Reactor.TcpConn.Stream.{concat, IsChunk, read_all, read_all-Serves}
use rins.Agent.LoadBalance.{GetRouteRequest, GetRouteResponse}
use rins.Reactor.Text.{Text}
use rins.Reactor.ConfigFile.{split_lines}
use rins.Reactor.ConfigFile.Log.{directive, entry_log}
use rins.Reactor.TcpServer.Start.{reactor, max_conn, thread_num}
use rins.Reactor.TcpServer.Boot.{number_of, text_3, text_1024}
use rins.Dns.Start.{Running, Started, main, main-Started}
use rins.Dns.Service.{Service}
use rins.Dns.Service.Wire.{serve, responses}
use rins.Dns.Service.Replying.{Left, input-Left, serve-Left, finished, begun}
use rins.Prelude.{refl, ap, ◌∙◌, length-replicate, ok}
use rins.Reactor.BufPool.Laws
use rins.Reactor.ConnTable.{new_table, unset}
use rins.Reactor.TcpConn.{connect}
use rins.Reactor.TcpServer.Start.{works}
use rins.Dns.Service.Wire.{on_conn}
use rins.Dns.Service.Replying.{connected, connect-connected}
use rins.Prelude.{arith}

module _ (parse_request : List ℕ → GetRouteRequest) (serialize : GetRouteResponse → List ℕ) where
  -- The connection of a client from its constructor on, with what the process has registered and its
  -- table of connections.
  abbrev pub serve_client : ℕ → ℕ → List (List ℕ) → World Service → Running → Result (World Service)
  serve_client connfd name chunks w process = do
    v ←
        connect (on_conn process.statics.conn_start_cb) connfd name
          (record w { table = process.boot.server.table })
    read_all (on_conn process.statics.conn_close_cb)
        (serve parse_request serialize process.statics.router) chunks v

  pub main-answered :
      (text : Text) (log : List (Text × (Text × Text))) (fd connfd name : ℕ) (ms : List Msg)
      (chunks : List (List ℕ)) (w : World Service)
      → entry_log none (map directive (split_lines text)) ≡ some log
      → number_of log reactor max_conn text_1024 + 3 < 2 ^ 31
      → 0 < number_of log reactor thread_num text_3
      → number_of log reactor thread_num text_3 < 2 ^ 31
      → connfd < number_of log reactor max_conn text_1024 + 3
      → concat chunks ≡ stream ms []
      → All IsMessage ms
      → All IsChunk chunks
      → Laws.IsValid w.pool
      → length (responses parse_request serialize w.user.route ms) ≤ capacity_of none
      → Ends (main (some text) (works fd) true >>= serve_client connfd name chunks w) (λ v.
        IsReady [] (input v)
        × IsReady (responses parse_request serialize w.user.route ms) (output v))
  unfolding new_table
  main-answered text log fd connfd name ms chunks w e few pos small inside cut vs hs ok_pool room =
      let r = w.user.route in
      let all = responses parse_request serialize r ms in
      Ends->>= (main (some text) (works fd) true) (serve_client connfd name chunks w)
        (Started log fd) _
        (Ends_of_Returns (main (some text) (works fd) true) (Started log fd)
          (main-Started text log fd e few pos small))
        λ process started.
          let router = process.statics.router in
          let cb = on_conn process.statics.conn_close_cb in
          let x : World Service = record w { table = process.boot.server.table } in
          let n = number_of log reactor max_conn text_1024 in
          let size : length process.boot.server.table.conns ≡ n + 3 =
            ap (λ t. length t.conns) started.booted.table ∙ length-replicate (n + 3) unset in
          let makes : connect (on_conn process.statics.conn_start_cb) connfd name x
              ≡ ok (connected connfd name x) =
            ap (λ c. connect (on_conn c) connfd name x) started.starts_with
            ∙ connect-connected connfd name x (omega (arith, size, inside)) in
          rw makes (
            Ends-map
              (read_all cb (serve parse_request serialize router) chunks (connected connfd name x))
              _ _
              (λ v g.
                (g.0, finished parse_request serialize r connfd all router started.routes v g.1))
              (read_all-Serves cb (serve parse_request serialize router)
                (Left parse_request serialize r connfd all)
                (input-Left parse_request serialize r connfd all)
                (serve-Left parse_request serialize r connfd all router started.routes) ms chunks
                (connected connfd name x) cut vs hs
                (begun parse_request serialize connfd name ms x ok_pool room)
                (record { held = refl; pool = ok_pool })))
