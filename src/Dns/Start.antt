-- ===== src/Dns/Start.antt =====
-- The start of the DNS service: `main` of dns/src/dns_service.cc. The thread that looks for changes
-- is Service.watch.
use rins.Prelude.{
  ℕ, ◌+◌, ◌^◌, ◌<◌, ◌≡◌, refl, subst, ◌==◌, if◌then◌else◌, List, [], ◌∷◌, map, Option, none, some,
  Bool, true, Result, ok, ◌>>=◌, ◌>>◌, check, exited, Returns, Returns->>=, arith,
}
use rins.Prelude.Maps.{find, put}
use rins.Reactor.Text.{Text, first_not_empty, is_space}
use rins.Reactor.ConfigFile.{split_lines, parse_number, read_signed, read_digits}
use rins.Reactor.ConfigFile.Log.{directive, entry_log}
use rins.Reactor.Message.{route, no_routes, register_msg_router}
use rins.Reactor.TcpServer.Start.{Listening, works, reactor, max_conn, thread_num}
use rins.Reactor.TcpServer.Boot.{
  Boot, boot, Booted, boot-Booted, Statics, new_statics, add_msg_router, set_conn_start,
  set_conn_close, number_of, text_3, text_1024,
}
use rins.Protocol.{id_get_route_request}

-- The handler and the callbacks that `main` registers.
pub data Handler : Type 0 where
  get_route : Handler

pub data ConnCallback : Type 0 where
  create_subscribe clear_subscribe : ConnCallback

-- The process before its loop.
pub record Running : Type 0 where
  pub boot : Boot
  pub statics : Statics Handler ConnCallback

-- `main`: the contents of the file of the configuration, what the calls on the socket answer, and
-- whether `pthread_create` answers something else than -1.
unfoldable pub main : Option Text → Listening → Bool → Result Running
main file answers creates = do
  b ← boot 7778 file answers
  check creates exited
  ok (record {
    boot = b;
    statics =
        add_msg_router id_get_route_request get_route
          (set_conn_close clear_subscribe (set_conn_start create_subscribe new_statics));
  })

abbrev pub text_7778 : Text
text_7778 = b'7' ∷ b'7' ∷ b'7' ∷ b'8' ∷ []

parse_7778 : parse_number text_7778 ≡ 7778
unfolding parse_number read_signed read_digits first_not_empty is_space
parse_7778 = refl

-- The service that a file starts: its server, its callbacks, and its only route.
pub record Started (log : List (Text × (Text × Text))) (fd : ℕ) (r : Running) : Type 0 where
  pub booted : Booted log text_7778 fd r.boot
  pub starts_with : r.statics.conn_start_cb ≡ some create_subscribe
  pub ends_with : r.statics.conn_close_cb ≡ some clear_subscribe
  pub routes :
      (msgid : ℕ)
      → route msgid r.statics.router
        ≡ (if msgid == id_get_route_request then some (get_route, some none) else none)

pub main-Started :
    (text : Text) (log : List (Text × (Text × Text))) (fd : ℕ)
    → entry_log none (map directive (split_lines text)) ≡ some log
    → number_of log reactor max_conn text_1024 + 3 < 2 ^ 31
    → 0 < number_of log reactor thread_num text_3
    → number_of log reactor thread_num text_3 < 2 ^ 31
    → Returns (main (some text) (works fd) true) (Started log fd)
unfolding main add_msg_router set_conn_start set_conn_close new_statics route register_msg_router
    no_routes find put
main-Started text log fd e few pos small =
    let answers : Listening = works fd in
    Returns->>= (boot 7778 (some text) answers) _ (Booted log text_7778 fd) (Started log fd)
      (subst (λ n. Returns (boot n (some text) answers) (Booted log text_7778 fd)) parse_7778
        (boot-Booted text log text_7778 fd e few pos small))
      λ b booted. record {
        booted = booted;
        starts_with = refl;
        ends_with = refl;
        routes = λ msgid. ground arith;
      }
