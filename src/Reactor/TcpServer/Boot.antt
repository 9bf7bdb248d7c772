-- ===== src/Reactor/TcpServer/Boot.antt =====
-- How the main functions of dns/src/dns_service.cc and report/src/reporter_service.cc start their
-- server, and the setters of reactor/include/tcp_server.h.
use rins.Prelude.{
  ℕ, ◌+◌, ◌%◌, ◌^◌, ◌<◌, ◌≡◌, refl, sym, ap, ◌∙◌, List, [], ◌∷◌, map, replicate, Option, none, some,
  Option-cases, inl, inr, true, Result, ok, ◌>>=◌, >>=-eq-ok, Returns,
}
use rins.Reactor.Text.{Text, first_not_empty, is_space}
use rins.Reactor.ConfigFile.{
  StrMap, split_lines, load, set_path, config_instance, find_value, get_string, get_number,
  parse_number, read_signed, read_digits,
}
use rins.Reactor.ConfigFile.Log.{
  directive, entry_log, last_value, logged_value, load-last_value, load_and_get,
}
use rins.Reactor.EventLoop.{EventLoop, init, epollin, add_io_event}
use rins.Reactor.Callback.{Callback, Task, accept_callback}
use rins.Reactor.ConnTable.{new_table}
use rins.Reactor.ThreadQueue.{empty_queue}
use rins.Reactor.Message.{MsgRouter, no_routes, register_msg_router}
use rins.Reactor.TcpServer.{TcpServer}
use rins.Reactor.TcpServer.Start.{
  Listening, works, reactor, max_conn, thread_num, tcp_server, allocate_lem, start_threads_lem,
}

abbrev pub ip_key : Text
ip_key = b'i' ∷ b'p' ∷ []

abbrev pub port_key : Text
port_key = b'p' ∷ b'o' ∷ b'r' ∷ b't' ∷ []

abbrev pub any_ip : Text
any_ip = b'0' ∷ b'.' ∷ b'0' ∷ b'.' ∷ b'0' ∷ b'.' ∷ b'0' ∷ []

-- What a main function has once its server is constructed; `config` is the static of config_file.
pub record Boot : Type 0 where
  pub config : StrMap
  pub ip : Text
  pub port : ℕ
  pub loop : EventLoop Callback Task
  pub server : TcpServer

-- The beginning of the two main functions: the contents of the file of the configuration, and what
-- the calls on the socket answer. The port goes through a `short`, as a bit pattern.
unfoldable pub boot : ℕ → Option Text → Listening → Result Boot
boot default_port file answers = do
  r ← set_path file none
  m ← config_instance r.1
  s ← tcp_server answers r.1 init
  ok (record {
    config = m;
    ip = get_string reactor ip_key any_ip m;
    port = get_number reactor port_key default_port m % 2 ^ 16;
    loop = s.0;
    server = s.1;
  })

-- The statics of `tcp_server`: the routes, and the callbacks of a connection with none for null.
pub record Statics (H C : Type 0) : Type 0 where
  pub router : MsgRouter H (Option (Unit {0}))
  pub conn_start_cb : Option C
  pub conn_close_cb : Option C

module _ {H C : Type 0} where
  unfoldable pub new_statics : Statics H C
  new_statics = record { router = no_routes; conn_start_cb = none; conn_close_cb = none }

  -- `tcp_server::add_msg_router` without user data
  unfoldable pub add_msg_router : ℕ → H → Statics H C → Statics H C
  add_msg_router msgid cb s = record s { router = (register_msg_router msgid cb none s.router).1 }

  -- `tcp_server::set_conn_start`
  unfoldable pub set_conn_start : C → Statics H C → Statics H C
  set_conn_start cb s = record s { conn_start_cb = some cb }

  -- `tcp_server::set_conn_close`
  unfoldable pub set_conn_close : C → Statics H C → Statics H C
  set_conn_close cb s = record s { conn_close_cb = some cb }

-- A number is what the text under its key reads as, if the default is what `before` reads as.
pub get_number-get_string :
    (section key before : Text) (m : StrMap)
    → get_number section key (parse_number before) m
      ≡ parse_number (get_string section key before m)
unfolding get_number get_string
get_number-get_string section key before m = elim (Option-cases (find_value section key m)) [
  | inl e ↦ rw (e, get_number, get_string) refl
  | inr (v, e) ↦ rw (e, get_number, get_string) refl
]

-- A file is loaded with these assignments.
pub record Loaded (text : Text) (log : List (Text × (Text × Text))) (m : StrMap) : Type 0 where
  pub loads : load (some text) [] ≡ ok (true, m)
  pub gives :
      (section key before : Text)
      → get_string section key before m ≡ last_value section key before log

load-Loaded :
    (text : Text) (log : List (Text × (Text × Text)))
    → entry_log none (map directive (split_lines text)) ≡ some log
    → (m : StrMap) × Loaded text log m
unfolding logged_value
load-Loaded text log e =
    let looked : (section key before : Text)
        → load_and_get text section key before ≡ ok (true, last_value section key before log) =
      λ section key before.
        load-last_value text section key before ∙ ap (logged_value section key before) e in
    let (r, same, loads) =
      >>=-eq-ok (load (some text) []) (λ r. ok (r.0, get_string [] [] [] r.1))
        (true, last_value [] [] [] log) (looked [] [] []) in
    let found : r.0 ≡ true = cc in
    (
      r.1,
      record {
        loads = loads ∙ ap (λ b. ok (b, r.1)) found;
        gives = λ section key before.
            let known : ok (r.0, get_string section key before r.1)
                ≡ ok (true, last_value section key before log) =
              sym (ap (λ l. l >>= λ q. ok (q.0, get_string section key before q.1)) loads)
              ∙ looked section key before in
            cc;
      },
    )

-- The number that a file of the given assignments has under a key.
abbrev pub number_of : List (Text × (Text × Text)) → Text → Text → Text → ℕ
number_of log section key before = parse_number (last_value section key before log)

-- What `get_string` answers is known.
abbrev pub Gives : List (Text × (Text × Text)) → StrMap → Type 0
Gives log m =
    (section key before : Text)
    → get_string section key before m ≡ last_value section key before log

pub Gives-number :
    (section key before : Text) (log : List (Text × (Text × Text))) (m : StrMap)
    → Gives log m
    → get_number section key (parse_number before) m ≡ number_of log section key before
Gives-number section key before log m gives =
    get_number-get_string section key before m ∙ ap parse_number (gives section key before)

abbrev pub text_3 : Text
text_3 = b'3' ∷ []

abbrev pub text_1024 : Text
text_1024 = b'1' ∷ b'0' ∷ b'2' ∷ b'4' ∷ []

pub parse_defaults : (parse_number text_3 ≡ 3) × (parse_number text_1024 ≡ 1024)
unfolding parse_number read_signed read_digits first_not_empty is_space
parse_defaults = (refl, refl)

-- What the server of a configuration is.
pub record Booted (log : List (Text × (Text × Text))) (default : Text) (fd : ℕ) (b : Boot)
    : Type 0 where
  pub gives : Gives log b.config
  pub ip : b.ip ≡ last_value reactor ip_key any_ip log
  pub port : b.port ≡ number_of log reactor port_key default % 2 ^ 16
  pub table : b.server.table ≡ new_table (number_of log reactor max_conn text_1024)
  pub threads :
      b.server.thread_pool
      ≡ some (record {
        queues = replicate (number_of log reactor thread_num text_3) empty_queue;
        thread_cnt = number_of log reactor thread_num text_3;
        index = 0;
      })
  pub listens : b.loop ≡ add_io_event true fd accept_callback epollin init

pub boot-Booted :
    (text : Text) (log : List (Text × (Text × Text))) (port : Text) (fd : ℕ)
    → entry_log none (map directive (split_lines text)) ≡ some log
    → number_of log reactor max_conn text_1024 + 3 < 2 ^ 31
    → 0 < number_of log reactor thread_num text_3
    → number_of log reactor thread_num text_3 < 2 ^ 31
    → Returns (boot (parse_number port) (some text) (works fd)) (Booted log port fd)
unfolding boot set_path config_instance tcp_server
boot-Booted text log port fd e few pos small =
    let (m, h) = load-Loaded text log e in
    let conns : get_number reactor max_conn 1024 m ≡ number_of log reactor max_conn text_1024 =
      sym (ap (λ n. get_number reactor max_conn n m) parse_defaults.1)
      ∙ Gives-number reactor max_conn text_1024 log m h.gives in
    let cnt : get_number reactor thread_num 3 m ≡ number_of log reactor thread_num text_3 =
      sym (ap (λ n. get_number reactor thread_num n m) parse_defaults.0)
      ∙ Gives-number reactor thread_num text_3 log m h.gives in
    rw
      (
        h.loads,
        conns,
        cnt,
        allocate_lem (number_of log reactor max_conn text_1024) few,
        start_threads_lem (number_of log reactor thread_num text_3) pos small,
      )
      (record {
        gives = h.gives;
        ip = h.gives reactor ip_key any_ip;
        port = ap (λ n. n % 2 ^ 16) (Gives-number reactor port_key port log m h.gives);
        table = refl;
        threads = refl;
        listens = refl;
      })
