-- ===== src/Reactor/ClientTests.antt =====
-- The theorems on the TCP client at concrete inputs.
use rins.Prelude.{
  ℕ, ◌≡◌, refl, List, [], ◌∷◌, ◌++◌, take, some, false, true, Result, ok, fault, out_of_fuel,
  Returns, arith,
}
use rins.Reactor.Memory.{blank, window}
use rins.Reactor.IoBuf.{IoBuf}
use rins.Reactor.IoBuf.Laws.{Holds}
use rins.Reactor.ReactorBuf.{interrupted, returned, got, retry, wrote, again, write_failed}
use rins.Reactor.EventLoop
use rins.Reactor.EventLoop.{EventLoop, del_io_mask, epollout}
use rins.Reactor.Message.{head_bytes}
use rins.Reactor.TcpConn.Framing.{Msg}
use rins.Reactor.TcpClient.{TcpClient}
use rins.Reactor.TcpClient.Link.{Dial, in_progress, do_read, do_write}
use rins.Reactor.TcpClient.Reading.{do_read-Told}
use rins.Reactor.TcpClient.Misreading.{do_read-early, do_read-endless}
use rins.Reactor.TcpClient.Writing.{do_write-Drained, do_write-resumes}

abbrev empty_buf : IoBuf
empty_buf = record { capacity = 4194304; len = 0; head = 0; block = blank }

-- A buffer with two bytes
abbrev two_bytes : IoBuf
two_bytes = record { capacity = 4194304; len = 2; head = 0; block = blank }

abbrev client : IoBuf → TcpClient
client out = record {
  sockfd = 5;
  connected = true;
  in_buf = empty_buf;
  out_buf = out;
  loop = EventLoop.init;
}

abbrev redial : Dial
redial = record { socket = some 6; connect = in_progress }

abbrev keep : TcpClient × List Msg → Result (TcpClient × List Msg)
keep s = ok s

abbrev note : ℕ → ℕ → List ℕ → TcpClient × List Msg → Result (TcpClient × List Msg)
note id length view (c, ms) = ok (c, ms ++ ((id, take length view) ∷ []))

empty-Holds : Holds 4194304 [] empty_buf
unfolding window
empty-Holds = record { bytes = refl; front = refl; count = refl; size = refl; room = omega arith }

two_bytes-Holds : Holds 4194304 (0 ∷ 0 ∷ []) two_bytes
unfolding window
two_bytes-Holds = record {
  bytes = refl;
  front = refl;
  count = refl;
  size = refl;
  room = omega arith;
}

-- Two messages, one with no body, and the first byte of the next head
abbrev two_messages : List ℕ
two_messages = 2 ∷ 0 ∷ 0 ∷ 0 ∷ 1 ∷ 0 ∷ 0 ∷ 0 ∷ 7 ∷ 3 ∷ 0 ∷ 0 ∷ 0 ∷ 0 ∷ 0 ∷ 0 ∷ 0 ∷ 2 ∷ []

do_read-Told_example :
    Returns
      (do_read keep keep note 19
        (some 18)
        (interrupted (returned (got two_messages)))
        redial
        (client empty_buf, []))
      (λ x.
        (x.0 ≡ true) × Holds 4194304 (2 ∷ []) x.1.0.in_buf × (x.1.1 ≡ (2, 7 ∷ []) ∷ (3, []) ∷ []))
unfolding retry head_bytes
do_read-Told_example =
    do_read-Told keep keep note (λ ms. ms) (λ id length view s. (refl, refl)) 4194304 19
      ((2, 7 ∷ []) ∷ (3, []) ∷ []) [] two_messages (2 ∷ [])
      (interrupted (returned (got two_messages))) redial (client empty_buf) [] refl refl
      (omega arith) (omega arith) (omega arith) refl
      ((omega arith, omega arith), ((omega arith, omega arith), tt)) (omega arith) empty-Holds

-- The head of a message of two bytes, and the first of them
abbrev half_message : List ℕ
half_message = 2 ∷ 0 ∷ 0 ∷ 0 ∷ 2 ∷ 0 ∷ 0 ∷ 0 ∷ 7 ∷ []

do_read-early_example :
    Returns
      (do_read keep keep note 2
        (some 9)
        (returned (got half_message))
        redial
        (client empty_buf, []))
      (λ x.
        Holds 4194304 (7 ∷ []) x.1.0.in_buf
        × (body : List ℕ) × (x.1.1 ≡ (2, body) ∷ [])
        × (take 1 body ≡ 7 ∷ []))
unfolding retry head_bytes
do_read-early_example =
    do_read-early keep keep note (λ ms. ms) (λ id length view s. (refl, refl)) 4194304 0
      (record { id = 2; length = 2 }) (7 ∷ []) (returned (got half_message)) redial
      (client empty_buf) [] refl refl (omega arith) (omega arith) (omega arith) (omega arith)
      (omega arith) empty-Holds

-- A head with the length -8
abbrev rewinding : List ℕ
rewinding = 2 ∷ 0 ∷ 0 ∷ 0 ∷ 248 ∷ 255 ∷ 255 ∷ 255 ∷ []

do_read-endless_example :
    do_read keep keep note 50 (some 8) (returned (got rewinding)) redial (client empty_buf, [])
    ≡ fault out_of_fuel
unfolding retry head_bytes
do_read-endless_example =
    do_read-endless keep keep note (λ ms. ms) (λ id length view s. (refl, refl)) 4194304 50 2 []
      (returned (got rewinding)) redial (client empty_buf) [] refl refl (omega arith) (omega arith)
      empty-Holds

do_write-Drained_example :
    Returns
      (do_write keep keep
        ((interrupted (returned (wrote 1)), redial)
          ∷ (returned (wrote 1), redial)
          ∷ (returned again, redial)
          ∷ [])
        (client two_bytes, []))
      (λ t.
        Holds 4194304 [] t.0.out_buf
        × (t.0.loop ≡ del_io_mask 5 epollout EventLoop.init)
        × (t.0.in_buf ≡ empty_buf)
        × (t.1 ≡ []))
unfolding retry
do_write-Drained_example =
    do_write-Drained keep keep 4194304 (0 ∷ 0 ∷ [])
      ((interrupted (returned (wrote 1)), redial) ∷ (returned (wrote 1), redial) ∷ []) (1 ∷ 1 ∷ [])
      (returned again) redial (client two_bytes) [] (omega arith)
      (refl, omega arith, (refl, omega arith, tt)) (omega arith) refl two_bytes-Holds

do_write-resumes_example :
    Returns
      (do_write keep keep
        ((returned (wrote 1), redial)
          ∷ (returned write_failed, redial)
          ∷ (returned again, redial)
          ∷ [])
        (client two_bytes, []))
      (λ t. Holds 4194304 (0 ∷ []) t.0.out_buf × (t.0.sockfd ≡ 6) × (t.0.connected ≡ false))
unfolding retry
do_write-resumes_example =
    do_write-resumes keep keep (λ s. refl) 4194304 6 (0 ∷ 0 ∷ [])
      ((returned (wrote 1), redial) ∷ []) (1 ∷ []) (returned write_failed) (returned again) redial
      redial (client two_bytes) [] (refl, omega arith, tt) (omega arith) refl refl (omega arith)
      refl refl two_bytes-Holds
