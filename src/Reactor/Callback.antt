-- ===== src/Reactor/Callback.antt =====
-- The functions that the program registers as `io_callback`, each with the object that its argument
-- points to, and the one task that it hands to the threads.
pub data Callback : Type 0 where
  conn_rd_callback conn_wt_callback : Callback
  accept_callback : Callback
  client_read_callback client_write_callback connection_delay : Callback
  udp_server_read udp_client_read : Callback
  deal_task_message : Callback
  new_dns_request new_report_request thread_report : Callback

pub data Task : Type 0 where
  push_change_task : Task
