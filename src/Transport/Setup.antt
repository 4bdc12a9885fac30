-- ===== src/Transport/Setup.antt =====
-- TcpThread::TcpThread of src/l1_transport/tcp/tcp-transport.cpp: the sockets of the thread.
use libremo.Prelude.{ℕ, ◌≡◌, refl, sym, ap, ◌∙◌, Bool, true, false, Option, none, some, arith}
use libremo.Error.{Result, ok, error, fault, timeout, Yields, Yields->>=, ErrorCode, ◌>>=◌}
use libremo.SocketSetup.{
  Addr, SocketState, opened_socket, Done, continue, syscall, connect_socket, bind_socket,
  listen_socket, set_blocking, set_reuse_addr, get_socket_addr, on_receive_ready,
}

-- What the system makes of the calls for one socket: which of them fail, and what entries of the log
-- throw. A socket that cannot be opened throws this error.
pub record Luck : Type 0 where
  pub open_throws : Option ErrorCode
  pub getfl_fails : Bool
  pub setfl_fails : Bool
  pub reuse_fails : Bool
  pub bind_before : Option ErrorCode
  pub bind_fails : Bool
  pub bind_after : Option ErrorCode
  pub listen_fails : Bool
  pub name_fails : Bool
  pub connect_before : Option ErrorCode
  pub connect_fails : Bool
  pub connect_after : Option ErrorCode

-- No call fails, and no entry throws.
abbrev pub good_luck : Luck
good_luck = record {
  open_throws = none;
  getfl_fails = false;
  setfl_fails = false;
  reuse_fails = false;
  bind_before = none;
  bind_fails = false;
  bind_after = none;
  listen_fails = false;
  name_fails = false;
  connect_before = none;
  connect_fails = false;
  connect_after = none;
}

pub record TcpSockets : Type 0 where
  pub serversock : SocketState
  pub ctrl_in : SocketState
  pub ctrl_out : SocketState

-- An exception leaves the constructor, and the sockets are closed by their destructors.
abbrev pub unless : Done → Result SocketState
unless (s, none) = ok s
unless (s, some e) = error e

-- Socket(SockProto)
abbrev pub opened_or : Option ErrorCode → Addr → Result SocketState
opened_or none unspecified = ok (opened_socket unspecified)
opened_or (some e) unspecified = error e

module _ (unspecified localhost listen_addr : Addr) (complete : Addr → Addr) (somaxconn : ℕ) where
  -- m_serversock
  unfoldable pub setup_server : Luck → Result SocketState
  setup_server l = do
    s ← opened_or l.open_throws unspecified
    s1 ← unless (set_blocking false l.getfl_fails l.setfl_fails s)
    s2 ← unless (set_reuse_addr true l.reuse_fails (on_receive_ready s1))
    s3 ← unless (bind_socket complete l.bind_before l.bind_fails l.bind_after listen_addr s2)
    unless (listen_socket somaxconn none l.listen_fails s3)

  -- m_ctrl_in, until it is bound
  unfoldable pub setup_ctrl_in : Luck → Result SocketState
  setup_ctrl_in l = do
    s ← opened_or l.open_throws unspecified
    s1 ← unless (set_blocking false l.getfl_fails l.setfl_fails s)
    unless (
        bind_socket complete l.bind_before l.bind_fails l.bind_after localhost
          (on_receive_ready s1))

  -- m_ctrl_out, until it is bound
  unfoldable pub setup_ctrl_out : Luck → Result SocketState
  setup_ctrl_out l = do
    s ← opened_or l.open_throws unspecified
    unless (bind_socket complete l.bind_before l.bind_fails l.bind_after localhost s)

  -- `a.connect(b.get_socket_addr())`
  unfoldable pub connect_to : Luck → Luck → SocketState → SocketState → Result SocketState
  connect_to l lb a b = do
    addr ← get_socket_addr lb.name_fails b
    unless (connect_socket l.connect_before l.connect_fails l.connect_after addr a)

  -- TcpThread::TcpThread, as far as its sockets go
  unfoldable pub setup_thread : Luck → Luck → Luck → Result TcpSockets
  unfolding setup_server setup_ctrl_in setup_ctrl_out connect_to
  setup_thread server ctrl_in ctrl_out = do
    serversock ← setup_server server
    in1 ← setup_ctrl_in ctrl_in
    out1 ← setup_ctrl_out ctrl_out
    out2 ← connect_to ctrl_out ctrl_in out1 in1
    in2 ← connect_to ctrl_in ctrl_out in1 out2
    ok (record { serversock = serversock; ctrl_in = in2; ctrl_out = out2 })

  -- What the thread needs of its sockets.
  pub record IsReady (t : TcpSockets) : Type 0 where
    pub server_name : t.serversock.name ≡ complete listen_addr
    pub server_listens : t.serversock.backlog ≡ some somaxconn
    pub server_nonblocking : t.serversock.nonblocking ≡ true
    pub server_reuse : t.serversock.reuse_addr ≡ true
    pub server_handler : t.serversock.receive_ready ≡ true
    pub in_nonblocking : t.ctrl_in.nonblocking ≡ true
    pub in_handler : t.ctrl_in.receive_ready ≡ true
    pub in_peer : t.ctrl_in.peer ≡ some t.ctrl_out.name
    pub out_peer : t.ctrl_out.peer ≡ some t.ctrl_in.name

  -- What is known of one socket.
  abbrev ServerReady : SocketState → Type 0
  ServerReady s =
      (s.name ≡ complete listen_addr)
      × (s.backlog ≡ some somaxconn)
      × (s.nonblocking ≡ true)
      × (s.reuse_addr ≡ true)
      × (s.receive_ready ≡ true)

  server-Yields : (l : Luck) → Yields ServerReady (setup_server l)
  unfolding setup_server set_blocking set_reuse_addr bind_socket listen_socket continue syscall
  server-Yields l = ground arith

  abbrev ListensInside : SocketState → Type 0
  ListensInside s = (s.nonblocking ≡ true) × (s.receive_ready ≡ true)

  ctrl_in-Yields : (l : Luck) → Yields ListensInside (setup_ctrl_in l)
  unfolding setup_ctrl_in set_blocking bind_socket continue syscall
  ctrl_in-Yields l = ground arith

  -- Connecting leaves all but the peer as it was.
  abbrev Connected : SocketState → SocketState → SocketState → Type 0
  Connected a b a' = a' ≡ record a { peer = some b.name }

  connect_to-Yields :
      (l lb : Luck) (a b : SocketState) → Yields (Connected a b) (connect_to l lb a b)
  unfolding connect_to get_socket_addr connect_socket continue syscall
  connect_to-Yields l lb a b = ground arith

  anything : (r : Result SocketState) → Yields (λ s. Unit {0}) r
  anything (ok s) = tt
  anything (error e) = tt
  anything fault = tt
  anything timeout = tt

  -- However the calls of the system turn out, the constructor throws, or the thread has its sockets as it
  -- needs them.
  setup_thread-Yields :
      (server ctrl_in ctrl_out : Luck) → Yields IsReady (setup_thread server ctrl_in ctrl_out)
  unfolding setup_thread
  setup_thread-Yields server ctrl_in ctrl_out =
      Yields->>= ServerReady IsReady (setup_server server) _ (server-Yields server) λ serversock hs.
        Yields->>= ListensInside IsReady (setup_ctrl_in ctrl_in) _ (ctrl_in-Yields ctrl_in)
          λ in1 hi.
            Yields->>= (λ s. Unit {0}) IsReady (setup_ctrl_out ctrl_out) _
              (anything (setup_ctrl_out ctrl_out))
              λ out1 ho.
                Yields->>= (Connected out1 in1) IsReady (connect_to ctrl_out ctrl_in out1 in1) _
                  (connect_to-Yields ctrl_out ctrl_in out1 in1)
                  λ out2 hc.
                    Yields->>= (Connected in1 out2) IsReady (connect_to ctrl_in ctrl_out in1 out2) _
                      (connect_to-Yields ctrl_in ctrl_out in1 out2)
                      λ in2 hd. record {
                        server_name = hs.0;
                        server_listens = hs.1;
                        server_nonblocking = hs.2;
                        server_reuse = hs.3;
                        server_handler = hs.4;
                        in_nonblocking = ap (λ s. s.nonblocking) hd ∙ hi.0;
                        in_handler = ap (λ s. s.receive_ready) hd ∙ hi.1;
                        in_peer = ap (λ s. s.peer) hd;
                        out_peer = ap (λ s. s.peer) hc ∙ ap (λ s. some s.name) (sym hd);
                      }

  -- However the calls of the system turn out, the constructor of a transport's thread throws, or
  -- its server socket listens at its address without blocking, with the address reusable, and the
  -- two control sockets are each other's peers, the inner one without blocking and with its
  -- handler. When no call fails, it does not throw.
  pub setup_thread_lem :
      (server ctrl_in ctrl_out : Luck)
      → Yields IsReady (setup_thread server ctrl_in ctrl_out)
        × ((t : TcpSockets) × (setup_thread good_luck good_luck good_luck ≡ ok t))
  unfolding setup_thread setup_server setup_ctrl_in setup_ctrl_out connect_to set_blocking
      set_reuse_addr bind_socket listen_socket get_socket_addr connect_socket continue syscall
  setup_thread_lem server ctrl_in ctrl_out =
      (setup_thread-Yields server ctrl_in ctrl_out, (_, refl))
