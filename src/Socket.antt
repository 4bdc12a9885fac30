-- ===== src/Socket.antt =====
-- src/l0_system/socket.h and socket.cpp: what the members of Socket make of the system calls. A call
-- of the operating system is an argument: what it returned.
use libremo.Prelude.{ℕ, Bool, not, List, [], ◌∷◌, ◌==◌, if◌then◌else◌, length}
use libremo.Error.{
  Result, ok, error, ◌>>=◌, throw_if, err_socket_send_failed, err_socket_send_incomplete,
  err_socket_recv_incomplete, err_socket_poll_failed,
}

-- Socket::IOResult
pub data IoResult : Type 0 where
  success : IoResult
  would_block : IoResult
  peer_shutdown : IoResult

-- send() took so many bytes, or failed: with EWOULDBLOCK, or with another error.
pub data SendRet : Type 0 where
  sent : ℕ → SendRet
  send_blocked : SendRet
  send_failed : SendRet

-- recv() stored these bytes, none at the end of the stream, or failed.
pub data RecvRet : Type 0 where
  got : List ℕ → RecvRet
  recv_blocked : RecvRet
  recv_failed : RecvRet

-- Socket::send; `counted` says whether the caller takes the number of bytes.
unfoldable pub send : ℕ → Bool → SendRet → Result (IoResult × ℕ)
send bufsize counted send_blocked = ok (would_block, 0)
send bufsize counted send_failed = error err_socket_send_failed
send bufsize counted (sent n) =
    if counted
    then ok (success, n)
    else (do _ ← throw_if (not (n == bufsize)) err_socket_send_incomplete; ok (success, 0))

-- Socket::recv
unfoldable pub recv : ℕ → Bool → RecvRet → Result (IoResult × List ℕ)
recv bufsize counted recv_blocked = ok (would_block, [])
recv bufsize counted recv_failed = error err_socket_send_failed
recv bufsize counted (got []) = ok (peer_shutdown, [])
recv bufsize counted (got (b ∷ bytes)) = if counted then ok (success, b ∷ bytes) else (do
  _ ← throw_if (not (length (b ∷ bytes) == bufsize)) err_socket_recv_incomplete
  ok (success, b ∷ bytes))

-- Socket::wait_send_ready; the argument says whether poll() succeeded.
unfoldable pub wait_send_ready : Bool → Result (Unit {0})
wait_send_ready polled = throw_if (not polled) err_socket_poll_failed
