-- ===== src/Rpc/Endpoint.antt =====
-- src/l3_rpc/local_endpoint.h and local_endpoint.cpp: the remote endpoints that represent a local
-- endpoint to the outside, and the end of it all.
pub mod Served
pub mod Gone
use libremo.Prelude.{ℕ, List, [], ◌∷◌, ◌++◌, ◌==◌, if◌then◌else◌, Option, none, some}
use libremo.Error.{Result, ok, error, fault, timeout, ◌>>=◌}
use libremo.Rpc.Registry.{Local, clear_items}
use libremo.Rpc.Remote.{Remote, new_remote, destroy_remote}

-- A local endpoint with `m_remotes`. The remote endpoints live in a heap, by their addresses.
pub record Endpoint : Type 0 where
  pub local : Local
  pub remotes : List ℕ
  pub heap : ℕ → Option Remote

abbrev pub put_remote : (ℕ → Option Remote) → ℕ → Option Remote → ℕ → Option Remote
put_remote heap p remote q = if q == p then remote else heap q

unfoldable pub add_remote : ℕ → Endpoint → Endpoint
add_remote p e = record e { remotes = e.remotes ++ (p ∷ []) }

-- LocalEndpoint::connect, with the address that `new` gave; the name of the remote side is not used.
unfoldable pub connect : ℕ → Endpoint → Result Endpoint
unfolding new_remote add_remote
connect p e = do
  remote ← new_remote
  ok (add_remote p (record e { heap = put_remote e.heap p (some remote) }))

-- A destructor that throws ends the program.
abbrev pub no_throw : {A : Type 0} → Result A → Result A
no_throw (ok a) = ok a
no_throw (error e) = fault
no_throw fault = fault
no_throw timeout = timeout

unfoldable pub delete_remote : ℕ → Option Remote → Endpoint → Result Endpoint
unfolding destroy_remote
delete_remote p none e = fault
delete_remote p (some remote) e = do
  _ ← no_throw (destroy_remote remote)
  ok (record e { heap = put_remote e.heap p none })

unfoldable pub delete_remotes : List ℕ → Endpoint → Result Endpoint
unfolding delete_remote
delete_remotes [] e = ok e
delete_remotes (p ∷ rest) e = do e' ← delete_remote p (e.heap p) e; delete_remotes rest e'

unfoldable pub clear_remotes : Endpoint → Result Endpoint
unfolding delete_remotes
clear_remotes e = do e' ← delete_remotes e.remotes e; ok (record e' { remotes = [] })

-- LocalEndpoint::~LocalEndpoint
unfoldable pub destroy_local : Endpoint → Result Endpoint
unfolding clear_items clear_remotes
destroy_local e = do
  l ← no_throw (clear_items e.local)
  no_throw (clear_remotes (record e { local = l }))
